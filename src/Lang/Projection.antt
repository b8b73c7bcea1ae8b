-- ===== src/Lang/Projection.antt =====
-- `render_action` of prayer-lang/src/action_projection.rs: the statement that shows an action, as its
-- keyword and the words behind it, before `arg` quotes them.
use prayer_rs.Prelude.{
  ℕ, String, Bool, true, false, Option, none, some, List, [], ◌∷◌, ◌++◌, if◌then◌else◌,
}
use Prim.Native.String.{◌++◌ as ◌⊕◌}
use prayer_rs.Prelude.Decimal.{print, print_i64}
use prayer_rs.Actions.{Action}
use prayer_rs.Actions.Requests.{
  GoTarget, TransferItem, TransferSubject, TransferEndpoint, TransferRequest, BuyRequest,
  SellRequest, CraftRequest, RecycleRequest, CommissionShipRequest, ServiceTransferRequest,
  TradeItem, TradeOfferRequest, SayRequest,
}
use prayer_rs.Lang.Words.{order_words, price_words, quantity_words, item_words, clause_words}
use prayer_rs.Lang.Projection.Requests.{
  Statement, option_words, go_target, bool_word, buy_request_words, sell_request_words,
  repair_words, refuel_words, craft_request_words, recycle_request_words, commission_request_words,
  trade_words, say_words, transfer_statement,
}
pub mod Requests

unfoldable pub render_action : Action → Statement
unfolding go_target buy_request_words sell_request_words repair_words refuel_words
    craft_request_words recycle_request_words commission_request_words trade_words say_words
    transfer_statement
render_action Action.halt = Statement.line "halt" []
render_action (Action.wait ticks) = Statement.line "wait" (print ticks ∷ [])
render_action (Action.go destination) = Statement.line "go" (go_target destination ∷ [])
render_action Action.dock = Statement.line "dock" []
render_action Action.undock = Statement.line "undock" []
render_action (Action.mine resource) = Statement.line "mine" (option_words resource)
render_action (Action.transfer request) = transfer_statement request
render_action Action.set_home = Statement.line "set_home" []
render_action (Action.find request) = Statement.line "find" request.targets
render_action Action.survey = Statement.line "survey" []
render_action (Action.attack target_id) = Statement.line "attack" (target_id ∷ [])
render_action (Action.scan target) = Statement.line "scan" (option_words target)
render_action (Action.cloak enabled) = Statement.line "cloak" (if enabled then [] else "off" ∷ [])
render_action (Action.hunt target) = Statement.line "hunt" (target ∷ [])
render_action (Action.prepay_tax quantity) = Statement.line "prepay_tax" (print quantity ∷ [])
render_action (Action.accept_mission mission_id) = Statement.line "accept_mission" (mission_id ∷ [])
render_action (Action.abandon_mission mission_id) =
    Statement.line "abandon_mission" (mission_id ∷ [])
render_action (Action.decline_mission template_id) =
    Statement.line "decline_mission" (template_id ∷ [])
render_action (Action.complete_mission mission_id) =
    Statement.line "complete_mission" (mission_id ∷ [])
render_action (Action.load_passenger destination) =
    Statement.line "load_passenger" (destination ∷ [])
render_action (Action.unload_passenger new_name target) =
    Statement.line "unload_passenger" (new_name ∷ clause_words "to" target)
render_action (Action.buy request) = Statement.line "buy" (buy_request_words request)
render_action (Action.sell request) = Statement.line "sell" (sell_request_words request)
render_action (Action.cancel_buy item) = Statement.line "cancel_buy" (item ∷ [])
render_action (Action.cancel_sell item) = Statement.line "cancel_sell" (item ∷ [])
render_action (Action.faction_create new_name tag) =
    Statement.line "faction_create" (new_name ∷ tag ∷ [])
render_action (Action.faction_invite player) = Statement.line "faction_invite" (player ∷ [])
render_action (Action.faction_accept_invite faction) =
    Statement.line "faction_accept_invite" (faction ∷ [])
render_action (Action.faction_kick player) = Statement.line "faction_kick" (player ∷ [])
render_action (Action.faction_set_role player role) =
    Statement.line "faction_set_role" (player ∷ role ∷ [])
render_action (Action.found_station new_name is_public) =
    Statement.line "found_station" (new_name ∷ bool_word is_public ∷ [])
render_action (Action.facility_build facility_type) =
    Statement.line "facility_build" (facility_type ∷ [])
render_action (Action.faction_facility_build facility_type) =
    Statement.line "faction_facility_build" (facility_type ∷ [])
render_action (Action.facility_upgrade request) =
    Statement.line "facility_upgrade" (request.facility_id ∷ request.facility_type ∷ [])
render_action (Action.faction_facility_upgrade request) =
    Statement.line "faction_facility_upgrade" (request.facility_id ∷ request.facility_type ∷ [])
render_action (Action.facility_dismantle facility_id) =
    Statement.line "facility_dismantle" (facility_id ∷ [])
render_action (Action.faction_facility_dismantle facility_id) =
    Statement.line "faction_facility_dismantle" (facility_id ∷ [])
render_action (Action.facility_set_access request) =
    Statement.line "facility_set_access" (request.facility_id ∷ request.access ∷ [])
render_action (Action.facility_set_output_price request) =
    Statement.line "facility_set_output_price"
      (request.facility_id ∷ request.item ∷ print request.price ∷ [])
render_action (Action.facility_set_name request) =
    Statement.line "facility_set_name" (request.facility_id ∷ request.custom_name ∷ [])
render_action (Action.use_item item quantity) =
    Statement.line "use_item" (item ∷ print quantity ∷ [])
render_action (Action.repair request) = Statement.line "repair" (repair_words request)
render_action (Action.repair_module module_id) = Statement.line "repair_module" (module_id ∷ [])
render_action (Action.recycle request) = Statement.line "recycle" (recycle_request_words request)
render_action (Action.refuel request) = Statement.line "refuel" (refuel_words request)
render_action Action.self_destruct = Statement.line "self_destruct" []
render_action (Action.switch_ship ship) = Statement.line "switch_ship" (ship ∷ [])
render_action (Action.rename_ship new_name) = Statement.line "rename_ship" (new_name ∷ [])
render_action (Action.install_mod module_id) = Statement.line "install_mod" (module_id ∷ [])
render_action (Action.uninstall_mod module_id) = Statement.line "uninstall_mod" (module_id ∷ [])
render_action (Action.buy_ship listing) = Statement.line "buy_ship" (listing ∷ [])
render_action (Action.buy_listed_ship listing) = Statement.line "buy_listed_ship" (listing ∷ [])
render_action (Action.commission_ship request) =
    Statement.line "commission_ship" (commission_request_words request)
render_action (Action.sell_ship ship) = Statement.line "sell_ship" (ship ∷ [])
render_action (Action.scrap_ship ship) = Statement.line "scrap_ship" (ship ∷ [])
render_action (Action.list_ship_for_sale ship price) =
    Statement.line "list_ship_for_sale" (ship ∷ print price ∷ [])
render_action Action.refit_ship = Statement.line "refit_ship" []
render_action (Action.cancel_commission commission_id) =
    Statement.line "cancel_commission" (commission_id ∷ [])
render_action (Action.supply_commission commission_id item quantity) =
    Statement.line "supply_commission" (commission_id ∷ item ∷ print quantity ∷ [])
render_action (Action.cancel_ship_listing listing_id) =
    Statement.line "cancel_ship_listing" (listing_id ∷ [])
render_action (Action.place_ship_buy_order ship_class price) =
    Statement.line "place_ship_buy_order" (ship_class ∷ print price ∷ [])
render_action (Action.cancel_ship_buy_order order_id) =
    Statement.line "cancel_ship_buy_order" (order_id ∷ [])
render_action (Action.sell_ship_to_order order_id ship_id) =
    Statement.line "sell_ship_to_order" (order_id ∷ ship_id ∷ [])
render_action (Action.cancel_order order_id) = Statement.line "cancel_order" (order_id ∷ [])
render_action (Action.modify_order order_id price_each) =
    Statement.line "modify_order" (order_id ∷ "at" ∷ print price_each ∷ [])
render_action (Action.craft request) = Statement.line "craft" (craft_request_words request)
render_action (Action.cancel_craft_job job_id) = Statement.line "cancel_craft_job" (job_id ∷ [])
render_action (Action.salvage_wreck wreck_id) = Statement.line "salvage_wreck" (wreck_id ∷ [])
render_action (Action.tow_wreck wreck_id) = Statement.line "tow_wreck" (wreck_id ∷ [])
render_action Action.scrap_wreck = Statement.line "scrap_wreck" []
render_action Action.sell_wreck = Statement.line "sell_wreck" []
render_action Action.release_wreck = Statement.line "release_wreck" []
render_action (Action.insure_ship ticks) = Statement.line "insure_ship" (print ticks ∷ [])
render_action (Action.citizenship_apply empire_id) =
    Statement.line "citizenship_apply" (empire_id ∷ [])
render_action (Action.citizenship_withdraw empire_id) =
    Statement.line "citizenship_withdraw" (empire_id ∷ [])
render_action (Action.citizenship_renounce empire_id) =
    Statement.line "citizenship_renounce" (empire_id ∷ [])
render_action (Action.trade_offer request) = Statement.line "trade_offer" (trade_words request)
render_action (Action.trade_accept trade_id) = Statement.line "trade_accept" (trade_id ∷ [])
render_action Action.faction_leave = Statement.line "faction_leave" []
render_action (Action.faction_withdraw_invite player) =
    Statement.line "faction_withdraw_invite" (player ∷ [])
render_action (Action.faction_propose_ally faction) =
    Statement.line "faction_propose_ally" (faction ∷ [])
render_action (Action.faction_accept_ally faction) =
    Statement.line "faction_accept_ally" (faction ∷ [])
render_action (Action.faction_remove_ally faction) =
    Statement.line "faction_remove_ally" (faction ∷ [])
render_action (Action.faction_declare_war faction reason) =
    Statement.line "faction_declare_war" (faction ∷ option_words reason)
render_action (Action.faction_propose_peace faction message) =
    Statement.line "faction_propose_peace" (faction ∷ option_words message)
render_action (Action.faction_accept_peace faction) =
    Statement.line "faction_accept_peace" (faction ∷ [])
render_action (Action.faction_set_enemy faction) = Statement.line "faction_set_enemy" (faction ∷ [])
render_action (Action.faction_remove_enemy faction) =
    Statement.line "faction_remove_enemy" (faction ∷ [])
render_action (Action.faction_prepay_tax quantity) =
    Statement.line "faction_prepay_tax" (print quantity ∷ [])
render_action (Action.faction_cancel_mission mission_id) =
    Statement.line "faction_cancel_mission" (mission_id ∷ [])
render_action Action.espionage = Statement.line "espionage" []
render_action (Action.scan_poi poi_id) = Statement.line "scan_poi" (poi_id ∷ [])
render_action (Action.distress_signal distress_type) =
    Statement.line "distress_signal" (option_words distress_type)
render_action (Action.say request) = Statement.line "say" (say_words request)
