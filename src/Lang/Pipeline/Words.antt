-- ===== src/Lang/Pipeline/Words.antt =====
-- The words that prayer-lang/src/action_projection.rs shows an action by are read as that action.
use prayer_rs.Prelude.{◌≡◌, refl, true, false, none, some, [], ◌∷◌, arith}
use prayer_rs.Prelude.Assoc.{lookup, string_Eq}
use prayer_rs.Prelude.Decimal.{print}
use prayer_rs.Actions.{Action}
use prayer_rs.Actions.Requests.{GoTarget}
use prayer_rs.Lang.Ast.{Span}
use prayer_rs.Lang.Projection.{render_action}
use prayer_rs.Lang.Pipeline.{read_words, node_actions}
use prayer_rs.Lang.Analysis.Program.{arg_kind}
use prayer_rs.Lang.Compile.Command.{command_action}
use prayer_rs.Lang.Pipeline.Readable.{IsReadable}
use prayer_rs.Lang.Pipeline.Numbers.{parse_u64-quantity, read_words_as}
use prayer_rs.Lang.Pipeline.Clauses.{
  read_buy, read_sell, read_craft, read_recycle, read_commission_ship, read_modify_order,
}
use prayer_rs.Lang.Pipeline.Services.{read_repair, read_refuel}
use prayer_rs.Lang.Pipeline.Variadic.{read_find, read_trade_offer}

pub read_words-render_action :
    (action : Action) (span : Span)
    → IsReadable action
    → read_words (render_action action) span ≡ some (action ∷ [])
unfolding read_words render_action lookup arg_kind node_actions command_action
read_words-render_action Action.halt span h = refl
read_words-render_action (Action.wait ticks) span h =
    read_words_as "wait" (print ticks ∷ []) "wait" (print ticks ∷ []) span (Action.wait ticks) refl
      (tt, tt) (ground (arith, parse_u64-quantity ticks h))
read_words-render_action (Action.go (GoTarget.identifier id)) span h = refl
read_words-render_action (Action.go (GoTarget.system id)) span h = elim h [ ]
read_words-render_action (Action.go (GoTarget.poi id)) span h = elim h [ ]
read_words-render_action (Action.go (GoTarget.coordinate x y)) span h = elim h [ ]
read_words-render_action Action.dock span h = refl
read_words-render_action Action.undock span h = refl
read_words-render_action (Action.mine none) span h = refl
read_words-render_action (Action.mine (some value)) span h = refl
read_words-render_action (Action.transfer request) span h = elim h [ ]
read_words-render_action Action.set_home span h = refl
read_words-render_action (Action.find request) span h = read_find request span
read_words-render_action Action.survey span h = refl
read_words-render_action (Action.attack target_id) span h = refl
read_words-render_action (Action.scan none) span h = refl
read_words-render_action (Action.scan (some value)) span h = refl
read_words-render_action (Action.cloak true) span h = refl
read_words-render_action (Action.cloak false) span h = refl
read_words-render_action (Action.hunt target) span h = refl
read_words-render_action (Action.prepay_tax quantity) span h =
    read_words_as "prepay_tax" (print quantity ∷ []) "prepay_tax" (print quantity ∷ []) span
      (Action.prepay_tax quantity) refl ((quantity, h, refl), tt)
      (ground (arith, parse_u64-quantity quantity h))
read_words-render_action (Action.accept_mission mission_id) span h = refl
read_words-render_action (Action.abandon_mission mission_id) span h = refl
read_words-render_action (Action.decline_mission template_id) span h = refl
read_words-render_action (Action.complete_mission mission_id) span h = refl
read_words-render_action (Action.load_passenger destination) span h = refl
read_words-render_action (Action.unload_passenger new_name none) span h = refl
read_words-render_action (Action.unload_passenger new_name (some value)) span h = refl
read_words-render_action (Action.buy request) span h = read_buy request span h
read_words-render_action (Action.sell request) span h = read_sell request span h
read_words-render_action (Action.cancel_buy item) span h = refl
read_words-render_action (Action.cancel_sell item) span h = refl
read_words-render_action (Action.faction_create new_name tag) span h = refl
read_words-render_action (Action.faction_invite player) span h = refl
read_words-render_action (Action.faction_accept_invite faction) span h = refl
read_words-render_action (Action.faction_kick player) span h = refl
read_words-render_action (Action.faction_set_role player role) span h = refl
read_words-render_action (Action.found_station new_name true) span h = refl
read_words-render_action (Action.found_station new_name false) span h = refl
read_words-render_action (Action.facility_build facility_type) span h = refl
read_words-render_action (Action.faction_facility_build facility_type) span h = refl
read_words-render_action (Action.facility_upgrade request) span h = refl
read_words-render_action (Action.faction_facility_upgrade request) span h = refl
read_words-render_action (Action.facility_dismantle facility_id) span h = refl
read_words-render_action (Action.faction_facility_dismantle facility_id) span h = refl
read_words-render_action (Action.facility_set_access request) span h = refl
read_words-render_action (Action.facility_set_output_price request) span h =
    read_words_as "facility_set_output_price"
      (request.facility_id ∷ request.item ∷ print request.price ∷ []) "facility_set_output_price"
      (request.facility_id ∷ request.item ∷ print request.price ∷ []) span
      (Action.facility_set_output_price request) refl (tt, (tt, ((request.price, h, refl), tt)))
      (ground (arith, parse_u64-quantity request.price h))
read_words-render_action (Action.facility_set_name request) span h = refl
read_words-render_action (Action.use_item item quantity) span h =
    read_words_as "use_item" (item ∷ print quantity ∷ []) "use_item" (item ∷ print quantity ∷ [])
      span (Action.use_item item quantity) refl (tt, ((quantity, h, refl), tt))
      (ground (arith, parse_u64-quantity quantity h))
read_words-render_action (Action.repair request) span h = read_repair request span h
read_words-render_action (Action.repair_module module_id) span h = refl
read_words-render_action (Action.recycle request) span h = read_recycle request span h
read_words-render_action (Action.refuel request) span h = read_refuel request span h
read_words-render_action Action.self_destruct span h = refl
read_words-render_action (Action.switch_ship ship) span h = refl
read_words-render_action (Action.rename_ship new_name) span h = refl
read_words-render_action (Action.install_mod module_id) span h = refl
read_words-render_action (Action.uninstall_mod module_id) span h = refl
read_words-render_action (Action.buy_ship listing) span h = refl
read_words-render_action (Action.buy_listed_ship listing) span h = refl
read_words-render_action (Action.commission_ship request) span h = read_commission_ship request span
read_words-render_action (Action.sell_ship ship) span h = refl
read_words-render_action (Action.scrap_ship ship) span h = refl
read_words-render_action (Action.list_ship_for_sale ship price) span h =
    read_words_as "list_ship_for_sale" (ship ∷ print price ∷ []) "list_ship_for_sale"
      (ship ∷ print price ∷ []) span (Action.list_ship_for_sale ship price) refl
      (tt, ((price, h, refl), tt)) (ground (arith, parse_u64-quantity price h))
read_words-render_action Action.refit_ship span h = refl
read_words-render_action (Action.cancel_commission commission_id) span h = refl
read_words-render_action (Action.supply_commission commission_id item quantity) span h =
    read_words_as "supply_commission" (commission_id ∷ item ∷ print quantity ∷ [])
      "supply_commission" (commission_id ∷ item ∷ print quantity ∷ []) span
      (Action.supply_commission commission_id item quantity) refl
      (tt, (tt, ((quantity, h, refl), tt))) (ground (arith, parse_u64-quantity quantity h))
read_words-render_action (Action.cancel_ship_listing listing_id) span h = refl
read_words-render_action (Action.place_ship_buy_order ship_class price) span h =
    read_words_as "place_ship_buy_order" (ship_class ∷ print price ∷ []) "place_ship_buy_order"
      (ship_class ∷ print price ∷ []) span (Action.place_ship_buy_order ship_class price) refl
      (tt, ((price, h, refl), tt)) (ground (arith, parse_u64-quantity price h))
read_words-render_action (Action.cancel_ship_buy_order order_id) span h = refl
read_words-render_action (Action.sell_ship_to_order order_id ship_id) span h = refl
read_words-render_action (Action.cancel_order order_id) span h = refl
read_words-render_action (Action.modify_order order_id price_each) span h =
    read_modify_order order_id price_each span h.0 h.1
read_words-render_action (Action.craft request) span h = read_craft request span h
read_words-render_action (Action.cancel_craft_job job_id) span h = refl
read_words-render_action (Action.salvage_wreck wreck_id) span h = refl
read_words-render_action (Action.tow_wreck wreck_id) span h = refl
read_words-render_action Action.scrap_wreck span h = refl
read_words-render_action Action.sell_wreck span h = refl
read_words-render_action Action.release_wreck span h = refl
read_words-render_action (Action.insure_ship ticks) span h =
    read_words_as "insure_ship" (print ticks ∷ []) "insure_ship" (print ticks ∷ []) span
      (Action.insure_ship ticks) refl ((ticks, h, refl), tt)
      (ground (arith, parse_u64-quantity ticks h))
read_words-render_action (Action.citizenship_apply empire_id) span h = refl
read_words-render_action (Action.citizenship_withdraw empire_id) span h = refl
read_words-render_action (Action.citizenship_renounce empire_id) span h = refl
read_words-render_action (Action.trade_offer request) span h = read_trade_offer request span h
read_words-render_action (Action.trade_accept trade_id) span h = refl
read_words-render_action Action.faction_leave span h = refl
read_words-render_action (Action.faction_withdraw_invite player) span h = refl
read_words-render_action (Action.faction_propose_ally faction) span h = refl
read_words-render_action (Action.faction_accept_ally faction) span h = refl
read_words-render_action (Action.faction_remove_ally faction) span h = refl
read_words-render_action (Action.faction_declare_war faction none) span h = refl
read_words-render_action (Action.faction_declare_war faction (some value)) span h = refl
read_words-render_action (Action.faction_propose_peace faction none) span h = refl
read_words-render_action (Action.faction_propose_peace faction (some value)) span h = refl
read_words-render_action (Action.faction_accept_peace faction) span h = refl
read_words-render_action (Action.faction_set_enemy faction) span h = refl
read_words-render_action (Action.faction_remove_enemy faction) span h = refl
read_words-render_action (Action.faction_prepay_tax quantity) span h =
    read_words_as "faction_prepay_tax" (print quantity ∷ []) "faction_prepay_tax"
      (print quantity ∷ []) span (Action.faction_prepay_tax quantity) refl ((quantity, h, refl), tt)
      (ground (arith, parse_u64-quantity quantity h))
read_words-render_action (Action.faction_cancel_mission mission_id) span h = refl
read_words-render_action Action.espionage span h = refl
read_words-render_action (Action.scan_poi poi_id) span h = refl
read_words-render_action (Action.distress_signal none) span h = refl
read_words-render_action (Action.distress_signal (some value)) span h = refl
read_words-render_action (Action.say request) span h = elim h [ ]
