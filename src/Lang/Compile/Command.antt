-- ===== src/Lang/Compile/Command.antt =====
-- `command_action` of prayer-lang/src/compiler.rs: the command's name in lower case, then its
-- arguments. The names differ, so that the arms are tried in the source's order in five functions.
use prayer_rs.Prelude.{
  String, false, ◌&&◌, List, is_nil, if◌then◌else◌, ◌==◌, Result, ok, err, ◌>>=◌,
}
use Prim.Native.String.{◌++◌ as ◌⊕◌}
use prayer_rs.Prelude.Text.{to_ascii_lowercase}
use prayer_rs.Actions.{Action}
use prayer_rs.Actions.Requests.{GoTarget}
use prayer_rs.Lang.Clauses.{get}
use prayer_rs.Lang.Compile.Arguments.{
  CompileError, req, parse_u, parse_bool, is_one, at_most_one, is_on, wait_action, buy_action,
  sell_action, use_item_action, repair_action, recycle_command, refuel_action, craft_command,
  trade_offer_action,
}

unfoldable pub faction_command : String → String → List String → Result CompileError Action
unfolding req parse_u
faction_command c name args =
    if c == "faction_leave"
    then ok Action.faction_leave
    else if c == "faction_withdraw_invite"
    then (do player ← req name args 0; ok (Action.faction_withdraw_invite player))
    else if c == "faction_propose_ally"
    then (do faction ← req name args 0; ok (Action.faction_propose_ally faction))
    else if c == "faction_accept_ally"
    then (do faction ← req name args 0; ok (Action.faction_accept_ally faction))
    else if c == "faction_remove_ally"
    then (do faction ← req name args 0; ok (Action.faction_remove_ally faction))
    else if c == "faction_declare_war"
    then (do faction ← req name args 0; ok (Action.faction_declare_war faction (get args 1)))
    else if c == "faction_propose_peace"
    then (do faction ← req name args 0; ok (Action.faction_propose_peace faction (get args 1)))
    else if c == "faction_accept_peace"
    then (do faction ← req name args 0; ok (Action.faction_accept_peace faction))
    else if c == "faction_set_enemy"
    then (do faction ← req name args 0; ok (Action.faction_set_enemy faction))
    else if c == "faction_remove_enemy"
    then (do faction ← req name args 0; ok (Action.faction_remove_enemy faction))
    else if c == "faction_prepay_tax"
    then (do quantity ← parse_u name args 0; ok (Action.faction_prepay_tax quantity))
    else if c == "faction_cancel_mission"
    then (do mission_id ← req name args 0; ok (Action.faction_cancel_mission mission_id))
    else if c == "espionage"
    then ok Action.espionage
    else if c == "scan_poi"
    then (do poi_id ← req name args 0; ok (Action.scan_poi poi_id))
    else if c == "distress_signal"
    then ok (Action.distress_signal (get args 0))
    else if c == "say"
    then (do
      content ← req name args 0
      channel ← req name args 1
      ok (Action.say (record { content = content; channel = channel; target = get args 2 })))
    else err (CompileError.invalid ("executable command " ⊕ name ⊕ " has no typed lowering"))

unfoldable pub market_command : String → String → List String → Result CompileError Action
unfolding req parse_u craft_command trade_offer_action faction_command
market_command c name args =
    if c == "cancel_commission"
    then (do commission_id ← req name args 0; ok (Action.cancel_commission commission_id))
    else if c == "supply_commission"
    then (do
      commission_id ← req name args 0
      item ← req name args 1
      quantity ← parse_u name args 2
      ok (Action.supply_commission commission_id item quantity))
    else if c == "cancel_ship_listing"
    then (do listing_id ← req name args 0; ok (Action.cancel_ship_listing listing_id))
    else if c == "place_ship_buy_order"
    then (do
      ship_class ← req name args 0
      price ← parse_u name args 1
      ok (Action.place_ship_buy_order ship_class price))
    else if c == "cancel_ship_buy_order"
    then (do order_id ← req name args 0; ok (Action.cancel_ship_buy_order order_id))
    else if c == "sell_ship_to_order"
    then (do
      order_id ← req name args 0
      ship_id ← req name args 1
      ok (Action.sell_ship_to_order order_id ship_id))
    else if c == "cancel_order"
    then (do order_id ← req name args 0; ok (Action.cancel_order order_id))
    else if c == "modify_order"
    then (do
      order_id ← req name args 0
      price_each ← parse_u name args 1
      ok (Action.modify_order order_id price_each))
    else if c == "craft"
    then craft_command name args
    else if c == "cancel_craft_job"
    then (do job_id ← req name args 0; ok (Action.cancel_craft_job job_id))
    else if c == "salvage_wreck"
    then (do wreck_id ← req name args 0; ok (Action.salvage_wreck wreck_id))
    else if c == "tow_wreck"
    then (do wreck_id ← req name args 0; ok (Action.tow_wreck wreck_id))
    else if c == "scrap_wreck"
    then ok Action.scrap_wreck
    else if c == "sell_wreck"
    then ok Action.sell_wreck
    else if c == "release_wreck"
    then ok Action.release_wreck
    else if c == "insure_ship"
    then (do ticks ← parse_u name args 0; ok (Action.insure_ship ticks))
    else if c == "citizenship_apply"
    then (do empire_id ← req name args 0; ok (Action.citizenship_apply empire_id))
    else if c == "citizenship_withdraw"
    then (do empire_id ← req name args 0; ok (Action.citizenship_withdraw empire_id))
    else if c == "citizenship_renounce"
    then (do empire_id ← req name args 0; ok (Action.citizenship_renounce empire_id))
    else if c == "trade_accept"
    then (do trade_id ← req name args 0; ok (Action.trade_accept trade_id))
    else if c == "trade_offer"
    then trade_offer_action name args
    else faction_command c name args

unfoldable pub ship_command : String → String → List String → Result CompileError Action
unfolding req parse_u use_item_action repair_action recycle_command refuel_action market_command
ship_command c name args =
    if c == "use_item"
    then use_item_action name args
    else if c == "repair"
    then repair_action name args
    else if c == "repair_module"
    then (do module_id ← req name args 0; ok (Action.repair_module module_id))
    else if c == "recycle"
    then recycle_command name args
    else if c == "refuel"
    then refuel_action name args
    else if c == "self_destruct"
    then ok Action.self_destruct
    else if c == "switch_ship"
    then (do ship ← req name args 0; ok (Action.switch_ship ship))
    else if c == "rename_ship"
    then (do new_name ← req name args 0; ok (Action.rename_ship new_name))
    else if c == "install_mod"
    then (do module_id ← req name args 0; ok (Action.install_mod module_id))
    else if c == "uninstall_mod"
    then (do module_id ← req name args 0; ok (Action.uninstall_mod module_id))
    else if c == "buy_ship"
    then (do listing ← req name args 0; ok (Action.buy_ship listing))
    else if c == "buy_listed_ship"
    then (do listing ← req name args 0; ok (Action.buy_listed_ship listing))
    else if c == "commission_ship"
    then (do
      ship_class ← req name args 0
      ok (Action.commission_ship (record { ship_class = ship_class; provide_materials = false })))
    else if c == "sell_ship"
    then (do ship ← req name args 0; ok (Action.sell_ship ship))
    else if c == "scrap_ship"
    then (do ship ← req name args 0; ok (Action.scrap_ship ship))
    else if c == "list_ship_for_sale"
    then (do
      ship ← req name args 0
      price ← parse_u name args 1
      ok (Action.list_ship_for_sale ship price))
    else if c == "refit_ship"
    then ok Action.refit_ship
    else market_command c name args

unfoldable pub facility_command : String → String → List String → Result CompileError Action
unfolding req parse_u parse_bool ship_command
facility_command c name args =
    if c == "cancel_buy"
    then (do item ← req name args 0; ok (Action.cancel_buy item))
    else if c == "cancel_sell"
    then (do item ← req name args 0; ok (Action.cancel_sell item))
    else if c == "faction_create"
    then (do
      new_name ← req name args 0
      tag ← req name args 1
      ok (Action.faction_create new_name tag))
    else if c == "faction_invite"
    then (do player ← req name args 0; ok (Action.faction_invite player))
    else if c == "faction_accept_invite"
    then (do faction ← req name args 0; ok (Action.faction_accept_invite faction))
    else if c == "faction_kick"
    then (do player ← req name args 0; ok (Action.faction_kick player))
    else if c == "faction_set_role"
    then (do
      player ← req name args 0
      role ← req name args 1
      ok (Action.faction_set_role player role))
    else if c == "found_station"
    then (do
      new_name ← req name args 0
      is_public ← parse_bool name args 1
      ok (Action.found_station new_name is_public))
    else if c == "facility_build"
    then (do facility_type ← req name args 0; ok (Action.facility_build facility_type))
    else if c == "faction_facility_build"
    then (do facility_type ← req name args 0; ok (Action.faction_facility_build facility_type))
    else if c == "facility_upgrade"
    then (do
      facility_id ← req name args 0
      facility_type ← req name args 1
      ok (
          Action.facility_upgrade
            (record { facility_id = facility_id; facility_type = facility_type })))
    else if c == "faction_facility_upgrade"
    then (do
      facility_id ← req name args 0
      facility_type ← req name args 1
      ok (
          Action.faction_facility_upgrade
            (record { facility_id = facility_id; facility_type = facility_type })))
    else if c == "facility_dismantle"
    then (do facility_id ← req name args 0; ok (Action.facility_dismantle facility_id))
    else if c == "faction_facility_dismantle"
    then (do facility_id ← req name args 0; ok (Action.faction_facility_dismantle facility_id))
    else if c == "facility_set_access"
    then (do
      facility_id ← req name args 0
      access ← req name args 1
      ok (Action.facility_set_access (record { facility_id = facility_id; access = access })))
    else if c == "facility_set_output_price"
    then (do
      facility_id ← req name args 0
      item ← req name args 1
      price ← parse_u name args 2
      ok (
          Action.facility_set_output_price
            (record { facility_id = facility_id; item = item; price = price })))
    else if c == "facility_set_name"
    then (do
      facility_id ← req name args 0
      custom_name ← req name args 1
      ok (
          Action.facility_set_name
            (record { facility_id = facility_id; custom_name = custom_name })))
    else ship_command c name args

unfoldable pub core_command : String → String → List String → Result CompileError Action
unfolding req parse_u wait_action buy_action sell_action facility_command
core_command c name args =
    if c == "halt" && is_nil args
    then ok Action.halt
    else if c == "wait" && is_nil args
    then ok (Action.wait 1)
    else if c == "wait" && is_one args
    then wait_action args
    else if c == "dock" && is_nil args
    then ok Action.dock
    else if c == "undock" && is_nil args
    then ok Action.undock
    else if c == "go" && is_one args
    then (do destination ← req name args 0; ok (Action.go (GoTarget.identifier destination)))
    else if c == "mine" && at_most_one args
    then ok (Action.mine (get args 0))
    else if c == "set_home"
    then ok Action.set_home
    else if c == "find"
    then ok (Action.find (record { targets = args }))
    else if c == "survey"
    then ok Action.survey
    else if c == "attack"
    then (do target_id ← req name args 0; ok (Action.attack target_id))
    else if c == "scan"
    then ok (Action.scan (get args 0))
    else if c == "cloak"
    then ok (Action.cloak (is_on (get args 0)))
    else if c == "hunt"
    then (do target ← req name args 0; ok (Action.hunt target))
    else if c == "prepay_tax"
    then (do quantity ← parse_u name args 0; ok (Action.prepay_tax quantity))
    else if c == "accept_mission"
    then (do mission_id ← req name args 0; ok (Action.accept_mission mission_id))
    else if c == "abandon_mission"
    then (do mission_id ← req name args 0; ok (Action.abandon_mission mission_id))
    else if c == "decline_mission"
    then (do template_id ← req name args 0; ok (Action.decline_mission template_id))
    else if c == "complete_mission"
    then (do mission_id ← req name args 0; ok (Action.complete_mission mission_id))
    else if c == "load_passenger"
    then (do destination ← req name args 0; ok (Action.load_passenger destination))
    else if c == "unload_passenger"
    then (do new_name ← req name args 0; ok (Action.unload_passenger new_name (get args 1)))
    else if c == "buy"
    then buy_action name args
    else if c == "sell"
    then sell_action name args
    else facility_command c name args

unfoldable pub command_action : String → List String → Result CompileError Action
unfolding core_command
command_action name args = core_command (to_ascii_lowercase name) name args

unfoldable pub lower_materialized_command : String → List String → Result CompileError Action
unfolding command_action
lower_materialized_command name args = command_action name args
