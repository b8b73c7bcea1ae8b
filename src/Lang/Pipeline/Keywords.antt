-- ===== src/Lang/Pipeline/Keywords.antt =====
-- The keyword of each statement that prayer-lang/src/action_projection.rs shows.
use prayer_rs.Prelude.{String, Bool, true, not, ◌&&◌, ◌≡◌, refl}
use prayer_rs.Prelude.Text.{starts_with}
use prayer_rs.Actions.{Action}
use prayer_rs.Lang.Projection.Requests.{Statement}
use prayer_rs.Lang.Projection.{render_action}
use prayer_rs.Lang.Scanner.{is_name_start, is_letter}
use prayer_rs.Lang.Scanned.{all_token}
use prayer_rs.Lang.Pipeline.{has_own_parser}
use prayer_rs.Lang.Pipeline.Readable.{IsReadable}

-- An identifier that the alternative `command` of the parser gets to see.
abbrev pub is_keyword : String → Bool
is_keyword name = is_name_start name && all_token name && not (has_own_parser name)

abbrev pub HasKeyword : Statement → Type 0
HasKeyword (Statement.line name words) = is_keyword name ≡ true
HasKeyword (Statement.block rows words) = Unit

pub render_action-HasKeyword :
    (action : Action) → IsReadable action → HasKeyword (render_action action)
unfolding render_action is_name_start all_token is_letter has_own_parser starts_with
render_action-HasKeyword Action.halt h = refl
render_action-HasKeyword (Action.wait ticks) h = refl
render_action-HasKeyword (Action.go destination) h = refl
render_action-HasKeyword Action.dock h = refl
render_action-HasKeyword Action.undock h = refl
render_action-HasKeyword (Action.mine resource) h = refl
render_action-HasKeyword (Action.transfer request) h = elim h [ ]
render_action-HasKeyword Action.set_home h = refl
render_action-HasKeyword (Action.find request) h = refl
render_action-HasKeyword Action.survey h = refl
render_action-HasKeyword (Action.attack target_id) h = refl
render_action-HasKeyword (Action.scan target) h = refl
render_action-HasKeyword (Action.cloak enabled) h = refl
render_action-HasKeyword (Action.hunt target) h = refl
render_action-HasKeyword (Action.prepay_tax quantity) h = refl
render_action-HasKeyword (Action.accept_mission mission_id) h = refl
render_action-HasKeyword (Action.abandon_mission mission_id) h = refl
render_action-HasKeyword (Action.decline_mission template_id) h = refl
render_action-HasKeyword (Action.complete_mission mission_id) h = refl
render_action-HasKeyword (Action.load_passenger destination) h = refl
render_action-HasKeyword (Action.unload_passenger new_name target) h = refl
render_action-HasKeyword (Action.buy request) h = refl
render_action-HasKeyword (Action.sell request) h = refl
render_action-HasKeyword (Action.cancel_buy item) h = refl
render_action-HasKeyword (Action.cancel_sell item) h = refl
render_action-HasKeyword (Action.faction_create new_name tag) h = refl
render_action-HasKeyword (Action.faction_invite player) h = refl
render_action-HasKeyword (Action.faction_accept_invite faction) h = refl
render_action-HasKeyword (Action.faction_kick player) h = refl
render_action-HasKeyword (Action.faction_set_role player role) h = refl
render_action-HasKeyword (Action.found_station new_name is_public) h = refl
render_action-HasKeyword (Action.facility_build facility_type) h = refl
render_action-HasKeyword (Action.faction_facility_build facility_type) h = refl
render_action-HasKeyword (Action.facility_upgrade request) h = refl
render_action-HasKeyword (Action.faction_facility_upgrade request) h = refl
render_action-HasKeyword (Action.facility_dismantle facility_id) h = refl
render_action-HasKeyword (Action.faction_facility_dismantle facility_id) h = refl
render_action-HasKeyword (Action.facility_set_access request) h = refl
render_action-HasKeyword (Action.facility_set_output_price request) h = refl
render_action-HasKeyword (Action.facility_set_name request) h = refl
render_action-HasKeyword (Action.use_item item quantity) h = refl
render_action-HasKeyword (Action.repair request) h = refl
render_action-HasKeyword (Action.repair_module module_id) h = refl
render_action-HasKeyword (Action.recycle request) h = refl
render_action-HasKeyword (Action.refuel request) h = refl
render_action-HasKeyword Action.self_destruct h = refl
render_action-HasKeyword (Action.switch_ship ship) h = refl
render_action-HasKeyword (Action.rename_ship new_name) h = refl
render_action-HasKeyword (Action.install_mod module_id) h = refl
render_action-HasKeyword (Action.uninstall_mod module_id) h = refl
render_action-HasKeyword (Action.buy_ship listing) h = refl
render_action-HasKeyword (Action.buy_listed_ship listing) h = refl
render_action-HasKeyword (Action.commission_ship request) h = refl
render_action-HasKeyword (Action.sell_ship ship) h = refl
render_action-HasKeyword (Action.scrap_ship ship) h = refl
render_action-HasKeyword (Action.list_ship_for_sale ship price) h = refl
render_action-HasKeyword Action.refit_ship h = refl
render_action-HasKeyword (Action.cancel_commission commission_id) h = refl
render_action-HasKeyword (Action.supply_commission commission_id item quantity) h = refl
render_action-HasKeyword (Action.cancel_ship_listing listing_id) h = refl
render_action-HasKeyword (Action.place_ship_buy_order ship_class price) h = refl
render_action-HasKeyword (Action.cancel_ship_buy_order order_id) h = refl
render_action-HasKeyword (Action.sell_ship_to_order order_id ship_id) h = refl
render_action-HasKeyword (Action.cancel_order order_id) h = refl
render_action-HasKeyword (Action.modify_order order_id price_each) h = refl
render_action-HasKeyword (Action.craft request) h = refl
render_action-HasKeyword (Action.cancel_craft_job job_id) h = refl
render_action-HasKeyword (Action.salvage_wreck wreck_id) h = refl
render_action-HasKeyword (Action.tow_wreck wreck_id) h = refl
render_action-HasKeyword Action.scrap_wreck h = refl
render_action-HasKeyword Action.sell_wreck h = refl
render_action-HasKeyword Action.release_wreck h = refl
render_action-HasKeyword (Action.insure_ship ticks) h = refl
render_action-HasKeyword (Action.citizenship_apply empire_id) h = refl
render_action-HasKeyword (Action.citizenship_withdraw empire_id) h = refl
render_action-HasKeyword (Action.citizenship_renounce empire_id) h = refl
render_action-HasKeyword (Action.trade_offer request) h = refl
render_action-HasKeyword (Action.trade_accept trade_id) h = refl
render_action-HasKeyword Action.faction_leave h = refl
render_action-HasKeyword (Action.faction_withdraw_invite player) h = refl
render_action-HasKeyword (Action.faction_propose_ally faction) h = refl
render_action-HasKeyword (Action.faction_accept_ally faction) h = refl
render_action-HasKeyword (Action.faction_remove_ally faction) h = refl
render_action-HasKeyword (Action.faction_declare_war faction reason) h = refl
render_action-HasKeyword (Action.faction_propose_peace faction message) h = refl
render_action-HasKeyword (Action.faction_accept_peace faction) h = refl
render_action-HasKeyword (Action.faction_set_enemy faction) h = refl
render_action-HasKeyword (Action.faction_remove_enemy faction) h = refl
render_action-HasKeyword (Action.faction_prepay_tax quantity) h = refl
render_action-HasKeyword (Action.faction_cancel_mission mission_id) h = refl
render_action-HasKeyword Action.espionage h = refl
render_action-HasKeyword (Action.scan_poi poi_id) h = refl
render_action-HasKeyword (Action.distress_signal distress_type) h = refl
render_action-HasKeyword (Action.say request) h = elim h [ ]
