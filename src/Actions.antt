-- ===== src/Actions.antt =====
-- prayer-actions/src/lib.rs: the actions that producers queue and executors run, each in an envelope
-- that says where it comes from. `J` is the JSON value of serde_json, which the queue only carries.
pub mod Requests
use prayer_rs.Prelude.{ℕ, String, Bool, Option, none}
use Requests.{
  ActionId, RunId, ItemId, SourceRef, GoTarget, TransferRequest, CraftRequest, RecycleRequest,
  CommissionShipRequest, BuyRequest, SellRequest, FindRequest, SayRequest, ServiceTransferRequest,
  TradeOfferRequest, FacilityUpgradeRequest, FacilityAccessRequest, FacilityOutputPriceRequest,
  FacilityNameRequest,
}

-- ACTION_SCHEMA_VERSION
abbrev pub action_schema_version : ℕ
action_schema_version = 6

pub data Action : Type 0 where
  halt : Action
  wait : ℕ → Action
  go : GoTarget → Action
  dock : Action
  undock : Action
  mine : Option ItemId → Action
  transfer : TransferRequest → Action
  set_home : Action
  find : FindRequest → Action
  survey : Action
  attack : String → Action
  scan : Option String → Action
  cloak : Bool → Action
  hunt : String → Action
  prepay_tax : ℕ → Action
  accept_mission : String → Action
  abandon_mission : String → Action
  decline_mission : String → Action
  complete_mission : String → Action
  load_passenger : String → Action
  unload_passenger : String → Option String → Action
  buy : BuyRequest → Action
  sell : SellRequest → Action
  cancel_buy : ItemId → Action
  cancel_sell : ItemId → Action
  faction_create : String → String → Action
  faction_invite : String → Action
  faction_accept_invite : String → Action
  faction_kick : String → Action
  faction_set_role : String → String → Action
  found_station : String → Bool → Action
  facility_build : String → Action
  faction_facility_build : String → Action
  facility_upgrade : FacilityUpgradeRequest → Action
  faction_facility_upgrade : FacilityUpgradeRequest → Action
  facility_dismantle : String → Action
  faction_facility_dismantle : String → Action
  facility_set_access : FacilityAccessRequest → Action
  facility_set_output_price : FacilityOutputPriceRequest → Action
  facility_set_name : FacilityNameRequest → Action
  use_item : ItemId → ℕ → Action
  repair : ServiceTransferRequest → Action
  repair_module : String → Action
  recycle : RecycleRequest → Action
  refuel : ServiceTransferRequest → Action
  self_destruct : Action
  switch_ship : String → Action
  rename_ship : String → Action
  install_mod : String → Action
  uninstall_mod : String → Action
  buy_ship : String → Action
  buy_listed_ship : String → Action
  commission_ship : CommissionShipRequest → Action
  sell_ship : String → Action
  scrap_ship : String → Action
  list_ship_for_sale : String → ℕ → Action
  refit_ship : Action
  cancel_commission : String → Action
  supply_commission : String → ItemId → ℕ → Action
  cancel_ship_listing : String → Action
  place_ship_buy_order : String → ℕ → Action
  cancel_ship_buy_order : String → Action
  sell_ship_to_order : String → String → Action
  cancel_order : String → Action
  modify_order : String → ℕ → Action
  craft : CraftRequest → Action
  cancel_craft_job : String → Action
  salvage_wreck : String → Action
  tow_wreck : String → Action
  scrap_wreck : Action
  sell_wreck : Action
  release_wreck : Action
  insure_ship : ℕ → Action
  citizenship_apply : String → Action
  citizenship_withdraw : String → Action
  citizenship_renounce : String → Action
  trade_offer : TradeOfferRequest → Action
  trade_accept : String → Action
  faction_leave : Action
  faction_withdraw_invite : String → Action
  faction_propose_ally : String → Action
  faction_accept_ally : String → Action
  faction_remove_ally : String → Action
  faction_declare_war : String → Option String → Action
  faction_propose_peace : String → Option String → Action
  faction_accept_peace : String → Action
  faction_set_enemy : String → Action
  faction_remove_enemy : String → Action
  faction_prepay_tax : ℕ → Action
  faction_cancel_mission : String → Action
  espionage : Action
  scan_poi : String → Action
  distress_signal : Option String → Action
  say : SayRequest → Action

pub data ActionOrigin : Type 0 where
  prayer_lang : RunId → Option SourceRef → ActionOrigin
  controller : RunId → String → ActionOrigin
  manual : RunId → ActionOrigin
  interrupt : String → ActionOrigin

pub record ActionEnvelope : Type 0 where
  pub schema_version : ℕ
  pub id : ActionId
  pub action : Action
  pub origin : ActionOrigin
  pub idempotency_key : Option String

-- `ActionEnvelope::new`
unfoldable pub new_envelope : ActionId → Action → ActionOrigin → ActionEnvelope
new_envelope id action origin = record {
  schema_version = action_schema_version;
  id = id;
  action = action;
  origin = origin;
  idempotency_key = none;
}

pub record ContinuationEnvelope (J : Type 0) : Type 0 where
  pub schema_version : ℕ
  pub executor : String
  pub state : J

pub data FailureClass : Type 0 where
  invalid conflict transport rejected unsupported internal : FailureClass

pub data ActionOutcome : Type 0 where
  succeeded : ActionOutcome
  failed : FailureClass → String → Bool → ActionOutcome
  cancelled : String → ActionOutcome
