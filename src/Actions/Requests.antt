-- ===== src/Actions/Requests.antt =====
-- The requests that actions carry (prayer-actions/src/lib.rs). Identifiers are texts; a `u64` or
-- `usize` is a native number, an `i64` an integer.
use prayer_rs.Prelude.{ℕ, String, Bool, Option, List}
use prayer_rs.Prelude.Int.{ℤ}

abbrev pub ActionId : Type 0
ActionId = String

abbrev pub RunId : Type 0
RunId = String

abbrev pub ItemId : Type 0
ItemId = String

pub record SourceRef : Type 0 where
  pub source_name : Option String
  pub start : ℕ
  pub end : ℕ
  pub line : Option ℕ

pub data GoTarget : Type 0 where
  identifier : String → GoTarget
  system : String → GoTarget
  poi : String → GoTarget
  coordinate : ℤ → ℤ → GoTarget

pub record TransferItem : Type 0 where
  pub id : ItemId
  pub quantity : ℕ

pub data TransferSubject : Type 0 where
  all_cargo : TransferSubject
  credits : ℕ → TransferSubject
  item : ItemId → Option ℕ → TransferSubject
  ship : String → TransferSubject
  ship_module : String → TransferSubject
  items : List TransferItem → TransferSubject

pub data TransferEndpoint : Type 0 where
  cargo : TransferEndpoint
  storage : TransferEndpoint
  ship : String → TransferEndpoint
  faction : TransferEndpoint
  faction_tag : String → TransferEndpoint
  player : String → TransferEndpoint
  space : Option String → TransferEndpoint
  commission : String → TransferEndpoint

pub record TransferRequest : Type 0 where
  pub subject : TransferSubject
  pub from : TransferEndpoint
  pub to : TransferEndpoint

pub record CraftRequest : Type 0 where
  pub recipe_id : String
  pub quantity : ℕ
  pub source : Option String
  pub destination : Option String
  pub facility_id : Option String
  pub preset : Option String

pub record RecycleRequest : Type 0 where
  pub recipe_id : String
  pub quantity : ℕ
  pub source : Option String
  pub destination : Option String
  pub facility_id : Option String

pub record CommissionShipRequest : Type 0 where
  pub ship_class : String
  pub provide_materials : Bool

pub record BuyRequest : Type 0 where
  pub item : ItemId
  pub quantity : ℕ
  pub max_price : Option ℕ
  pub place_order : Bool
  pub deliver_to : Option String

pub record SellRequest : Type 0 where
  pub item : Option ItemId
  pub quantity : Option ℕ
  pub min_price : Option ℕ
  pub place_order : Bool

pub record FindRequest : Type 0 where
  pub targets : List String

pub record SayRequest : Type 0 where
  pub content : String
  pub channel : String
  pub target : Option String

pub record ServiceTransferRequest : Type 0 where
  pub target : Option String
  pub quantity : Option ℕ
  pub item : Option ItemId

pub record TradeItem : Type 0 where
  pub item : ItemId
  pub quantity : ℕ

pub record TradeOfferRequest : Type 0 where
  pub target : String
  pub offer_items : List TradeItem
  pub offer_credits : Option ℕ
  pub request_items : List TradeItem
  pub request_credits : Option ℕ

pub record FacilityUpgradeRequest : Type 0 where
  pub facility_id : String
  pub facility_type : String

pub record FacilityAccessRequest : Type 0 where
  pub facility_id : String
  pub access : String

pub record FacilityOutputPriceRequest : Type 0 where
  pub facility_id : String
  pub item : ItemId
  pub price : ℕ

pub record FacilityNameRequest : Type 0 where
  pub facility_id : String
  pub custom_name : String

pub data ActionArg : Type 0 where
  any : String → ActionArg
  integer : ℤ → ActionArg
  item_id : String → ActionArg
  system_id : String → ActionArg
  poi_id : String → ActionArg
  go_target : String → ActionArg
  ship_id : String → ActionArg
  listing_id : String → ActionArg
  mission_id : String → ActionArg
  module_id : String → ActionArg
  recipe_id : String → ActionArg
