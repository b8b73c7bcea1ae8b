-- ===== src/Lang/Pipeline/Readable.antt =====
-- The actions whose statement, shown by prayer-lang/src/action_projection.rs, is read back.
use prayer_rs.Prelude.{ℕ, String, ◌≡◌, ◌<◌, ◌≤◌, false, Option, none, some, List, [], ◌∷◌, ◌==◌}
use prayer_rs.Prelude.Int.{i64_max}
use prayer_rs.Actions.{Action}
use prayer_rs.Actions.Requests.{
  GoTarget, BuyRequest, SellRequest, CraftRequest, RecycleRequest, ServiceTransferRequest,
  TradeItem, TradeOfferRequest,
}
use prayer_rs.Lang.Ast.{Span, BuyNode, SellNode, CraftClauses}
use prayer_rs.Lang.Compile.Arguments.{quantity_only, is_empty_offer}
use prayer_rs.Lang.RoundTrip.Trade.{IsAmount, IsBuy}
use prayer_rs.Lang.RoundTrip.Sell.{IsSell}
use prayer_rs.Lang.RoundTrip.Craft.{IsClauses}

-- The analyzer reads a quantity as an `i64`.
abbrev pub IsQuantity : ℕ → Type 0
IsQuantity n = n ≤ i64_max

abbrev pub IsOptionalQuantity : Option ℕ → Type 0
IsOptionalQuantity none = Unit
IsOptionalQuantity (some n) = IsQuantity n

abbrev pub IsIdentifier : GoTarget → Type 0
IsIdentifier (GoTarget.identifier id) = Unit
IsIdentifier _ = ⊥

abbrev pub buy_of : BuyRequest → Span → BuyNode
buy_of request span = record {
  item_id = request.item;
  quantity = request.quantity;
  max_price = request.max_price;
  place_order = request.place_order;
  deliver_to = request.deliver_to;
  span = span;
}

abbrev pub sell_of : SellRequest → Span → SellNode
sell_of request span = record {
  item_id = request.item;
  quantity = request.quantity;
  min_price = request.min_price;
  place_order = request.place_order;
  span = span;
}

abbrev pub craft_of : CraftRequest → CraftClauses
craft_of request = record {
  source = request.source;
  deliver_to = request.destination;
  facility_id = request.facility_id;
  preset = request.preset;
}

abbrev pub recycle_of : RecycleRequest → CraftClauses
recycle_of request = record {
  source = request.source;
  deliver_to = request.destination;
  facility_id = request.facility_id;
  preset = none;
}

-- A repair of one's own ship names no item; a remote one names a target that is not `with`, and
-- perhaps an item and its quantity.
abbrev pub IsRepair : Option String → Option String → Option ℕ → Type 0
IsRepair none none none = Unit
IsRepair (some target) none none = (target == "with") ≡ false
IsRepair (some target) (some item) quantity =
    ((target == "with") ≡ false) × ((item == "with") ≡ false) × IsOptionalQuantity quantity
IsRepair _ _ _ = ⊥

-- The target is no number.
abbrev pub IsTarget : Option String → Type 0
IsTarget none = Unit
IsTarget (some target) = quantity_only (target ∷ []) ≡ false

pub record IsRefuel (request : ServiceTransferRequest) : Type 0 where
  pub target : IsTarget request.target
  pub quantity : IsOptionalQuantity request.quantity
  pub item : request.item ≡ none

abbrev pub AllQuantities : List TradeItem → Type 0
AllQuantities [] = Unit
AllQuantities (entry ∷ entries) = IsQuantity entry.quantity × AllQuantities entries

pub record IsOffer (request : TradeOfferRequest) : Type 0 where
  pub offered : AllQuantities request.offer_items
  pub requested : AllQuantities request.request_items
  pub offered_credits : IsOptionalQuantity request.offer_credits
  pub requested_credits : IsOptionalQuantity request.request_credits
  pub something : is_empty_offer request ≡ false

abbrev pub no_span : Span
no_span = record { start = 0; end = 0 }

abbrev pub IsReadable : Action → Type 0
IsReadable (Action.wait ticks) = IsQuantity ticks
IsReadable (Action.go destination) = IsIdentifier destination
IsReadable (Action.transfer request) = ⊥
IsReadable (Action.prepay_tax quantity) = IsQuantity quantity
IsReadable (Action.buy request) = IsBuy (buy_of request no_span)
IsReadable (Action.sell request) = IsSell (sell_of request no_span)
IsReadable (Action.facility_set_output_price request) = IsQuantity request.price
IsReadable (Action.use_item item quantity) = IsQuantity quantity
IsReadable (Action.repair request) = IsRepair request.target request.item request.quantity
IsReadable (Action.recycle request) = IsAmount request.quantity × IsClauses (recycle_of request)
IsReadable (Action.refuel request) = IsRefuel request
IsReadable (Action.list_ship_for_sale ship price) = IsQuantity price
IsReadable (Action.supply_commission commission_id item quantity) = IsQuantity quantity
IsReadable (Action.place_ship_buy_order ship_class price) = IsQuantity price
IsReadable (Action.modify_order order_id price_each) = (0 < price_each) × IsQuantity price_each
IsReadable (Action.craft request) = IsAmount request.quantity × IsClauses (craft_of request)
IsReadable (Action.insure_ship ticks) = IsQuantity ticks
IsReadable (Action.trade_offer request) = IsOffer request
IsReadable (Action.faction_prepay_tax quantity) = IsQuantity quantity
IsReadable (Action.say request) = ⊥
IsReadable _ = Unit
