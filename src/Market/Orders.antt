-- ===== src/Market/Orders.antt =====
-- The functions of prayer-runtime/src/knowledge/virtual_market.rs.
use prayer_rs.Prelude.{
  String, Bool, false, not, ◌&&◌, ◌||◌, Option, none, some, List, [], ◌∷◌, if◌then◌else◌, ◌==◌,
}
use prayer_rs.Prelude.Int.{ℤ, pos, max_ℤ, min_ℤ, leb_ℤ, ltb_ℤ, saturating_add, saturating_sub}
use prayer_rs.Prelude.Text.{trim, to_ascii_lowercase}

-- `f64`, as far as a priority needs it.
pub record Float : Type 1 where
  pub F : Type 0
  pub is_finite : F → Bool
  -- `<= 0.0`
  pub leb_zero : F → Bool
  pub one : F

abbrev pub is_until : String → Bool
is_until side = side == "buy_until" || side == "sell_until"

abbrev pub is_side : String → Bool
is_side side = side == "buy" || side == "sell" || side == "buy_until" || side == "sell_until"

-- The amount of a fixed order that is reserved, of the quantity that is not filled.
unfoldable pub fixed_filled : ℤ → ℤ → ℤ
fixed_filled quantity filled = min_ℤ (max_ℤ filled (pos 0)) quantity

unfoldable pub fixed_reserved : ℤ → ℤ → ℤ → ℤ
unfolding fixed_filled
fixed_reserved quantity filled reserved =
    let r = min_ℤ (max_ℤ reserved (pos 0)) quantity in
    if ltb_ℤ quantity (saturating_add r (fixed_filled quantity filled))
    then saturating_sub quantity (fixed_filled quantity filled)
    else r

abbrev pub is_positive_point : Option ℤ → Bool
is_positive_point none = false
is_positive_point (some point) = ltb_ℤ (pos 0) point

-- The status, from what the order is.
unfoldable pub status_of : Bool → String → ℤ → ℤ → ℤ → String
status_of enabled side quantity filled reserved =
    if not enabled
    then "disabled"
    else if ltb_ℤ (pos 0) reserved
    then "reserved"
    else if not (is_until side) && leb_ℤ quantity filled
    then "filled"
    else "available"

module _ (float : Float) where
  pub record VirtualMarketOrder : Type 0 where
    pub id : String
    pub status : String
    pub side : String
    pub item_id : String
    pub station_id : String
    pub price_each : ℤ
    pub quantity : ℤ
    pub tipping_point : Option ℤ
    pub dumping : Bool
    pub reserved : ℤ
    pub reservation_id : Option String
    pub filled : ℤ
    pub enabled : Bool
    pub internal_only : Bool
    pub priority : float.F
    pub do_forever : Bool

  -- The order behind the trimming and the tests, by its side.
  unfoldable pub settle : VirtualMarketOrder → VirtualMarketOrder
  unfolding fixed_filled fixed_reserved status_of
  settle order =
      let until = is_until order.side in
      let filled = if until then pos 0 else fixed_filled order.quantity order.filled in
      let reserved =
        if until
        then max_ℤ order.reserved (pos 0)
        else fixed_reserved order.quantity order.filled order.reserved in
      let tips = order.side == "sell_until" && is_positive_point order.tipping_point in
      record order {
        reserved = reserved;
        filled = filled;
        do_forever = if until then order.do_forever else false;
        reservation_id = if ltb_ℤ (pos 0) reserved then order.reservation_id else none;
        status = status_of order.enabled order.side order.quantity filled reserved;
        priority =
            if not (float.is_finite order.priority) || float.leb_zero order.priority
            then float.one
            else order.priority;
        tipping_point = if tips then order.tipping_point else none;
        dumping = if tips then order.dumping else false;
      }

  abbrev pub trimmed : VirtualMarketOrder → VirtualMarketOrder
  unfolding trim to_ascii_lowercase
  trimmed order = record order {
    id = trim order.id;
    side = to_ascii_lowercase (trim order.side);
    item_id = trim order.item_id;
    station_id = trim order.station_id;
  }

  unfoldable pub normalize_virtual_order : VirtualMarketOrder → Option VirtualMarketOrder
  unfolding trimmed settle
  normalize_virtual_order order =
      let o = trimmed order in
      if o.id == ""
        || not (is_side o.side)
        || o.item_id == ""
        || o.station_id == ""
        || leb_ℤ o.price_each (pos 0)
        || leb_ℤ o.quantity (pos 0)
      then none
      else some (settle o)

  unfoldable pub fixed_virtual_order_is_settled : VirtualMarketOrder → Bool
  fixed_virtual_order_is_settled order =
      not (is_until order.side)
      && (leb_ℤ (max_ℤ order.reserved (pos 0)) (pos 0)
          && leb_ℤ (max_ℤ order.quantity (pos 0)) (max_ℤ order.filled (pos 0)))

  -- `retain`
  unfoldable pub prune_settled_virtual_orders : List VirtualMarketOrder → List VirtualMarketOrder
  unfolding fixed_virtual_order_is_settled
  prune_settled_virtual_orders [] = []
  prune_settled_virtual_orders (order ∷ orders) =
      let rest = prune_settled_virtual_orders orders in
      if fixed_virtual_order_is_settled order then rest else order ∷ rest
