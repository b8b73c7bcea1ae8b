-- ===== src/Market/Normal.antt =====
-- What a normalized order of prayer-runtime/src/knowledge/virtual_market.rs is like.
use prayer_rs.Prelude.{
  ℕ, refl, not, ◌||◌, ◌&&◌, sym, leb, if◌then◌else◌, ◌+◌, ◌<◌, ◌≤◌, ◌≡◌, String, Bool, true, false,
  none, some, ◌==◌, arith, Bool-cases, inl, inr,
}
use prayer_rs.Prelude.Int.{
  ℤ, pos, negsuc, pos_part, neg_part, i64_max, saturating_add, saturating_sub, max_ℤ, min_ℤ, leb_ℤ,
  ltb_ℤ, saturating_add-pos, saturating_sub-pos,
}
use mathlib.Core.Path.{subst}
use prayer_rs.Market.Orders.{
  Float, is_side, is_until, fixed_filled, fixed_reserved, status_of, VirtualMarketOrder, settle,
  trimmed, normalize_virtual_order, fixed_virtual_order_is_settled,
}

-- An amount between 0 and the quantity.
clamped : (q : ℕ) (z : ℤ) → (n : ℕ) × (min_ℤ (max_ℤ z (pos 0)) (pos q) ≡ pos n) × (n ≤ q)
clamped q (pos m) = elim (Bool-cases (leb m q)) [
  | inl fits ↦ (m, ground (arith, fits), ground (arith, fits))
  | inr above ↦ (q, ground (arith, above), omega arith)
]
clamped q (negsuc m) = (0, ground arith, omega arith)

-- What is reserved of a quantity, of which some is filled.
abbrev left : ℤ → ℤ → ℤ → ℤ
unfolding saturating_add saturating_sub
left q b a = if ltb_ℤ q (saturating_add a b) then saturating_sub q b else a

left-bounds :
    (q b a : ℕ)
    → b ≤ q
    → a ≤ q
    → q < i64_max
    → (neg_part (left (pos q) (pos b) (pos a)) ≡ 0)
      × (b + pos_part (left (pos q) (pos b) (pos a)) ≤ q)
unfolding left saturating_add saturating_sub
left-bounds q b a hb ha hq = elim (Bool-cases (leb (a + b) i64_max)) [
  | inl fits ↦
      ground (arith, fits, saturating_add-pos a b (ground (arith, fits)), saturating_sub-pos q b)
  | inr above ↦ ground (arith, above)
]

fixed_reserved-bounds :
    (q f r : ℤ)
    → pos_part q < i64_max
    → 0 < pos_part q
    → (neg_part (fixed_filled q f) ≡ 0)
      × (neg_part (fixed_reserved q f r) ≡ 0)
      × (pos_part (fixed_filled q f) + pos_part (fixed_reserved q f r) ≤ pos_part q)
unfolding fixed_filled fixed_reserved left
fixed_reserved-bounds (negsuc q) f r h k = absurd (omega arith)
fixed_reserved-bounds (pos q) f r h k =
    let (b, eb, hb) = clamped q f in
    let (a, ea, ha) = clamped q r in
    let (low, high) = left-bounds q b a hb ha h in
    subst
      (λ x.
        (neg_part x ≡ 0)
        × (neg_part (left (pos q) x (min_ℤ (max_ℤ r (pos 0)) (pos q))) ≡ 0)
        × (pos_part x + pos_part (left (pos q) x (min_ℤ (max_ℤ r (pos 0)) (pos q))) ≤ q))
      (sym eb)
      (subst
        (λ y.
          (neg_part (pos b) ≡ 0)
          × (neg_part (left (pos q) (pos b) y) ≡ 0)
          × (b + pos_part (left (pos q) (pos b) y) ≤ q))
        (sym ea) (refl, low, high))

max_zero : (z : ℤ) → neg_part (max_ℤ z (pos 0)) ≡ 0
max_zero (pos n) = ground arith
max_zero (negsuc n) = ground arith

status_bits :
    (until reserved full : Bool)
    → (not until && (not reserved && full)) ≡ (
        (if reserved then "reserved" else if not until && full then "filled" else "available")
        == "filled")
status_bits true true full = refl
status_bits true false full = refl
status_bits false true full = refl
status_bits false false true = refl
status_bits false false false = refl

nothing_reserved :
    (r : ℤ) → neg_part r ≡ 0 → leb_ℤ (max_ℤ r (pos 0)) (pos 0) ≡ not (ltb_ℤ (pos 0) r)
nothing_reserved (pos r) h = ground arith
nothing_reserved (negsuc r) h = absurd (omega arith)

all_filled : (q f : ℤ) → neg_part f ≡ 0 → leb_ℤ (max_ℤ q (pos 0)) (max_ℤ f (pos 0)) ≡ leb_ℤ q f
all_filled (pos q) (pos f) h = ground arith
all_filled (negsuc q) (pos f) h = ground arith
all_filled q (negsuc f) h = absurd (omega arith)

-- An enabled order is settled where its status is that it is filled.
status_of-settled :
    (side : String) (q f r : ℤ)
    → neg_part f ≡ 0
    → neg_part r ≡ 0
    → (not (is_until side)
        && (leb_ℤ (max_ℤ r (pos 0)) (pos 0) && leb_ℤ (max_ℤ q (pos 0)) (max_ℤ f (pos 0))))
      ≡ (status_of true side q f r == "filled")
unfolding status_of
status_of-settled side q f r hf hr =
    subst
      (λ x.
        (not (is_until side) && (x && leb_ℤ (max_ℤ q (pos 0)) (max_ℤ f (pos 0))))
        ≡ (status_of true side q f r == "filled"))
      (sym (nothing_reserved r hr))
      (subst
        (λ x.
          (not (is_until side) && (not (ltb_ℤ (pos 0) r) && x))
          ≡ (status_of true side q f r == "filled"))
        (sym (all_filled q f hf)) (status_bits (is_until side) (ltb_ℤ (pos 0) r) (leb_ℤ q f)))

-- A normalized order: its price and quantity are positive, its amounts are not negative, a fixed order
-- has no more reserved and filled than its quantity, and an enabled one is settled when it is filled.
pub record IsNormal (float : Float) (order : VirtualMarketOrder float) : Type 0 where
  pub side : is_side order.side ≡ true
  pub price : 0 < pos_part order.price_each
  pub quantity : 0 < pos_part order.quantity
  pub reserved : neg_part order.reserved ≡ 0
  pub filled : neg_part order.filled ≡ 0
  pub amounts :
      is_until order.side ≡ false
      → pos_part order.filled + pos_part order.reserved ≤ pos_part order.quantity
  pub unreserved : pos_part order.reserved ≡ 0 → order.reservation_id ≡ none
  pub settled :
      order.enabled ≡ true → fixed_virtual_order_is_settled float order ≡ (order.status == "filled")

module _ (float : Float) (order : VirtualMarketOrder float) where
  settle-IsNormal :
      pos_part order.quantity < i64_max
      → is_side order.side ≡ true
      → 0 < pos_part order.price_each
      → 0 < pos_part order.quantity
      → IsNormal float (settle float order)
  unfolding settle fixed_virtual_order_is_settled
  settle-IsNormal small side price quantity =
      let (low_filled, low_reserved, high) =
        fixed_reserved-bounds order.quantity order.filled order.reserved small quantity in
      let next_filled =
        if is_until order.side then pos 0 else fixed_filled order.quantity order.filled in
      let next_reserved =
        if is_until order.side
        then max_ℤ order.reserved (pos 0)
        else fixed_reserved order.quantity order.filled order.reserved in
      let low : neg_part next_reserved ≡ 0 =
        ground (arith, low_reserved, max_zero order.reserved) in
      record {
        side = side;
        price = price;
        quantity = quantity;
        reserved = low;
        filled = ground (arith, low_filled);
        amounts = λ fixed. ground (arith, fixed, high);
        unreserved = λ e. ground (arith, e);
        settled = λ enabled. ground (
          arith,
          enabled,
          status_of-settled order.side order.quantity next_filled next_reserved
              (ground (arith, low_filled)) low,
        );
      }

-- What is not refused.
accepted :
    {A : Type 0} (a b c d e f : Bool) (x y : A)
    → (if a || b || c || d || e || f then none else some x) ≡ some y
    → (x ≡ y) × (b ≡ false) × (e ≡ false) × (f ≡ false)
accepted true b c d e f x y h = cc h
accepted false true c d e f x y h = cc h
accepted false false true d e f x y h = cc h
accepted false false false true e f x y h = cc h
accepted false false false false true f x y h = cc h
accepted false false false false false true x y h = cc h
accepted false false false false false false x y h = (cc h, refl, refl, refl)

is_true : (b : Bool) → not b ≡ false → b ≡ true
is_true true h = refl
is_true false h = cc h

above_zero : (z : ℤ) → leb_ℤ z (pos 0) ≡ false → 0 < pos_part z
above_zero (pos n) h = ground (arith, h)
above_zero (negsuc n) h = ground (arith, h)

-- What `normalize_virtual_order` gives for an order whose quantity is below the largest `i64` is a
-- normal order: its side is one of the four, its price and quantity are positive, its amounts are not
-- negative, a fixed order has no more reserved and filled than its quantity, only what is reserved has a
-- reservation, and an enabled order is settled where its status is that it is filled.
pub normalize_virtual_order-IsNormal :
    (float : Float) (order normal : VirtualMarketOrder float)
    → pos_part order.quantity < i64_max
    → normalize_virtual_order float order ≡ some normal
    → IsNormal float normal
unfolding normalize_virtual_order
normalize_virtual_order-IsNormal float order normal small h =
    let o = trimmed float order in
    let (same, side, price, quantity) =
      accepted (o.id == "") (not (is_side o.side)) (o.item_id == "") (o.station_id == "")
        (leb_ℤ o.price_each (pos 0)) (leb_ℤ o.quantity (pos 0)) (settle float o) normal h in
    subst (IsNormal float) same (
      settle-IsNormal float o small (is_true (is_side o.side) side) (above_zero o.price_each price)
        (above_zero o.quantity quantity))
