-- ===== src/Market/Tests.antt =====
-- Runs of the virtual market's orders, with priorities that are natural numbers.
use prayer_rs.Prelude.{ℕ, ◌≡◌, refl, true, false, none, some, nat_eq, arith}
use prayer_rs.Prelude.Int.{pos, i64_max, saturating_add, saturating_sub}
use prayer_rs.Prelude.Text.{trim, to_ascii_lowercase}
use prayer_rs.Market.Orders.{
  Float, VirtualMarketOrder, normalize_virtual_order, fixed_filled, fixed_reserved,
}
use prayer_rs.Market.Normal.{IsNormal, normalize_virtual_order-IsNormal}

abbrev whole : Float
whole = record { F = ℕ; is_finite = λ n. true; leb_zero = λ n. nat_eq n 0; one = 1 }

-- A sale of ten, of which four are filled and nine are said to be reserved.
abbrev raw : VirtualMarketOrder whole
raw = record {
  id = " o1 ";
  status = "available";
  side = "Sell";
  item_id = "iron";
  station_id = "hub";
  price_each = pos 3;
  quantity = pos 10;
  tipping_point = some (pos 5);
  dumping = true;
  reserved = pos 9;
  reservation_id = some "r1";
  filled = pos 4;
  enabled = true;
  internal_only = false;
  priority = 0;
  do_forever = true;
}

abbrev normal : VirtualMarketOrder whole
normal = record raw {
  id = "o1";
  status = "reserved";
  side = "sell";
  tipping_point = none;
  dumping = false;
  reserved = pos 6;
  priority = 1;
  do_forever = false;
}

raw-normal : normalize_virtual_order whole raw ≡ some normal
unfolding normalize_virtual_order trim to_ascii_lowercase saturating_add saturating_sub
raw-normal = refl

normalize_virtual_order-IsNormal_example : IsNormal whole normal
normalize_virtual_order-IsNormal_example =
    normalize_virtual_order-IsNormal whole raw normal (omega arith) raw-normal

-- At the largest quantity the sum saturates, and more is reserved and filled than there is.
too_much :
    (fixed_filled (pos i64_max) (pos 1) ≡ pos 1)
    × (fixed_reserved (pos i64_max) (pos 1) (pos i64_max) ≡ pos i64_max)
unfolding fixed_filled fixed_reserved saturating_add saturating_sub
too_much = (refl, refl)
