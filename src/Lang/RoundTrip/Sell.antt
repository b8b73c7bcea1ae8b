-- ===== src/Lang/RoundTrip/Sell.antt =====
-- Round trips of sell statements.
use prayer_rs.Prelude.{
  ℕ, String, ◌≡◌, refl, Bool, true, false, Option, none, some, ◌++◌, ◌==◌, is_some, ok, arith,
}
use prayer_rs.Prelude.Decimal.{parse_u64, parse_u64-print}
use prayer_rs.Lang.Ast.{Span, SellNode}
use prayer_rs.Lang.Clauses.{parse_sell_parts, is_number}
use prayer_rs.Lang.Words.{sell_words, order_words, price_words, quantity_words, item_words}
use prayer_rs.Lang.RoundTrip.Trade.{IsAmount, IsPrice, print-not_order}

-- The item, with the quantity, the price and the order mark that may stand with it: without a
-- quantity the item is no number and not `order`, and nothing is ordered; with no item there is
-- nothing else.
abbrev pub IsSellOf : Option String → Option ℕ → Option ℕ → Bool → Type 0
IsSellOf none quantity price order = (quantity ≡ none) × (price ≡ none) × (order ≡ false)
IsSellOf (some item) none price order =
    (is_number item ≡ false) × ((item == "order") ≡ false) × (order ≡ false)
IsSellOf (some item) (some quantity) price order =
    IsAmount quantity × (order ≡ true → is_some price ≡ true)

pub record IsSell (sell : SellNode) : Type 0 where
  pub parts : IsSellOf sell.item_id sell.quantity sell.min_price sell.place_order
  pub price : IsPrice sell.min_price

sell_parts :
    (order : Bool) (q : Option ℕ) (item : Option String) (price : Option ℕ) (span : Span)
    → IsSellOf item q price order
    → IsPrice price
    → parse_sell_parts
        (order_words order ++ (quantity_words q ++ (item_words item ++ price_words price)))
        span
      ≡ ok (record {
        item_id = item;
        quantity = q;
        min_price = price;
        place_order = order;
        span = span;
      })
unfolding parse_sell_parts parse_u64
sell_parts true q none price span h hp = cc (h.2)
sell_parts false none none none span h hp = refl
sell_parts false (some q) none price span h hp = cc (h.0)
sell_parts false none none (some p) span h hp = cc (h.1)
sell_parts true none (some item) price span h hp = cc (h.2)
sell_parts false none (some item) none span h hp = ground arith
sell_parts false none (some item) (some p) span h hp = ground (arith, parse_u64-print p hp.1)
sell_parts false (some q) (some item) none span h hp =
    ground (arith, parse_u64-print q h.0.1, print-not_order q h.0.1)
sell_parts false (some q) (some item) (some p) span h hp =
    ground (arith, parse_u64-print q h.0.1, print-not_order q h.0.1, parse_u64-print p hp.1)
sell_parts true (some q) (some item) none span h hp = cc (h.1 refl)
sell_parts true (some q) (some item) (some p) span h hp =
    ground (arith, parse_u64-print q h.0.1, parse_u64-print p hp.1)

-- The words written for a sell statement are read as that statement, where its amounts are positive
-- and fit a `u64`, an order has a quantity and a price, an item without a quantity is no number and
-- not `order`, and a statement with no item has nothing else.
pub parse-sell_words :
    (sell : SellNode) → IsSell sell → parse_sell_parts (sell_words sell) sell.span ≡ ok sell
unfolding sell_words
parse-sell_words sell v =
    sell_parts sell.place_order sell.quantity sell.item_id sell.min_price sell.span v.parts v.price
