-- ===== src/Lang/RoundTrip/Trade.antt =====
-- Round trips of buy and sell statements.
use prayer_rs.Prelude.{
  ℕ, ◌≤◌, ◌<◌, String, ◌≡◌, refl, ◌⊎◌, inl, inr, Bool, true, false, Option, none, some, ◌∷◌, ◌++◌,
  ◌==◌, is_some, ok, Bool-cases, arith, eq_iff, u64_max,
}
use prayer_rs.Prelude.Decimal.{print, parse_u64, parse_u64-print}
use prayer_rs.Lang.Ast.{Span, BuyNode}
use prayer_rs.Lang.Clauses.{parse_buy_parts}
use prayer_rs.Lang.Words.{buy_words, order_words, price_words, clause_words}

-- A positive `u64`.
abbrev pub IsAmount : ℕ → Type 0
IsAmount n = (0 < n) × (n ≤ u64_max)

abbrev pub IsPrice : Option ℕ → Type 0
IsPrice none = Unit
IsPrice (some price) = IsAmount price

abbrev pub IsBuyStore : Bool → Option String → Type 0
IsBuyStore order none = Unit
IsBuyStore order (some store) =
    (order ≡ true) × ((store == "cargo") ≡ true ⊎ (store == "storage") ≡ true)

-- An order has a price, and only an order names a destination.
pub record IsBuy (buy : BuyNode) : Type 0 where
  pub amount : IsAmount buy.quantity
  pub price : IsPrice buy.max_price
  pub priced : buy.place_order ≡ true → is_some buy.max_price ≡ true
  pub store : IsBuyStore buy.place_order buy.deliver_to

-- A number's text is no word that does not read as a number.
pub print-not_word :
    (word : String) (n : ℕ) → parse_u64 word ≡ none → n ≤ u64_max → (print n == word) ≡ false
print-not_word word n e h = elim (Bool-cases (print n == word)) [
  | inl same ↦ cc ((eq_iff (print n) word).0 same, parse_u64-print n h, e)
  | inr differs ↦ differs
]

pub print-not_order : (n : ℕ) → n ≤ u64_max → (print n == "order") ≡ false
unfolding parse_u64
print-not_order n = print-not_word "order" n refl

buy_parts :
    (order : Bool) (q : ℕ) (item : String) (price : Option ℕ) (dest : Option String) (span : Span)
    → IsAmount q
    → IsPrice price
    → (order ≡ true → is_some price ≡ true)
    → IsBuyStore order dest
    → parse_buy_parts
        (order_words order ++ print q ∷ item ∷ price_words price ++ clause_words "to" dest)
        span
      ≡ ok (record {
        item_id = item;
        quantity = q;
        max_price = price;
        place_order = order;
        deliver_to = dest;
        span = span;
      })
unfolding parse_buy_parts
buy_parts true q item none dest span hq hp priced hd = cc (priced refl)
buy_parts false q item none none span hq hp priced hd =
    ground (arith, parse_u64-print q hq.1, print-not_order q hq.1)
buy_parts false q item none (some store) span hq hp priced hd = cc (hd.0)
buy_parts false q item (some p) none span hq hp priced hd =
    ground (arith, parse_u64-print q hq.1, print-not_order q hq.1, parse_u64-print p hp.1)
buy_parts false q item (some p) (some store) span hq hp priced hd = cc (hd.0)
buy_parts true q item (some p) none span hq hp priced hd =
    ground (arith, parse_u64-print q hq.1, parse_u64-print p hp.1)
buy_parts true q item (some p) (some store) span hq hp priced hd =
    ground (arith, parse_u64-print q hq.1, parse_u64-print p hp.1, hd.1)

-- The words written for a buy statement are read as that statement, where its amounts are positive
-- and fit a `u64`, an order has a price, and only an order names a store, cargo or storage.
pub parse-buy_words :
    (buy : BuyNode) → IsBuy buy → parse_buy_parts (buy_words buy) buy.span ≡ ok buy
unfolding buy_words
parse-buy_words buy v =
    buy_parts buy.place_order buy.quantity buy.item_id buy.max_price buy.deliver_to buy.span
      v.amount v.price v.priced v.store
