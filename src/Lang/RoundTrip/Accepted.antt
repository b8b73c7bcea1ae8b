-- ===== src/Lang/RoundTrip/Accepted.antt =====
-- What the parsers of buy and sell statements accept, and that it is written in words that are read
-- as the same statement.
use prayer_rs.Prelude.{
  sym, ℕ, ◌≤◌, String, ◌≡◌, refl, inl, inr, Bool, true, false, Option, none, some, List, [], ◌∷◌,
  if◌then◌else◌, is_some, ok, err, Option-cases, arith, u64_max, required, AllOk, bind-AllOk,
  AllOk-trivial,
}
use mathlib.Core.Path.{subst}
use prayer_rs.Prelude.Decimal.{print, parse_u64, parse_u64-print}
use prayer_rs.Lang.Ast.{Span, BuyNode}
use prayer_rs.Lang.Clauses.{
  parse_buy_parts, parse_clause_buy, parse_legacy_buy, buy_clauses, buy_clause, positive_token,
  optional_price, is_legacy_head, get, skip_two, legacy_price,
}
use prayer_rs.Lang.Words.{buy_words}
use prayer_rs.Lang.RoundTrip.Trade.{IsAmount, IsPrice, IsBuyStore, IsBuy, parse-buy_words}

pub parse_u64-bound : (s : String) (n : ℕ) → parse_u64 s ≡ some n → n ≤ u64_max
unfolding parse_u64
parse_u64-bound s n h = ground arith

positive_token-IsAmount : (token what : String) → AllOk IsAmount (positive_token token what)
unfolding positive_token
positive_token-IsAmount token what = elim (Option-cases (parse_u64 token)) [
  | inl e ↦ ground arith
  | inr (n, e) ↦ ground (arith, parse_u64-bound token n)
]

optional_price-IsPrice :
    (token : Option String) (what : String) → AllOk IsPrice (optional_price token what)
unfolding optional_price
optional_price-IsPrice none what = tt
optional_price-IsPrice (some token) what =
    bind-AllOk IsAmount IsPrice (positive_token token what) _ (positive_token-IsAmount token what)
      λ price h. h

-- What the clauses of a buy statement keep.
abbrev Kept : Bool → Option ℕ × Option String → Type 0
Kept order (price, dest) = IsPrice price × IsBuyStore order dest

buy_clause-Kept :
    (order : Bool) (price : Option ℕ) (dest : Option String) (clause : String)
    (value : Option String)
    → Kept order (price, dest)
    → AllOk (Kept order) (buy_clause order (price, dest) clause value)
unfolding buy_clause
buy_clause-Kept order price dest clause none (hp, hd) = ground arith
buy_clause-Kept order price dest clause (some value) (hp, hd) =
    ground (arith, positive_token-IsAmount value "buy price")

buy_clauses-Kept :
    (order : Bool) (state : Option ℕ × Option String) (parts : List String)
    → Kept order state
    → AllOk (Kept order) (buy_clauses order state parts)
unfolding buy_clauses
buy_clauses-Kept order state [] h = h
buy_clauses-Kept order (price, dest) (clause ∷ []) h =
    buy_clause-Kept order price dest clause none h
buy_clauses-Kept order (price, dest) (clause ∷ value ∷ rest) h =
    bind-AllOk (Kept order) (Kept order) (buy_clause order (price, dest) clause (some value)) _
      (buy_clause-Kept order price dest clause (some value) h)
      λ state' h'. buy_clauses-Kept order state' rest h'

-- What an accepted statement is, but that an order may have no price.
record IsRead (buy : BuyNode) (span : Span) : Type 0 where
  pub amount : IsAmount buy.quantity
  pub price : IsPrice buy.max_price
  pub store : IsBuyStore buy.place_order buy.deliver_to
  pub same : buy.span ≡ span

if-AllOk {ℓ} :
    {A : Type 0} (P : A → Type ℓ) (b : Bool) (m : String) (a : A)
    → P a
    → AllOk P (if b then err m else ok a)
if-AllOk P true m a h = tt
if-AllOk P false m a h = h

clause_buy-IsRead :
    (order : Bool) (parts : List String) (span : Span)
    → AllOk (λ buy. IsRead buy span) (parse_clause_buy order parts span)
unfolding parse_clause_buy
clause_buy-IsRead order parts span =
    bind-AllOk (λ a. Unit {0}) _ _ _ (AllOk-trivial (required (get parts 0) _))
      λ token h1. bind-AllOk IsAmount _ _ _ (positive_token-IsAmount token "buy quantity") λ q hq.
        bind-AllOk (λ a. Unit {0}) _ _ _ (AllOk-trivial (required (get parts 1) _))
          λ item h2.
            bind-AllOk (Kept order) _ _ _
              (buy_clauses-Kept order (none, none) (skip_two parts) (tt, tt))
              λ state (hp, hd).
                if-AllOk (λ buy. IsRead buy span) _ _ _
                  (record { amount = hq; price = hp; store = hd; same = refl })

legacy_buy-IsRead :
    (item : String) (parts : List String) (span : Span)
    → AllOk (λ buy. IsRead buy span) (parse_legacy_buy item parts span)
unfolding parse_legacy_buy
legacy_buy-IsRead item parts span =
    bind-AllOk (λ a. Unit {0}) _ _ _ (AllOk-trivial (required (get parts 1) _))
      λ token h1. bind-AllOk IsAmount _ _ _ (positive_token-IsAmount token "buy quantity") λ q hq.
        bind-AllOk IsPrice _ _ _ (optional_price-IsPrice (legacy_price parts) "buy price")
          λ price hp.
            if-AllOk (λ buy. IsRead buy span) _ _ _
              (record { amount = hq; price = hp; store = tt; same = refl })

buy-IsRead :
    (parts : List String) (span : Span)
    → AllOk (λ buy. IsRead buy span) (parse_buy_parts parts span)
unfolding parse_buy_parts
buy-IsRead [] span = clause_buy-IsRead false [] span
buy-IsRead (v ∷ rest) span = ground (
  arith,
  legacy_buy-IsRead v (v ∷ rest) span,
  clause_buy-IsRead true rest span,
  clause_buy-IsRead false (v ∷ rest) span,
)

read-IsBuy :
    (buy : BuyNode) (span : Span)
    → IsRead buy span
    → (buy.place_order ≡ true → is_some buy.max_price ≡ true)
    → IsBuy buy
read-IsBuy buy span r priced = record {
  amount = r.amount;
  price = r.price;
  priced = priced;
  store = r.store;
}

-- An accepted buy statement, which has a price if it is an order, is written in words that are read
-- as the same statement.
pub buy-normal :
    (parts : List String) (span : Span) (buy : BuyNode)
    → parse_buy_parts parts span ≡ ok buy
    → (buy.place_order ≡ true → is_some buy.max_price ≡ true)
    → parse_buy_parts (buy_words buy) span ≡ ok buy
buy-normal parts span buy h priced =
    let r = subst (AllOk (λ b. IsRead b span)) h (buy-IsRead parts span) in
    rw (sym (IsRead.same r)) (parse-buy_words buy (read-IsBuy buy span r priced))

-- The older form of an order that gives no price is accepted where the item is neither `order` nor a
-- number and the quantity is positive and fits, but the words written for it are refused.
pub legacy_order-refused :
    (item : String) (q : ℕ) (span : Span)
    → is_legacy_head (item ∷ []) ≡ true
    → IsAmount q
    → (buy : BuyNode) × (parse_buy_parts (item ∷ print q ∷ "order" ∷ []) span ≡ ok buy)
      × (parse_buy_parts (buy_words buy) span ≡ err "buy order requires an 'at <price>' clause")
unfolding parse_buy_parts parse_legacy_buy buy_words positive_token optional_price
legacy_order-refused item q span legacy hq = (
  record {
    item_id = item;
    quantity = q;
    max_price = none;
    place_order = true;
    deliver_to = none;
    span = span;
  },
  ground (arith, parse_u64-print q hq.1),
  ground (arith, parse_u64-print q hq.1),
)
