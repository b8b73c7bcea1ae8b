-- ===== src/Lang/Clauses.antt =====
-- The parsers of a statement's words in prayer-lang/src/parser.rs for buy, sell and
-- commission_ship. `parts` from `idx` on is the list of the words left.
use prayer_rs.Prelude.{
  ℕ, String, Bool, true, false, not, ◌&&◌, ◌||◌, Option, none, some, List, [], ◌∷◌, zero, suc,
  if◌then◌else◌, ◌==◌, ltb, is_some, Result, ok, err, required, ◌>>=◌, any,
}
use Prim.Native.String.{◌++◌ as ◌⊕◌}
use prayer_rs.Prelude.{length}
use prayer_rs.Prelude.Decimal.{parse_u64}
use prayer_rs.Lang.Ast.{Span, BuyNode, SellNode, CommissionShipNode}

abbrev pub is_number : String → Bool
is_number token = is_some (parse_u64 token)

unfoldable pub positive_token : String → String → Result String ℕ
positive_token value what = elim (parse_u64 value) [
  | none ↦ err (what ⊕ " must be a positive integer")
  | some v ↦ if ltb 0 v then ok v else err (what ⊕ " must be a positive integer")
]

-- `.map(|v| positive_token(v, what)).transpose()`
unfoldable pub optional_price : Option String → String → Result String (Option ℕ)
unfolding positive_token
optional_price none what = ok none
optional_price (some token) what = do price ← positive_token token what; ok (some price)

-- The first words in front of the older form of `buy` and `sell`.
abbrev pub is_legacy_head : List String → Bool
is_legacy_head [] = false
is_legacy_head (v ∷ rest) = not (v == "order") && not (is_number v)

abbrev pub get : List String → ℕ → Option String
get [] n = none
get (v ∷ rest) zero = some v
get (v ∷ rest) (suc n) = get rest n

abbrev pub skip_two : List String → List String
skip_two [] = []
skip_two (a ∷ []) = []
skip_two (a ∷ b ∷ rest) = rest

abbrev pub is_order : String → Bool
is_order v = v == "order"

abbrev pub is_stray : String → Bool
is_stray v = not (v == "order") && not (is_number v)

-- `parts.get(2).filter(|v| v.as_str() != "order")`
abbrev pub legacy_price : List String → Option String
legacy_price parts = elim (get parts 2) [
  | none ↦ none
  | some v ↦ if v == "order" then none else some v
]

-- `buy <item> <quantity> [price] [order]`
unfoldable pub parse_legacy_buy : String → List String → Span → Result String BuyNode
unfolding positive_token optional_price
parse_legacy_buy item parts span = do
  token ← required (get parts 1) "buy statement needs a quantity"
  amount ← positive_token token "buy quantity"
  price ← optional_price (legacy_price parts) "buy price"
  if ltb 4 (length parts) || any is_stray (skip_two parts)
      then err "legacy buy shape is 'buy <item> <quantity> [price] [order]'"
      else ok (record {
        item_id = item;
        quantity = amount;
        max_price = price;
        place_order = any is_order (skip_two parts);
        deliver_to = none;
        span = span;
      })

-- One round of the loop over the clauses: the price and the destination so far, the clause's word
-- and the word behind it.
abbrev pub at_price : Option String → String → String → Result String ℕ
at_price value missing what = do token ← required value missing; positive_token token what

abbrev pub buy_destination : Option String → Result String String
buy_destination value = do
  token ← required value "buy 'to' clause needs cargo or storage"
  if token == "cargo" || token == "storage"
      then ok token
      else err "buy order destination must be cargo or storage"

unfoldable pub buy_clause :
    Bool
    → Option ℕ × Option String
    → String
    → Option String
    → Result String (Option ℕ × Option String)
unfolding positive_token
buy_clause order (price, dest) clause value =
    if clause == "at" && not (is_some price)
    then at_price value "buy 'at' clause needs a price" "buy price"
      >>= (λ amount. ok (some amount, dest))
    else if clause == "at"
    then err "buy statement has duplicate 'at' clause"
    else if clause == "to" && not (is_some dest) && order
    then buy_destination value >>= (λ store. ok (price, some store))
    else if clause == "to" && not order
    then err "only buy orders accept a 'to' clause"
    else if clause == "to"
    then err "buy statement has duplicate 'to' clause"
    else err ("unknown buy clause '" ⊕ clause ⊕ "'; expected 'at' or 'to'")

unfoldable pub buy_clauses :
    Bool → Option ℕ × Option String → List String → Result String (Option ℕ × Option String)
unfolding buy_clause
buy_clauses order state [] = ok state
buy_clauses order state (clause ∷ []) = buy_clause order state clause none
buy_clauses order state (clause ∷ value ∷ rest) = do
  state' ← buy_clause order state clause (some value)
  buy_clauses order state' rest

-- `buy [order] <quantity> <item>` and the clauses.
unfoldable pub parse_clause_buy : Bool → List String → Span → Result String BuyNode
unfolding positive_token buy_clauses
parse_clause_buy order parts span = do
  token ← required (get parts 0) "buy statement needs a quantity"
  amount ← positive_token token "buy quantity"
  item ← required (get parts 1) "buy statement needs an item id"
  (price, dest) ← buy_clauses order (none, none) (skip_two parts)
  if order && not (is_some price)
      then err "buy order requires an 'at <price>' clause"
      else ok (record {
        item_id = item;
        quantity = amount;
        max_price = price;
        place_order = order;
        deliver_to = dest;
        span = span;
      })

unfoldable pub parse_buy_parts : List String → Span → Result String BuyNode
unfolding parse_legacy_buy parse_clause_buy
parse_buy_parts [] span = parse_clause_buy false [] span
parse_buy_parts (v ∷ rest) span =
    if is_legacy_head (v ∷ rest)
    then parse_legacy_buy v (v ∷ rest) span
    else if v == "order"
    then parse_clause_buy true rest span
    else parse_clause_buy false (v ∷ rest) span

-- `sell <item> [quantity] [price] [order]`
unfoldable pub parse_legacy_sell : String → String → List String → Span → Result String SellNode
unfolding positive_token optional_price
parse_legacy_sell item token parts span = do
  amount ← positive_token token "sell quantity"
  price ← optional_price (legacy_price parts) "sell price"
  ok (record {
    item_id = some item;
    quantity = some amount;
    min_price = price;
    place_order = any is_order (skip_two parts);
    span = span;
  })

-- One round of the loop over the clauses.
unfoldable pub sell_clause : Option ℕ → String → Option String → Result String (Option ℕ)
unfolding positive_token
sell_clause price clause value =
    if clause == "at" && not (is_some price)
    then at_price value "sell 'at' clause needs a price" "sell price"
      >>= (λ amount. ok (some amount))
    else if clause == "at"
    then err "sell statement has duplicate 'at' clause"
    else err ("unknown sell clause '" ⊕ clause ⊕ "'; expected 'at'")

unfoldable pub sell_clauses : Option ℕ → List String → Result String (Option ℕ)
unfolding sell_clause
sell_clauses price [] = ok price
sell_clauses price (clause ∷ []) = sell_clause price clause none
sell_clauses price (clause ∷ value ∷ rest) = do
  price' ← sell_clause price clause (some value)
  sell_clauses price' rest

-- What the clauses follow: `<quantity> <item>`, or `<item>` alone.
unfoldable pub sell_subject : List String → Result String (Option ℕ × String × List String)
unfolding positive_token
sell_subject [] = err "sell statement needs an item id"
sell_subject (v ∷ rest) =
    if is_number v
    then (do
      amount ← positive_token v "sell quantity"
      item ← required (get rest 0) "sell statement needs an item id"
      ok (some amount, item, skip_two (v ∷ rest)))
    else ok (none, v, rest)

unfoldable pub parse_clause_sell : Bool → List String → Span → Result String SellNode
unfolding sell_subject sell_clauses
parse_clause_sell order parts span = do
  (amount, item, rest) ← sell_subject parts
  price ← sell_clauses none rest
  if order && not (is_some amount)
      then err "sell order requires a quantity"
      else if order && not (is_some price)
      then err "sell order requires an 'at <price>' clause"
      else ok (record {
        item_id = some item;
        quantity = amount;
        min_price = price;
        place_order = order;
        span = span;
      })

abbrev pub clause_sell : String → List String → Span → Result String SellNode
clause_sell v rest span =
    if v == "order"
    then parse_clause_sell true rest span
    else parse_clause_sell false (v ∷ rest) span

unfoldable pub parse_sell_parts : List String → Span → Result String SellNode
unfolding parse_legacy_sell parse_clause_sell
parse_sell_parts [] span =
    ok (record {
      item_id = none;
      quantity = none;
      min_price = none;
      place_order = false;
      span = span;
    })
parse_sell_parts (v ∷ []) span = clause_sell v [] span
parse_sell_parts (v ∷ w ∷ rest) span =
    if is_legacy_head (v ∷ w ∷ rest) && is_number w
    then parse_legacy_sell v w (v ∷ w ∷ rest) span
    else clause_sell v (w ∷ rest) span

unfoldable pub parse_commission_ship_parts : List String → Span → Result String CommissionShipNode
parse_commission_ship_parts [] span = err "commission_ship needs a ship class"
parse_commission_ship_parts (class ∷ []) span =
    ok (record { ship_class = class; provide_materials = false; span = span })
parse_commission_ship_parts (class ∷ with ∷ []) span =
    err "commission_ship shape is 'commission_ship <class> [with materials]'"
parse_commission_ship_parts (class ∷ with ∷ materials ∷ []) span =
    if with == "with" && materials == "materials"
    then ok (record { ship_class = class; provide_materials = true; span = span })
    else err "commission_ship shape is 'commission_ship <class> [with materials]'"
parse_commission_ship_parts (class ∷ with ∷ materials ∷ more ∷ rest) span =
    err "commission_ship shape is 'commission_ship <class> [with materials]'"
