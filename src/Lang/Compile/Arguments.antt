-- ===== src/Lang/Compile/Arguments.antt =====
-- The arguments of a command in prayer-lang/src/compiler.rs, and the arms of `command_action` that
-- are longer than a line.
use prayer_rs.Prelude.{
  ℕ, String, Bool, true, false, not, ◌&&◌, ◌||◌, Option, none, some, List, [], ◌∷◌, ◌++◌, is_nil,
  is_some, if◌then◌else◌, ◌==◌, Result, ok, err, required, ◌>>=◌,
}
use Prim.Native.String.{◌++◌ as ◌⊕◌}
use prayer_rs.Prelude.Decimal.{parse_u64}
use prayer_rs.Actions.{Action}
use prayer_rs.Actions.Requests.{TradeItem, TradeOfferRequest}
use prayer_rs.Lang.Clauses.{get}

pub data CompileError : Type 0 where
  invalid : String → CompileError

unfoldable pub invalid_args : String → CompileError
invalid_args name = CompileError.invalid ("invalid arguments for " ⊕ name)

-- The closure `req`.
unfoldable pub req : String → List String → ℕ → Result CompileError String
unfolding invalid_args
req name args index = required (get args index) (invalid_args name)

unfoldable pub parse_u : String → List String → ℕ → Result CompileError ℕ
unfolding invalid_args
parse_u name args index = do
  value ← required (get args index) (invalid_args name)
  required (parse_u64 value) (invalid_args name)

abbrev parse_some : String → Option String → Result CompileError (Option ℕ)
parse_some name none = ok none
parse_some name (some value) = do
  n ← required (parse_u64 value) (CompileError.invalid ("invalid arguments for " ⊕ name))
  ok (some n)

unfoldable pub parse_optional_u : String → List String → ℕ → Result CompileError (Option ℕ)
parse_optional_u name args index = parse_some name (get args index)

unfoldable pub parse_bool : String → List String → ℕ → Result CompileError Bool
unfolding invalid_args
parse_bool name args index = elim (get args index) [
  | none ↦ err (invalid_args name)
  | some v ↦
      if v == "true" then ok true else if v == "false" then ok false else err (invalid_args name)
]

abbrev pub is_one : List String → Bool
is_one (a ∷ []) = true
is_one _ = false

abbrev pub at_most_one : List String → Bool
at_most_one (a ∷ b ∷ rest) = false
at_most_one _ = true

abbrev pub unwrap_or : ℕ → Option ℕ → ℕ
unwrap_or n none = n
unwrap_or n (some m) = m

-- `args.first().map(|v| v != "off").unwrap_or(true)`
abbrev pub is_on : Option String → Bool
is_on none = true
is_on (some v) = not (v == "off")

-- `args.get(3).is_some_and(|v| v == "order")`
abbrev pub is_order_mark : Option String → Bool
is_order_mark none = false
is_order_mark (some v) = v == "order"

unfoldable pub wait_action : List String → Result CompileError Action
wait_action [] = ok (Action.wait 1)
wait_action (value ∷ rest) = elim (parse_u64 value) [
  | none ↦ err (CompileError.invalid ("wait expects a non-negative integer, got `" ⊕ value ⊕ "`"))
  | some ticks ↦ ok (Action.wait ticks)
]

unfoldable pub buy_action : String → List String → Result CompileError Action
unfolding req parse_u parse_optional_u
buy_action name args = do
  item ← req name args 0
  quantity ← parse_u name args 1
  max_price ← parse_optional_u name args 2
  ok (
      Action.buy (record {
        item = item;
        quantity = quantity;
        max_price = max_price;
        place_order = is_order_mark (get args 3);
        deliver_to = none;
      }))

unfoldable pub sell_action : String → List String → Result CompileError Action
unfolding parse_optional_u
sell_action name args = do
  quantity ← parse_optional_u name args 1
  min_price ← parse_optional_u name args 2
  ok (
      Action.sell (record {
        item = get args 0;
        quantity = quantity;
        min_price = min_price;
        place_order = is_order_mark (get args 3);
      }))

unfoldable pub use_item_action : String → List String → Result CompileError Action
unfolding req parse_optional_u
use_item_action name args = do
  item ← req name args 0
  quantity ← parse_optional_u name args 1
  ok (Action.use_item item (unwrap_or 1 quantity))

unfoldable pub repair_action : String → List String → Result CompileError Action
unfolding parse_optional_u
repair_action name args = do
  quantity ← parse_optional_u name args 2
  ok (Action.repair (record { target = get args 0; quantity = quantity; item = get args 1 }))

unfoldable pub recycle_command : String → List String → Result CompileError Action
unfolding req parse_optional_u
recycle_command name args = do
  recipe ← req name args 0
  quantity ← parse_optional_u name args 1
  ok (
      Action.recycle (record {
        recipe_id = recipe;
        quantity = unwrap_or 1 quantity;
        source = none;
        destination = none;
        facility_id = none;
      }))

-- Whether the first argument is a quantity.
abbrev pub quantity_only : List String → Bool
quantity_only [] = false
quantity_only (v ∷ rest) = is_some (parse_u64 v)

unfoldable pub refuel_action : String → List String → Result CompileError Action
unfolding parse_optional_u
refuel_action name args = do
  quantity ← parse_optional_u name args (if quantity_only args then 0 else 1)
  ok (
      Action.refuel (record {
        target = if quantity_only args then none else get args 0;
        quantity = quantity;
        item = none;
      }))

unfoldable pub craft_command : String → List String → Result CompileError Action
unfolding req parse_optional_u
craft_command name args = do
  recipe ← req name args 0
  quantity ← parse_optional_u name args 1
  ok (
      Action.craft (record {
        recipe_id = recipe;
        quantity = unwrap_or 1 quantity;
        source = none;
        destination = none;
        facility_id = none;
        preset = none;
      }))

-- A clause of credits: a side has one at most.
abbrev pub offer_credits : String → ℕ → TradeOfferRequest → Result CompileError TradeOfferRequest
offer_credits name quantity request = elim request.offer_credits [
  | none ↦ ok (record request { offer_credits = some quantity })
  | some _ ↦ err (CompileError.invalid ("invalid arguments for " ⊕ name))
]

abbrev pub request_credits : String → ℕ → TradeOfferRequest → Result CompileError TradeOfferRequest
request_credits name quantity request = elim request.request_credits [
  | none ↦ ok (record request { request_credits = some quantity })
  | some _ ↦ err (CompileError.invalid ("invalid arguments for " ⊕ name))
]

abbrev pub push_item : String → TradeItem → TradeOfferRequest → TradeOfferRequest
push_item side entry request =
    if side == "offer"
    then record request { offer_items = request.offer_items ++ entry ∷ [] }
    else record request { request_items = request.request_items ++ entry ∷ [] }

abbrev is_credits : Option String → Bool
is_credits none = false
is_credits (some v) = v == "credits"

-- One round of the loop: a side and the two words behind it, where they are there.
unfoldable pub trade_clause :
    String
    → TradeOfferRequest
    → String
    → Option String
    → Option String
    → Result CompileError TradeOfferRequest
unfolding invalid_args
trade_clause name request side first second =
    if not (side == "offer" || side == "request")
    then err (invalid_args name)
    else if is_credits first
    then (do
      value ← required second (invalid_args name)
      quantity ← required (parse_u64 value) (invalid_args name)
      if side == "offer"
          then offer_credits name quantity request
          else request_credits name quantity request)
    else (do
      value ← required first (invalid_args name)
      quantity ← required (parse_u64 value) (invalid_args name)
      item ← required second (invalid_args name)
      ok (push_item side (record { item = item; quantity = quantity }) request))

unfoldable pub trade_clauses :
    String → TradeOfferRequest → List String → Result CompileError TradeOfferRequest
unfolding trade_clause
trade_clauses name request [] = ok request
trade_clauses name request (side ∷ []) = trade_clause name request side none none
trade_clauses name request (side ∷ first ∷ []) = trade_clause name request side (some first) none
trade_clauses name request (side ∷ first ∷ second ∷ rest) = do
  request' ← trade_clause name request side (some first) (some second)
  trade_clauses name request' rest

-- Whether nothing is offered or requested.
abbrev pub is_empty_offer : TradeOfferRequest → Bool
is_empty_offer request =
    is_nil request.offer_items
    && not (is_some request.offer_credits)
    && is_nil request.request_items
    && not (is_some request.request_credits)

unfoldable pub empty_offer : String → TradeOfferRequest
empty_offer target = record {
  target = target;
  offer_items = [];
  offer_credits = none;
  request_items = [];
  request_credits = none;
}

unfoldable pub trade_offer_action : String → List String → Result CompileError Action
unfolding trade_clauses empty_offer invalid_args
trade_offer_action name [] = err (invalid_args name)
trade_offer_action name (target ∷ []) =
    ok (Action.trade_offer (record (empty_offer target) { offer_credits = some 1 }))
trade_offer_action name (target ∷ side ∷ rest) = do
  request ← trade_clauses name (empty_offer target) (side ∷ rest)
  if is_empty_offer request then err (invalid_args name) else ok (Action.trade_offer request)
