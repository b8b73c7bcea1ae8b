-- ===== src/Lang/Commands.antt =====
-- The statement `<name> <arguments>;` in prayer-lang/src/parser.rs: what the closure behind `ident()`
-- makes of the name and the words. The span is given in by chumsky.
use prayer_rs.Prelude.{
  ℕ, String, Bool, true, false, not, ◌&&◌, ◌||◌, List, [], ◌∷◌, if◌then◌else◌, ◌==◌, Result, ok,
  err, ◌>>=◌, any,
}
use prayer_rs.Lang.Ast.{Span, AstNode}
use prayer_rs.Lang.Clauses.{
  positive_token, parse_buy_parts, parse_sell_parts, parse_commission_ship_parts,
}
use prayer_rs.Lang.Craft.{parse_craft_parts, parse_recycle_parts}
use prayer_rs.Lang.Transfer.{parse_transfer_parts}

abbrev pub is_to : String → Bool
is_to v = v == "to"

abbrev pub is_with : String → Bool
is_with v = v == "with"

abbrev pub command : String → List String → Span → Result String AstNode
command name args span = ok (AstNode.command (record { name = name; args = args; span = span }))

abbrev pub modify_order_shape : String
modify_order_shape = "modify_order shape is 'modify_order <order_id> at <price>'"

abbrev price_ok : Result String ℕ → Bool
price_ok (ok n) = true
price_ok (err e) = false

unfoldable pub modify_order_statement : List String → Span → Result String AstNode
unfolding positive_token
modify_order_statement (order_id ∷ at ∷ price ∷ []) span =
    if not (at == "at") || not (price_ok (positive_token price "order price"))
    then err modify_order_shape
    else command "modify_order" (order_id ∷ price ∷ []) span
modify_order_statement _ span = err modify_order_shape

-- The second word is `to`.
unfoldable pub unload_to_statement : List String → Span → Result String AstNode
unload_to_statement (passenger ∷ to ∷ target ∷ []) span =
    command "unload_passenger" (passenger ∷ target ∷ []) span
unload_to_statement _ span =
    err "unload_passenger shape is 'unload_passenger <name|all> [to <target>]'"

abbrev refuel_shape : String
refuel_shape = "refuel shape is 'refuel [quantity] [to <target>]'"

abbrev refuel_target : String
refuel_target = "refuel 'to' clause needs a target"

-- The words behind a `to` that is the third or a later word: the target must be there before the shape
-- is refused.
abbrev refuel_late : List String → Result String AstNode
refuel_late [] = err refuel_shape
refuel_late (v ∷ []) = if is_to v then err refuel_target else err refuel_shape
refuel_late (v ∷ w ∷ rest) =
    let later = refuel_late (w ∷ rest) in if is_to v then err refuel_shape else later

-- One of the words is `to`.
unfoldable pub refuel_to_statement : List String → Span → Result String AstNode
refuel_to_statement [] span = err refuel_target
refuel_to_statement (v ∷ []) span = err refuel_target
refuel_to_statement (v ∷ w ∷ []) span =
    if is_to v then command "refuel" (w ∷ []) span else err refuel_target
refuel_to_statement (v ∷ w ∷ x ∷ []) span =
    if is_to v
    then err "refuel has unknown or duplicate clauses"
    else if is_to w
    then command "refuel" (x ∷ v ∷ []) span
    else err refuel_target
refuel_to_statement (v ∷ w ∷ x ∷ y ∷ rest) span =
    if is_to v || is_to w
    then err "refuel has unknown or duplicate clauses"
    else refuel_late (x ∷ y ∷ rest)

-- One of the words is `with`: it must be the second.
unfoldable pub repair_with_statement : List String → Span → Result String AstNode
repair_with_statement (target ∷ with ∷ rest) span =
    if is_with target || not (is_with with)
    then err "remote repair shape is 'repair <target> with <item> [quantity]'"
    else elim rest [
      | item ∷ [] ↦ command "repair" (target ∷ item ∷ []) span
      | item ∷ quantity ∷ [] ↦ command "repair" (target ∷ item ∷ quantity ∷ []) span
      | _ ↦ err "repair 'with' clause needs an item and optional quantity"
    ]
repair_with_statement _ span = err "remote repair shape is 'repair <target> with <item> [quantity]'"

-- `args.get(1).is_some_and(|v| v == "to")`
abbrev pub second_is_to : List String → Bool
second_is_to (a ∷ b ∷ rest) = is_to b
second_is_to _ = false

unfoldable pub command_statement : String → List String → Span → Result String AstNode
unfolding parse_transfer_parts parse_craft_parts parse_recycle_parts parse_buy_parts
    parse_sell_parts parse_commission_ship_parts modify_order_statement unload_to_statement
    refuel_to_statement repair_with_statement
command_statement name args span =
    if name == "transfer"
    then parse_transfer_parts args span >>= (λ node. ok (AstNode.transfer node))
    else if name == "craft"
    then parse_craft_parts args span >>= (λ node. ok (AstNode.craft node))
    else if name == "recycle"
    then parse_recycle_parts args span >>= (λ node. ok (AstNode.recycle node))
    else if name == "buy"
    then parse_buy_parts args span >>= (λ node. ok (AstNode.buy node))
    else if name == "sell"
    then parse_sell_parts args span >>= (λ node. ok (AstNode.sell node))
    else if name == "commission_ship"
    then parse_commission_ship_parts args span >>= (λ node. ok (AstNode.commission_ship node))
    else if name == "modify_order"
    then modify_order_statement args span
    else if name == "unload_passenger" && second_is_to args
    then unload_to_statement args span
    else if name == "refuel" && any is_to args
    then refuel_to_statement args span
    else if name == "repair" && any is_with args
    then repair_with_statement args span
    else command name args span
