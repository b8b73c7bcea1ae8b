-- ===== src/Lang/Craft.antt =====
-- The parsers of a statement's words in prayer-lang/src/parser.rs for craft and recycle.
use prayer_rs.Prelude.{
  ℕ, String, Bool, ◌||◌, Option, none, some, List, [], ◌∷◌, if◌then◌else◌, ◌==◌, ltb, is_some,
  Result, ok, err, ◌>>=◌,
}
use prayer_rs.Prelude.Decimal.{parse_u64}
use prayer_rs.Prelude.Text.{replace}
use prayer_rs.Lang.Ast.{Span, CraftClauses, CraftNode, RecycleNode}

unfoldable pub is_craft_clause : String → Bool
is_craft_clause token = token == "from" || token == "to" || token == "at" || token == "preset"

abbrev pub dry_run_message : String
dry_run_message = "use craft_quote for dry-run quotes; craft statements queue jobs"

abbrev pub shape_message : String
shape_message =
    "craft statement shape is 'craft <recipe_id> [quantity] [from cargo|storage|faction] [to cargo|storage|faction] [at facility_id] [preset name]'"

unfoldable pub parse_craft_store : Option String → Result String String
parse_craft_store none = err "craft source/destination must be cargo, storage, or faction"
parse_craft_store (some store) =
    if store == "cargo" || store == "storage" || store == "faction"
    then ok store
    else err "craft source/destination must be cargo, storage, or faction"

unfoldable pub parse_craft_clause_value : Option String → String → Result String String
unfolding is_craft_clause
parse_craft_clause_value none missing = err missing
parse_craft_clause_value (some value) missing =
    if is_craft_clause value then err missing else ok value

unfoldable pub no_clauses : CraftClauses
no_clauses = record { source = none; deliver_to = none; facility_id = none; preset = none }

-- One round of the loop over the clauses, with the word behind the clause's own.
unfoldable pub craft_clause : CraftClauses → String → Option String → Result String CraftClauses
unfolding parse_craft_store parse_craft_clause_value
craft_clause clauses clause value =
    if clause == "from"
    then (if is_some clauses.source
        then err "craft statement has duplicate 'from' clause"
        else parse_craft_store value
        >>= (λ store. ok (record clauses { source = some store })))
    else if clause == "to"
    then (if is_some clauses.deliver_to
        then err "craft statement has duplicate 'to' clause"
        else parse_craft_store value
        >>= (λ store. ok (record clauses { deliver_to = some store })))
    else if clause == "at"
    then (if is_some clauses.facility_id
        then err "craft statement has duplicate 'at' clause"
        else parse_craft_clause_value value "craft 'at' clause needs a facility id"
        >>= (λ id. ok (record clauses { facility_id = some id })))
    else if clause == "preset"
    then (if is_some clauses.preset
        then err "craft statement has duplicate 'preset' clause"
        else parse_craft_clause_value value "craft 'preset' clause needs a preset name"
        >>= (λ name. ok (record clauses { preset = some name })))
    else if clause == "dry_run"
    then err dry_run_message
    else err shape_message

unfoldable pub craft_clauses : CraftClauses → List String → Result String CraftClauses
unfolding craft_clause
craft_clauses clauses [] = ok clauses
craft_clauses clauses (clause ∷ []) = craft_clause clauses clause none
craft_clauses clauses (clause ∷ value ∷ rest) = do
  clauses' ← craft_clause clauses clause (some value)
  craft_clauses clauses' rest

-- The quantity, 1 where none is written, and the words behind it.
unfoldable pub craft_quantity : List String → Result String (ℕ × List String)
unfolding is_craft_clause
craft_quantity [] = ok (1, [])
craft_quantity (token ∷ rest) =
    if is_craft_clause token
    then ok (1, token ∷ rest)
    else if token == "dry_run"
    then err dry_run_message
    else elim (parse_u64 token) [
      | none ↦ err "craft quantity must be a positive integer"
      | some parsed ↦
          if ltb 0 parsed
          then ok (parsed, rest)
          else err "craft quantity must be a positive integer"
    ]

unfoldable pub parse_craft_parts : List String → Span → Result String CraftNode
unfolding craft_quantity craft_clauses no_clauses
parse_craft_parts [] span = err "craft statement needs a recipe id"
parse_craft_parts (recipe ∷ parts) span = do
  (amount, rest) ← craft_quantity parts
  given ← craft_clauses no_clauses rest
  ok (record { recipe_id = recipe; quantity = amount; clauses = given; span = span })

-- `.map_err(|m| m.replace("craft", "recycle"))`
abbrev pub recycle_error : Result String CraftNode → Result String CraftNode
recycle_error (ok craft) = ok craft
recycle_error (err message) = err (replace "craft" "recycle" message)

unfoldable pub parse_recycle_parts : List String → Span → Result String RecycleNode
unfolding parse_craft_parts replace
parse_recycle_parts parts span = do
  craft ← recycle_error (parse_craft_parts parts span)
  if is_some craft.clauses.preset
      then err "recycle does not accept a preset clause"
      else ok (record {
        recipe_id = craft.recipe_id;
        quantity = craft.quantity;
        clauses = craft.clauses;
        span = craft.span;
      })
