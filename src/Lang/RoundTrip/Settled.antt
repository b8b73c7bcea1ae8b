-- ===== src/Lang/RoundTrip/Settled.antt =====
-- What the parsers of craft and recycle statements accept, and that it is written in words that are
-- read as the same statement.
use mathlib.Core.Path.{subst}
use prayer_rs.Prelude.{
  ℕ, String, ◌≡◌, refl, sym, Option, none, some, List, [], ◌∷◌, ok, err, arith, AllOk, bind-AllOk,
  Option-cases, inl, inr, if◌then◌else◌, is_some, Result,
}
use prayer_rs.Prelude.Decimal.{parse_u64}
use prayer_rs.Lang.Ast.{Span, CraftClauses, CraftNode, RecycleNode}
use prayer_rs.Lang.Craft.{
  parse_craft_parts, parse_recycle_parts, parse_craft_store, parse_craft_clause_value, craft_clause,
  craft_clauses, craft_quantity, no_clauses, recycle_error,
}
use prayer_rs.Lang.Words.{craft_words, recycle_words}
use prayer_rs.Lang.RoundTrip.Trade.{IsAmount}
use prayer_rs.Lang.RoundTrip.Accepted.{parse_u64-bound}
use prayer_rs.Lang.RoundTrip.Craft.{
  IsStore, IsName, IsClauses, parse-craft_words, parse-recycle_words,
}

store-IsStore :
    (value : Option String) → AllOk (λ store. IsStore (some store)) (parse_craft_store value)
unfolding parse_craft_store
store-IsStore none = tt
store-IsStore (some store) = ground arith

value-IsName :
    (value : Option String) (missing : String)
    → AllOk (λ name. IsName (some name)) (parse_craft_clause_value value missing)
unfolding parse_craft_clause_value
value-IsName none missing = tt
value-IsName (some name) missing = ground arith

craft_clause-IsClauses :
    (clauses : CraftClauses) (clause : String) (value : Option String)
    → IsClauses clauses
    → AllOk IsClauses (craft_clause clauses clause value)
unfolding craft_clause
craft_clause-IsClauses clauses clause value v = ground (
  arith,
  store-IsStore value,
  value-IsName value "craft 'at' clause needs a facility id",
  value-IsName value "craft 'preset' clause needs a preset name",
)

craft_clauses-IsClauses :
    (clauses : CraftClauses) (parts : List String)
    → IsClauses clauses
    → AllOk IsClauses (craft_clauses clauses parts)
unfolding craft_clauses
craft_clauses-IsClauses clauses [] v = v
craft_clauses-IsClauses clauses (clause ∷ []) v = craft_clause-IsClauses clauses clause none v
craft_clauses-IsClauses clauses (clause ∷ value ∷ rest) v =
    bind-AllOk IsClauses IsClauses (craft_clause clauses clause (some value)) _
      (craft_clause-IsClauses clauses clause (some value) v)
      λ clauses' v'. craft_clauses-IsClauses clauses' rest v'

craft_quantity-IsAmount :
    (parts : List String)
    → AllOk (λ (read : ℕ × List String). IsAmount read.0) (craft_quantity parts)
unfolding craft_quantity
craft_quantity-IsAmount [] = (omega arith, omega arith)
craft_quantity-IsAmount (token ∷ rest) = elim (Option-cases (parse_u64 token)) [
  | inl e ↦ ground arith
  | inr (n, e) ↦ ground (arith, parse_u64-bound token n)
]

-- What an accepted craft statement is.
abbrev Settled : Span → CraftNode → Type 0
Settled span craft = IsAmount craft.quantity × IsClauses craft.clauses × (craft.span ≡ span)

craft-Settled :
    (parts : List String) (span : Span) → AllOk (Settled span) (parse_craft_parts parts span)
unfolding parse_craft_parts
craft-Settled [] span = tt
craft-Settled (recipe ∷ parts) span =
    bind-AllOk (λ (read : ℕ × List String). IsAmount read.0) _ _ _ (craft_quantity-IsAmount parts)
      λ (read : ℕ × List String) (hq : IsAmount read.0).
        bind-AllOk IsClauses (Settled span) (craft_clauses no_clauses read.1) _
          (craft_clauses-IsClauses no_clauses read.1 (
            unfold no_clauses in
            record { source = tt; deliver_to = tt; facility_id = tt; preset = tt }))
          λ clauses v. (hq, v, refl)

-- An accepted craft statement is written in words that are read as the same statement.
pub craft-normal :
    (parts : List String) (span : Span) (craft : CraftNode)
    → parse_craft_parts parts span ≡ ok craft
    → parse_craft_parts (craft_words craft) span ≡ ok craft
craft-normal parts span craft h =
    let (hq, v, same) = subst (AllOk (Settled span)) h (craft-Settled parts span) in
    rw (sym same) (parse-craft_words craft hq v)

recycle_error-Settled :
    (parts : List String) (span : Span)
    → AllOk (Settled span) (recycle_error (parse_craft_parts parts span))
recycle_error-Settled parts span = go (parse_craft_parts parts span) (craft-Settled parts span)
  where
    go :
        (r : Result String CraftNode)
        → AllOk (Settled span) r
        → AllOk (Settled span) (recycle_error r)
    go (ok craft) h = h
    go (err e) h = tt

-- What an accepted recycle statement is.
abbrev Recycled : Span → RecycleNode → Type 0
Recycled span recycle =
    IsAmount recycle.quantity
    × IsClauses recycle.clauses
    × (recycle.clauses.preset ≡ none)
    × (recycle.span ≡ span)

recycled :
    (span : Span) (craft : CraftNode) (preset : Option String)
    → craft.clauses.preset ≡ preset
    → Settled span craft
    → AllOk {E = String} (Recycled span) (
        if is_some preset
        then err "recycle does not accept a preset clause"
        else ok (record {
          recipe_id = craft.recipe_id;
          quantity = craft.quantity;
          clauses = craft.clauses;
          span = craft.span;
        }))
recycled span craft none e (hq, v, same) = (hq, v, e, same)
recycled span craft (some preset) e h = tt

recycle-Recycled :
    (parts : List String) (span : Span) → AllOk (Recycled span) (parse_recycle_parts parts span)
unfolding parse_recycle_parts
recycle-Recycled parts span =
    bind-AllOk (Settled span) (Recycled span) (recycle_error (parse_craft_parts parts span)) _
      (recycle_error-Settled parts span) λ craft h. recycled span craft craft.clauses.preset refl h

-- An accepted recycle statement is written in words that are read as the same statement.
pub recycle-normal :
    (parts : List String) (span : Span) (recycle : RecycleNode)
    → parse_recycle_parts parts span ≡ ok recycle
    → parse_recycle_parts (recycle_words recycle) span ≡ ok recycle
recycle-normal parts span recycle h =
    let (hq, v, plain, same) = subst (AllOk (Recycled span)) h (recycle-Recycled parts span) in
    rw (sym same) (parse-recycle_words recycle hq v plain)
