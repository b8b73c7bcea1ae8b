-- ===== src/Lang/Analysis/Resolve.antt =====
-- How prayer-lang/src/analyzer.rs finds the identifier that a word means.
use prayer_rs.Prelude.{
  ℕ, zero, suc, ◌+◌, String, Bool, Option, none, some, List, [], ◌∷◌, ◌++◌, if◌then◌else◌, ◌==◌,
  nat_eq, ltb, leb, any,
}
use Prim.Native.Char.{Char, code, len_utf8}
use Prim.Native.String.{◌++◌ as ◌⊕◌}
use prayer_rs.Prelude.Text.{trim, to_ascii_lowercase}
use prayer_rs.Lang.Analysis.Nodes.{ArgType, AnalysisObservation}

-- `.replace([' ', '-'], "_")`
unfoldable pub underscores : String → String
underscores String.[] = String.[]
underscores (String.◌∷◌ c s) =
    let rest = underscores s in
    if nat_eq (code c) b' '
    then String.◌∷◌ "_" rest
    else if nat_eq (code c) b'-'
    then String.◌∷◌ "_" rest
    else String.◌∷◌ c rest

unfoldable pub normalize_token : String → String
unfolding underscores trim to_ascii_lowercase
normalize_token value = trim (underscores (to_ascii_lowercase value))

-- `str::len`, in bytes.
unfoldable pub byte_length : String → ℕ
byte_length String.[] = 0
byte_length (String.◌∷◌ c s) = len_utf8 c + byte_length s

-- Reading and writing a vector by an index.
abbrev pub at_index : List ℕ → ℕ → ℕ
at_index [] n = 0
at_index (x ∷ xs) zero = x
at_index (x ∷ xs) (suc n) = at_index xs n

abbrev pub set_index : List ℕ → ℕ → ℕ → List ℕ
set_index [] n y = []
set_index (x ∷ xs) zero y = y ∷ xs
set_index (x ∷ xs) (suc n) y = x ∷ set_index xs n y

abbrev pub min_ℕ : ℕ → ℕ → ℕ
min_ℕ a b = if leb a b then a else b

-- `(0..=n).collect()`, from a first number on.
abbrev pub count_up : ℕ → ℕ → List ℕ
count_up first zero = first ∷ []
count_up first (suc n) = first ∷ count_up (suc first) n

abbrev pub zeros : ℕ → List ℕ
zeros zero = []
zeros (suc n) = 0 ∷ zeros n

-- The inner loop over the characters of `b`, from the column `j` on.
unfoldable pub levenshtein_row : Char → ℕ → String → List ℕ → List ℕ → List ℕ
levenshtein_row ca j String.[] prev curr = curr
levenshtein_row ca j (String.◌∷◌ cb b) prev curr =
    let cost = if nat_eq (code ca) (code cb) then 0 else 1 in
    levenshtein_row ca (suc j) b prev (
      set_index curr (suc j)
        (min_ℕ (min_ℕ (at_index curr j + 1) (at_index prev (suc j) + 1)) (at_index prev j + cost)))

-- The outer loop, from the row `i` on; the two rows are swapped after each round.
unfoldable pub levenshtein_rows : ℕ → String → String → List ℕ → List ℕ → List ℕ
unfolding levenshtein_row
levenshtein_rows i String.[] b prev curr = prev
levenshtein_rows i (String.◌∷◌ ca a) b prev curr =
    levenshtein_rows (suc i) a b (levenshtein_row ca 0 b prev (set_index curr 0 (suc i))) prev

unfoldable pub levenshtein : String → String → ℕ
unfolding levenshtein_rows byte_length
levenshtein a b =
    at_index (levenshtein_rows 0 a b (count_up 0 (byte_length b)) (zeros (suc (byte_length b))))
      (byte_length b)

-- Whether a normalized identifier is among those that were seen.
abbrev is_seen : String → List String → Bool
is_seen key seen = any (λ k. k == key) seen

-- The loop of `dedupe`, behind what was seen.
unfoldable pub dedupe_from : List String → List String → List String
unfolding normalize_token
dedupe_from seen [] = []
dedupe_from seen (value ∷ values) =
    let key = normalize_token value in
    let rest = dedupe_from (key ∷ seen) values in if is_seen key seen then rest else value ∷ rest

unfoldable pub dedupe : List String → List String
unfolding dedupe_from
dedupe values = dedupe_from [] values

unfoldable pub find_exact : String → List String → Option String
unfolding normalize_token
find_exact wanted [] = none
find_exact wanted (c ∷ cs) = if normalize_token c == wanted then some c else find_exact wanted cs

-- `min_by_key` of the distance: the first of those that are nearest, from a best one on.
unfoldable pub nearest_from : String → String → ℕ → List String → String
unfolding normalize_token levenshtein
nearest_from wanted best dist [] = best
nearest_from wanted best dist (c ∷ cs) =
    let d = levenshtein wanted (normalize_token c) in
    nearest_from wanted (if ltb d dist then c else best) (if ltb d dist then d else dist) cs

unfoldable pub candidates : ArgType → AnalysisObservation → Option (List String)
unfolding dedupe
candidates ArgType.item_id state = some (dedupe state.item_ids)
candidates ArgType.poi_id state = some (dedupe state.poi_ids)
candidates ArgType.system_id state = some (dedupe state.system_ids)
candidates ArgType.go_target state = some (dedupe (state.system_ids ++ state.poi_ids))
candidates ArgType.mission_id state = some (dedupe state.mission_ids)
candidates ArgType.ship_id state = some (dedupe state.ship_ids)
candidates ArgType.module_id state = some (dedupe state.module_ids)
candidates ArgType.recipe_id state = some (dedupe state.recipe_ids)
candidates ArgType.listing_id state = some (dedupe state.listing_ids)
candidates _ state = none

-- The identifier, a suggestion and a message, as the source returns them.
abbrev pub Resolution : Type 0
Resolution = String × Option String × Option String

unfoldable pub resolve_among : String → List String → Option Resolution
unfolding find_exact nearest_from normalize_token levenshtein
resolve_among arg [] = none
resolve_among arg (c ∷ cs) = elim (find_exact (normalize_token arg) (c ∷ cs)) [
  | some exact ↦ some (exact, none, none)
  | none ↦
      let best =
        nearest_from (normalize_token arg) c (levenshtein (normalize_token arg) (normalize_token c))
          cs in
      some (arg, some best, some ("unknown identifier '" ⊕ arg ⊕ "', did you mean '" ⊕ best ⊕ "'?"))
]

unfoldable pub resolve_identity : ArgType → String → AnalysisObservation → Option Resolution
unfolding candidates resolve_among
resolve_identity kind arg state = elim (candidates kind state) [
  | none ↦ none
  | some found ↦ resolve_among arg found
]
