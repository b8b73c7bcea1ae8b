-- ===== src/Lang/Removed.antt =====
-- `removed_syntax_diagnostic` of prayer-lang/src/parser.rs, as the test whether it finds anything.
use Prim.Native.Char.{code}
use prayer_rs.Prelude.{String, Bool, true, false, not, ◌&&◌, ◌||◌, List, [], ◌∷◌, nat_eq, refl, ◌≡◌}
use prayer_rs.Prelude.Text.{starts_with}
use prayer_rs.Lang.Scanner.{contains, is_alphanumeric}

-- The closure `boundary`, at a character.
unfoldable pub is_boundary : String → Bool
unfolding is_alphanumeric
is_boundary String.[] = true
is_boundary (String.◌∷◌ c s) = not (is_alphanumeric (code c)) && not (nat_eq (code c) b'_')

-- The text starts with the token, and a boundary is behind it.
unfoldable pub starts_word : String → String → Bool
unfolding is_boundary
starts_word String.[] s = is_boundary s
starts_word (String.◌∷◌ d token) String.[] = false
starts_word (String.◌∷◌ d token) (String.◌∷◌ c s) =
    let rest = starts_word token s in nat_eq (code d) (code c) && rest

-- The token occurs with a boundary on both sides; `before` says that one is in front of the text.
unfoldable pub has_word : Bool → String → String → Bool
unfolding starts_word is_boundary
has_word before token String.[] = false
has_word before token (String.◌∷◌ c s) =
    before && starts_word token (String.◌∷◌ c s)
    || has_word (is_boundary (String.◌∷◌ c String.[])) token s

abbrev pub removed_tokens : List String
removed_tokens =
    "if" ∷ "until" ∷ "skill" ∷ "override" ∷ "combat" ∷ "targeting" ∷ "@disable" ∷ "@blacklist"
    ∷ "@no-overrides" ∷ "no_overrides" ∷ []

unfoldable pub any_word : List String → String → Bool
unfolding has_word
any_word [] text = false
any_word (token ∷ tokens) text = has_word true token text || any_word tokens text

unfoldable pub removed_syntax : String → Bool
unfolding contains any_word
removed_syntax text =
    contains text "go nearest_station"
    || contains text "go home"
    || contains text "go here"
    || contains text "$"
    || any_word removed_tokens text

removed_home : removed_syntax "go home;" ≡ true
unfolding removed_syntax starts_with
removed_home = refl

kept_word : removed_syntax "go skill_hub;" ≡ false
unfolding removed_syntax starts_with
kept_word = refl
