-- ===== src/Prelude/Text.antt =====
-- Texts by their characters: `trim`, and the tests on both ends.
use Prim.Native.Nat.{ℕ, zero, suc, ◌-◌}
use Prim.Native.Char.{Char, code}
use Prim.Native.String.{String, ◌++◌ as ◌⊕◌}
use mathlib.Core.Path.{◌≡◌, refl}
use mathlib.Core.Bool.{Bool, true, false, ◌&&◌, ◌||◌}
use prayer_rs.Prelude.Tests.{if◌then◌else◌, nat_eq, leb, ◌==◌}

-- `char::is_whitespace`
unfoldable pub is_whitespace : ℕ → Bool
is_whitespace c =
    leb 9 c && leb c 13
    || nat_eq c 32
    || nat_eq c 0x85
    || nat_eq c 0xa0
    || nat_eq c 0x1680
    || leb 0x2000 c && leb c 0x200a
    || nat_eq c 0x2028
    || nat_eq c 0x2029
    || nat_eq c 0x202f
    || nat_eq c 0x205f
    || nat_eq c 0x3000

unfoldable pub trim_start : String → String
unfolding is_whitespace
trim_start String.[] = String.[]
trim_start (String.◌∷◌ c s) = if is_whitespace (code c) then trim_start s else String.◌∷◌ c s

-- A character before a trimmed rest.
abbrev cons_trimmed : Char → String → String
cons_trimmed c String.[] = if is_whitespace (code c) then String.[] else String.◌∷◌ c String.[]
cons_trimmed c (String.◌∷◌ d s) = String.◌∷◌ c (String.◌∷◌ d s)

unfoldable pub trim_end : String → String
unfolding is_whitespace
trim_end String.[] = String.[]
trim_end (String.◌∷◌ c s) = cons_trimmed c (trim_end s)

-- `str::trim`
unfoldable pub trim : String → String
unfolding trim_start trim_end
trim s = trim_end (trim_start s)

-- `str::is_empty`
abbrev pub is_empty : String → Bool
is_empty String.[] = true
is_empty (String.◌∷◌ c s) = false

-- `str::ends_with`
unfoldable pub ends_with : String → String → Bool
ends_with String.[] t = String.[] == t
ends_with (String.◌∷◌ c s) t = String.◌∷◌ c s == t || ends_with s t

trim_spaces : trim "  ab c " ≡ "ab c"
unfolding trim
trim_spaces = refl

-- `str::starts_with`
unfoldable pub starts_with : String → String → Bool
starts_with s String.[] = true
starts_with String.[] (String.◌∷◌ d t) = false
starts_with (String.◌∷◌ c s) (String.◌∷◌ d t) = nat_eq (code c) (code d) && starts_with s t

abbrev text_length : String → ℕ
text_length String.[] = 0
text_length (String.◌∷◌ c s) = suc (text_length s)

abbrev tail_length : String → ℕ
tail_length String.[] = 0
tail_length (String.◌∷◌ c s) = text_length s

-- `str::replace` of a text that is not empty; the number counts the characters of a replaced text
-- that are still to be passed over.
unfoldable pub replace_from : String → String → ℕ → String → String
unfolding starts_with
replace_from pat by skip String.[] = String.[]
replace_from pat by (suc skip) (String.◌∷◌ c s) = replace_from pat by skip s
replace_from pat by zero (String.◌∷◌ c s) = elim (starts_with (String.◌∷◌ c s) pat) [
  | true ↦ by ⊕ replace_from pat by (tail_length pat) s
  | false ↦ String.◌∷◌ c (replace_from pat by zero s)
]

unfoldable pub replace : String → String → String → String
unfolding replace_from
replace pat by s = replace_from pat by zero s

replace_craft :
    replace "craft" "recycle" "use craft_quote; craft it" ≡ "use recycle_quote; recycle it"
unfolding replace
replace_craft = refl

-- The character at a place of a text, or else another one.
abbrev char_at : String → ℕ → Char → Char
char_at String.[] n d = d
char_at (String.◌∷◌ c s) zero d = c
char_at (String.◌∷◌ c s) (suc n) d = char_at s n d

unfoldable pub lower_char : Char → Char
lower_char c =
    if leb b'A' (code c) && leb (code c) b'Z'
    then char_at "abcdefghijklmnopqrstuvwxyz" (code c - b'A') c
    else c

-- `str::to_ascii_lowercase`
unfoldable pub to_ascii_lowercase : String → String
unfolding lower_char
to_ascii_lowercase String.[] = String.[]
to_ascii_lowercase (String.◌∷◌ c s) = String.◌∷◌ (lower_char c) (to_ascii_lowercase s)

lower_tests : to_ascii_lowercase "Go_HOME-9Z" ≡ "go_home-9z"
unfolding to_ascii_lowercase
lower_tests = refl
