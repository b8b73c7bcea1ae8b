-- ===== src/Lang/Lexer.antt =====
-- `lex_transfer_parts` of prayer-lang/src/parser.rs, which splits a statement into its words, and
-- `render_arg` of prayer-lang/src/render/mod.rs, which writes a word. A text is the list of its
-- code points.
use prayer_rs.Prelude.{
  ℕ, Bool, false, ◌||◌, Option, none, some, List, [], ◌∷◌, ◌++◌, if◌then◌else◌, nat_eq, is_nil,
}
use prayer_rs.Prelude.Text.{is_whitespace}

abbrev pub Chars : Type 0
Chars = List ℕ

-- Where the loops of `lex_transfer_parts` stand: between quotes, or behind a backslash there.
pub data Mode : Type 0 where
  plain quoted escaped : Mode

-- One character: the next mode, the word so far, and the words that end here.
unfoldable pub lex_char : Mode → Chars → ℕ → Option (Mode × Chars × List Chars)
lex_char plain current c =
    if nat_eq c b'"'
    then if is_nil current then some (quoted, current, []) else none
    else if is_whitespace c
    then some (plain, [], if is_nil current then [] else current ∷ [])
    else some (plain, current ++ c ∷ [], [])
lex_char quoted current c =
    if nat_eq c b'"'
    then some (plain, [], current ∷ [])
    else if nat_eq c 92
    then some (escaped, current, [])
    else some (quoted, current ++ c ∷ [], [])
lex_char escaped current c = some (quoted, current ++ c ∷ [], [])

-- The end of the text.
unfoldable pub lex_end : Mode → Chars → Option (List Chars)
lex_end plain current = some (if is_nil current then [] else current ∷ [])
lex_end quoted current = some (current ∷ [])
lex_end escaped current = none

unfoldable pub lex : Mode → Chars → Chars → Option (List Chars)
unfolding lex_char lex_end
lex mode current [] = lex_end mode current
lex mode current (c ∷ s) = elim (lex_char mode current c) [
  | none ↦ none
  | some (mode', current', words) ↦ elim (lex mode' current' s) [
    | none ↦ none
    | some rest ↦ some (words ++ rest)
  ]
]

unfoldable pub lex_transfer_parts : Chars → Option (List Chars)
unfolding lex
lex_transfer_parts = lex plain []

-- `str::replace` of one character by a text.
unfoldable pub replace_char : ℕ → Chars → Chars → Chars
replace_char c by [] = []
replace_char c by (d ∷ s) = (if nat_eq d c then by else d ∷ []) ++ replace_char c by s

-- Whether a character makes the word one that is written between quotes.
unfoldable pub is_special : ℕ → Bool
is_special c =
    is_whitespace c
    || nat_eq c b'"'
    || nat_eq c 92
    || nat_eq c b';'
    || nat_eq c b'{'
    || nat_eq c b'}'

unfoldable pub any_special : Chars → Bool
unfolding is_special
any_special [] = false
any_special (c ∷ s) = is_special c || any_special s

unfoldable pub render_arg : Chars → Chars
unfolding any_special replace_char
render_arg arg =
    if is_nil arg || any_special arg
    then b'"' ∷ replace_char b'"' (92 ∷ b'"' ∷ []) (replace_char 92 (92 ∷ 92 ∷ []) arg) ++ b'"' ∷ []
    else arg

-- `.map(render_arg)….join(" ")`
unfoldable pub render_args : List Chars → Chars
unfolding render_arg
render_args [] = []
render_args (w ∷ []) = render_arg w
render_args (w ∷ v ∷ ws) = render_arg w ++ b' ' ∷ render_args (v ∷ ws)
