-- ===== src/Lang/Scanner.antt =====
-- A statement as text: `arg` and `statement` of prayer-lang/src/action_projection.rs write it, and the
-- parsers of prayer-lang/src/parser.rs take it apart: `removed_syntax_diagnostic`, `ident`, `arg_token`
-- and the alternative `command` of `statement_parser`. The combinators of that alternative need no
-- step back, so they are a loop over the characters.
use Prim.Native.Char.{Char, code}
use prayer_rs.Prelude.{
  ℕ, String, Bool, false, ◌&&◌, ◌||◌, Option, none, some, List, [], ◌∷◌, ◌++◌, if◌then◌else◌,
  nat_eq, leb,
}
use prayer_rs.Prelude.Text.{is_whitespace, is_empty, starts_with}

abbrev pub put : String → String → String
put String.[] t = t
put (String.◌∷◌ c s) t = String.◌∷◌ c (put s t)

-- `str::contains`
unfoldable pub contains : String → String → Bool
contains String.[] t = starts_with String.[] t
contains (String.◌∷◌ c s) t = starts_with (String.◌∷◌ c s) t || contains s t

-- `str::replace` of one character by a text.
unfoldable pub replace_char_by : ℕ → String → String → String
replace_char_by c by String.[] = String.[]
replace_char_by c by (String.◌∷◌ d s) =
    put (if nat_eq (code d) c then by else String.◌∷◌ d String.[]) (replace_char_by c by s)

unfoldable pub needs_quotes : ℕ → Bool
needs_quotes c =
    is_whitespace c
    || nat_eq c b'"'
    || nat_eq c 92
    || nat_eq c b';'
    || nat_eq c b'{'
    || nat_eq c b'}'
    || nat_eq c b'#'

unfoldable pub any_needs_quotes : String → Bool
unfolding needs_quotes
any_needs_quotes String.[] = false
any_needs_quotes (String.◌∷◌ c s) = needs_quotes (code c) || any_needs_quotes s

unfoldable pub requires_quotes : String → Bool
unfolding any_needs_quotes contains
requires_quotes value = is_empty value || any_needs_quotes value || contains value "//"

unfoldable pub arg : String → String
unfolding requires_quotes replace_char_by
arg value =
    if requires_quotes value
    then String.◌∷◌ "\"" (put (replace_char_by b'"' "\\\"" (replace_char_by 92 "\\\\" value)) "\"")
    else value

-- The words behind the keyword, and the end of the statement.
unfoldable pub show_args : List String → String
unfolding arg
show_args [] = ";"
show_args (value ∷ values) = String.◌∷◌ " " (put (arg value) (show_args values))

unfoldable pub show_line : String → List String → String
unfolding show_args
show_line name values = put name (show_args values)

-- What `one_of` in `ws` takes.
unfoldable pub is_ws : ℕ → Bool
is_ws c = nat_eq c 32 || nat_eq c 9 || nat_eq c 13 || nat_eq c 10

-- `char::is_ascii_alphabetic` and `char::is_ascii_alphanumeric`
unfoldable pub is_letter : ℕ → Bool
is_letter c = leb b'a' c && leb c b'z' || leb b'A' c && leb c b'Z'

unfoldable pub is_alphanumeric : ℕ → Bool
unfolding is_letter
is_alphanumeric c = is_letter c || leb b'0' c && leb c b'9'

-- The first character of a plain token, and any other one. A token behind a `$` is none:
-- `removed_syntax` refuses the text before.
unfoldable pub is_token_start : ℕ → Bool
unfolding is_alphanumeric
is_token_start c = is_alphanumeric c || nat_eq c b'_'

unfoldable pub is_token_char : ℕ → Bool
unfolding is_token_start
is_token_char c = is_token_start c || nat_eq c b'-'

-- Where the scanner stands: between two arguments, in a plain one, in a quoted one, or behind a
-- backslash there.
pub data ScanMode : Type 0 where
  between plain quoted escaped : ScanMode

-- The first character of an argument, or a blank in front of it.
unfoldable pub start_arg : List String → Char → Option (ScanMode × String × List String)
unfolding is_ws is_token_start
start_arg ended c =
    if is_ws (code c)
    then some (between, "", ended)
    else if nat_eq (code c) b'"'
    then some (quoted, "", ended)
    else if is_token_start (code c)
    then some (plain, String.◌∷◌ c String.[], ended)
    else none

-- One character: the next mode, the argument so far, and the arguments that end here.
unfoldable pub scan_char : ScanMode → String → Char → Option (ScanMode × String × List String)
unfolding start_arg is_token_char
scan_char between current c = start_arg [] c
scan_char plain current c =
    if is_token_char (code c)
    then some (plain, put current (String.◌∷◌ c String.[]), [])
    else start_arg (current ∷ []) c
scan_char quoted current c =
    if nat_eq (code c) b'"'
    then some (between, "", current ∷ [])
    else if nat_eq (code c) 92
    then some (escaped, current, [])
    else some (quoted, put current (String.◌∷◌ c String.[]), [])
scan_char escaped current c = some (quoted, put current (String.◌∷◌ c String.[]), [])

-- The arguments at a `;`, where it is not between quotes.
unfoldable pub scan_end : ScanMode → String → Char → Option (List String)
scan_end between current c = if nat_eq (code c) b';' then some [] else none
scan_end plain current c = if nat_eq (code c) b';' then some (current ∷ []) else none
scan_end _ current c = none

abbrev pub more_args : List String → Option (List String × String) → Option (List String × String)
more_args ended none = none
more_args ended (some (values, behind)) = some (ended ++ values, behind)

-- The arguments up to the `;` of the statement, and the text behind it.
unfoldable pub scan_args : ScanMode → String → String → Option (List String × String)
unfolding scan_char scan_end
scan_args mode current String.[] = none
scan_args mode current (String.◌∷◌ c s) = elim (scan_end mode current c) [
  | some values ↦ some (values, s)
  | none ↦ elim (scan_char mode current c) [
    | none ↦ none
    | some (mode', current', ended) ↦ more_args ended (scan_args mode' current' s)
  ]
]

-- The longest text of token characters in front, and the text behind it.
unfoldable pub take_token : String → String × String
unfolding is_token_char
take_token String.[] = (String.[], String.[])
take_token (String.◌∷◌ c s) =
    let (token, behind) = take_token s in
    if is_token_char (code c) then (String.◌∷◌ c token, behind) else (String.[], String.◌∷◌ c s)

-- `ident` takes such a text if it starts with a letter or a `_`.
unfoldable pub is_name_start : String → Bool
unfolding is_letter
is_name_start String.[] = false
is_name_start (String.◌∷◌ c s) = is_letter (code c) || nat_eq (code c) b'_'

unfoldable pub scan_line : String → Option (String × List String × String)
unfolding take_token is_name_start scan_args
scan_line text =
    let (name, behind) = take_token text in
    if is_name_start name
    then elim (scan_args between "" behind) [
      | none ↦ none
      | some (values, rest) ↦ some (name, values, rest)
    ]
    else none

-- `ws`
unfoldable pub skip_ws : String → String
unfolding is_ws
skip_ws String.[] = String.[]
skip_ws (String.◌∷◌ c s) = if is_ws (code c) then skip_ws s else String.◌∷◌ c s
