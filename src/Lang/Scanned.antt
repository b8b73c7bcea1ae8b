-- ===== src/Lang/Scanned.antt =====
-- Scanning a line that was shown: the parser's scan undoes `arg` and the spaces between the words.
use Prim.Native.Char.{Char, code}
use text.Mathlib.TextEquality.{Char-path}
use prayer_rs.Prelude.{
  ℕ, String, Bool, true, false, ◌&&◌, ◌||◌, Option, none, some, List, [], ◌∷◌, ◌≡◌, refl, sym, ap,
  ◌∙◌, arith, nat_eq, if◌then◌else◌, Bool-cases, inl, inr,
}
use prayer_rs.Lang.Scanner.{
  put, replace_char_by, requires_quotes, arg, show_args, show_line, is_ws, is_letter,
  is_alphanumeric, is_token_start, is_token_char, ScanMode, start_arg, scan_char, scan_end,
  more_args, scan_args, take_token, is_name_start, scan_line,
}

abbrev one : Char → String
one c = String.◌∷◌ c String.[]

put-nil : (s : String) → put s String.[] ≡ s
put-nil String.[] = refl
put-nil (String.◌∷◌ c s) = ap (String.◌∷◌ c) (put-nil s)

put_assoc : (s t u : String) → put (put s t) u ≡ put s (put t u)
put_assoc String.[] t u = refl
put_assoc (String.◌∷◌ c s) t u = ap (String.◌∷◌ c) (put_assoc s t u)

-- Every character is one of a token.
unfoldable pub all_token : String → Bool
unfolding is_token_char
all_token String.[] = true
all_token (String.◌∷◌ c s) = is_token_char (code c) && all_token s

unfoldable pub is_plain : String → Bool
unfolding is_token_start all_token
is_plain String.[] = false
is_plain (String.◌∷◌ c s) = is_token_start (code c) && all_token s

-- A word that `arg` writes as a token that the parser takes: a plain one, or one between quotes.
abbrev pub is_word : String → Bool
is_word w = requires_quotes w || is_plain w

abbrev pub all_words : List String → Bool
all_words [] = true
all_words (w ∷ ws) = is_word w && all_words ws

-- A step inside an argument.
scan_step :
    (mode mode' : ScanMode) (current current' : String) (ended : List String) (c : Char)
    (s : String)
    → scan_end mode current c ≡ none
    → scan_char mode current c ≡ some (mode', current', ended)
    → scan_args mode current (String.◌∷◌ c s) ≡ more_args ended (scan_args mode' current' s)
unfolding scan_args scan_end scan_char
scan_step mode mode' current current' ended c s h k = ground (arith, h, k)

more-none : (o : Option (List String × String)) → more_args [] o ≡ o
more-none none = refl
more-none (some r) = refl

scan_silent :
    (mode mode' : ScanMode) (current current' : String) (c : Char) (s : String)
    → scan_end mode current c ≡ none
    → scan_char mode current c ≡ some (mode', current', [])
    → scan_args mode current (String.◌∷◌ c s) ≡ scan_args mode' current' s
scan_silent mode mode' current current' c s h k =
    scan_step mode mode' current current' [] c s h k ∙ more-none (scan_args mode' current' s)

scan-plain :
    (token s current : String)
    → all_token token ≡ true
    → scan_args ScanMode.plain current (put token s)
      ≡ scan_args ScanMode.plain (put current token) s
unfolding all_token scan_char scan_end is_token_char is_token_start is_alphanumeric is_letter
scan-plain String.[] s current h = ap (λ x. scan_args ScanMode.plain x s) (sym (put-nil current))
scan-plain (String.◌∷◌ c token) s current h =
    scan_silent ScanMode.plain ScanMode.plain current (put current (one c)) c (put token s)
      (ground arith) (ground arith)
    ∙ scan-plain token s (put current (one c)) (ground arith)
    ∙ ap (λ x. scan_args ScanMode.plain x s) (put_assoc current (one c) token)

escape_char : Char → String
escape_char c =
    if nat_eq (code c) 92 then "\\\\" else if nat_eq (code c) b'"' then "\\\"" else one c

escape : String → String
escape String.[] = String.[]
escape (String.◌∷◌ c s) = put (escape_char c) (escape s)

replace_char_by-put :
    (n : ℕ) (by s t : String)
    → replace_char_by n by (put s t) ≡ put (replace_char_by n by s) (replace_char_by n by t)
unfolding replace_char_by
replace_char_by-put n by String.[] t = refl
replace_char_by-put n by (String.◌∷◌ d s) t =
    rw (replace_char_by-put n by s t)
      (sym (put_assoc (if nat_eq (code d) n then by else one d) _ _))

same_char : (c d : Char) → nat_eq (code c) (code d) ≡ true → c ≡ d
same_char c d h = Char-path c d (ground (arith, h))

replace_char_by-escape_char :
    (c : Char)
    → replace_char_by b'"' "\\\"" (if nat_eq (code c) 92 then "\\\\" else one c) ≡ escape_char c
unfolding replace_char_by escape_char
replace_char_by-escape_char c = elim (Bool-cases (nat_eq (code c) 92)) [
  | inl backslash ↦ rw backslash refl
  | inr other ↦ elim (Bool-cases (nat_eq (code c) b'"')) [
    | inl quote ↦ rw other (rw quote refl)
    | inr plain ↦ rw other (rw plain refl)
  ]
]

replace_char_by-escape :
    (s : String) → replace_char_by b'"' "\\\"" (replace_char_by 92 "\\\\" s) ≡ escape s
unfolding replace_char_by escape
replace_char_by-escape String.[] = refl
replace_char_by-escape (String.◌∷◌ c s) =
    replace_char_by-put b'"' "\\\"" (if nat_eq (code c) 92 then "\\\\" else one c) _
    ∙ ap (put (replace_char_by b'"' "\\\"" (if nat_eq (code c) 92 then "\\\\" else one c)))
        (replace_char_by-escape s)
    ∙ ap (λ t. put t (escape s)) (replace_char_by-escape_char c)

-- Between quotes, a character behind a backslash is read as itself.
scan-behind :
    (c : Char) (s current : String)
    → scan_args ScanMode.quoted current (String.◌∷◌ "\\" (String.◌∷◌ c s))
      ≡ scan_args ScanMode.quoted (put current (one c)) s
unfolding scan_end scan_char
scan-behind c s current =
    scan_silent ScanMode.quoted ScanMode.escaped current current "\\" (String.◌∷◌ c s) refl refl
    ∙ scan_silent ScanMode.escaped ScanMode.quoted current (put current (one c)) c s refl refl

scan-escape_char :
    (c : Char) (s current : String)
    → scan_args ScanMode.quoted current (put (escape_char c) s)
      ≡ scan_args ScanMode.quoted (put current (one c)) s
unfolding escape_char scan_end scan_char
scan-escape_char c s current = elim (Bool-cases (nat_eq (code c) 92)) [
  | inl backslash ↦ rw (same_char c "\\" backslash) (scan-behind "\\" s current)
  | inr other ↦ elim (Bool-cases (nat_eq (code c) b'"')) [
    | inl quote ↦ rw (same_char c "\"" quote) (scan-behind "\"" s current)
    | inr plain ↦ rw other (
        rw plain (
          scan_silent ScanMode.quoted ScanMode.quoted current (put current (one c)) c s refl
            (ground (arith, other, plain))))
  ]
]

scan-escape :
    (word s current : String)
    → scan_args ScanMode.quoted current (put (escape word) s)
      ≡ scan_args ScanMode.quoted (put current word) s
unfolding escape
scan-escape String.[] s current = ap (λ x. scan_args ScanMode.quoted x s) (sym (put-nil current))
scan-escape (String.◌∷◌ c word) s current =
    ap (scan_args ScanMode.quoted current) (put_assoc (escape_char c) (escape word) s)
    ∙ scan-escape_char c (put (escape word) s) current
    ∙ scan-escape word s (put current (one c))
    ∙ ap (λ x. scan_args ScanMode.quoted x s) (put_assoc current (one c) word)

-- Behind a plain argument, what follows is read as behind a blank.
plain-end :
    (word : String) (ws : List String)
    → scan_args ScanMode.plain word (show_args ws)
      ≡ more_args (word ∷ []) (scan_args ScanMode.between "" (show_args ws))
unfolding show_args scan_args scan_end scan_char start_arg is_ws is_token_char is_token_start
    is_alphanumeric is_letter
plain-end word [] = refl
plain-end word (w ∷ ws) =
    ap (more_args (word ∷ []))
      (sym (more-none (scan_args ScanMode.between "" (put (arg w) (show_args ws)))))

blank_skipped :
    (s : String)
    → scan_args ScanMode.between "" (String.◌∷◌ " " s) ≡ scan_args ScanMode.between "" s
unfolding scan_end scan_char start_arg is_ws
blank_skipped s = scan_silent ScanMode.between ScanMode.between "" "" " " s refl refl

scan-quoted :
    (w s : String)
    → scan_args ScanMode.between "" (
        put
          (String.◌∷◌ "\"" (put (replace_char_by b'"' "\\\"" (replace_char_by 92 "\\\\" w)) "\""))
          s)
      ≡ more_args (w ∷ []) (scan_args ScanMode.between "" s)
unfolding scan_end scan_char start_arg is_ws
scan-quoted w s =
    let text = put (replace_char_by b'"' "\\\"" (replace_char_by 92 "\\\\" w)) "\"" in
    scan_silent ScanMode.between ScanMode.quoted "" "" "\"" (put text s) refl refl
    ∙ ap (scan_args ScanMode.quoted "") (
        put_assoc (replace_char_by b'"' "\\\"" (replace_char_by 92 "\\\\" w)) "\"" s
        ∙ ap (λ t. put t (String.◌∷◌ "\"" s)) (replace_char_by-escape w))
    ∙ scan-escape w (String.◌∷◌ "\"" s) ""
    ∙ scan_step ScanMode.quoted ScanMode.between w "" (w ∷ []) "\"" s refl refl

scan-unquoted :
    (w : String) (ws : List String)
    → is_plain w ≡ true
    → scan_args ScanMode.between "" (put w (show_args ws))
      ≡ more_args (w ∷ []) (scan_args ScanMode.between "" (show_args ws))
unfolding is_plain scan_end scan_char start_arg is_ws is_token_start is_alphanumeric is_letter
scan-unquoted String.[] ws h = ground (arith, h)
scan-unquoted (String.◌∷◌ c w) ws h =
    scan_silent ScanMode.between ScanMode.plain "" (one c) c (put w (show_args ws))
      (ground (arith, h)) (ground (arith, h))
    ∙ scan-plain w (show_args ws) (one c) (ground (arith, h))
    ∙ plain-end (String.◌∷◌ c w) ws

-- A word in front of the rest of the line.
scan-arg :
    (w : String) (ws : List String)
    → is_word w ≡ true
    → scan_args ScanMode.between "" (put (arg w) (show_args ws))
      ≡ more_args (w ∷ []) (scan_args ScanMode.between "" (show_args ws))
unfolding arg
scan-arg w ws h = elim (Bool-cases (requires_quotes w)) [
  | inl quoted ↦ rw quoted (scan-quoted w (show_args ws))
  | inr not_quoted ↦ rw not_quoted (scan-unquoted w ws (ground (arith, h, not_quoted)))
]

scan-show_args :
    (ws : List String)
    → all_words ws ≡ true
    → scan_args ScanMode.between "" (show_args ws) ≡ some (ws, "")
unfolding show_args
scan-show_args [] h = unfold scan_args scan_end in refl
scan-show_args (w ∷ ws) h =
    blank_skipped (put (arg w) (show_args ws))
    ∙ scan-arg w ws (ground (arith, h))
    ∙ ap (more_args (w ∷ [])) (scan-show_args ws (ground (arith, h)))

take_token-name :
    (name : String) (ws : List String)
    → all_token name ≡ true
    → take_token (put name (show_args ws)) ≡ (name, show_args ws)
unfolding take_token all_token show_args is_token_char is_token_start is_alphanumeric is_letter
take_token-name String.[] [] h = refl
take_token-name String.[] (w ∷ ws) h = refl
take_token-name (String.◌∷◌ c name) ws h =
    rw (take_token-name name ws (ground (arith, h))) (ground (arith, h))

-- A line that was shown is read as its keyword and its words, where the keyword is an identifier and
-- `arg` writes each word as a token that the parser takes.
pub scan-show_line :
    (name : String) (ws : List String)
    → is_name_start name ≡ true
    → all_token name ≡ true
    → all_words ws ≡ true
    → scan_line (show_line name ws) ≡ some (name, ws, "")
unfolding scan_line show_line
scan-show_line name ws n a h = ground (arith, take_token-name name ws a, n, scan-show_args ws h)
