-- ===== src/Lang/Quoting.antt =====
-- Reading back a line of quoted words: `lex_transfer_parts` undoes `render_arg`.
use prayer_rs.Prelude.{
  ℕ, ◌≡◌, refl, sym, ap, ◌∙◌, false, ◌||◌, some, List, [], ◌∷◌, ◌++◌, append_assoc, append-nil,
  arith, if◌then◌else◌, nat_eq, is_nil, Bool-cases, inl, inr,
}
use mathlib.Core.Option
use prayer_rs.Prelude.Text.{is_whitespace}
use prayer_rs.Lang.Lexer.{
  Chars, Mode, lex, lex_char, lex_end, lex_transfer_parts, replace_char, is_special, any_special,
  render_arg, render_args,
}

-- A character between quotes.
unfoldable escape_char : ℕ → Chars
escape_char c =
    if nat_eq c 92 then 92 ∷ 92 ∷ [] else if nat_eq c b'"' then 92 ∷ b'"' ∷ [] else c ∷ []

unfoldable escape : Chars → Chars
escape [] = []
escape (c ∷ s) = escape_char c ++ escape s

-- The two replacements, one behind the other, are one pass.
replace-append :
    (c : ℕ) (by s t : Chars)
    → replace_char c by (s ++ t) ≡ replace_char c by s ++ replace_char c by t
unfolding replace_char
replace-append c by [] t = refl
replace-append c by (d ∷ s) t =
    rw (replace-append c by s t) (sym (append_assoc (if nat_eq d c then by else d ∷ []) _ _))

replace-escape :
    (s : Chars) → replace_char b'"' (92 ∷ b'"' ∷ []) (replace_char 92 (92 ∷ 92 ∷ []) s) ≡ escape s
unfolding replace_char escape escape_char
replace-escape [] = refl
replace-escape (c ∷ s) =
    replace-append b'"' (92 ∷ b'"' ∷ []) (if nat_eq c 92 then 92 ∷ 92 ∷ [] else c ∷ []) _
    ∙ rw (replace-escape s) (ground arith)

-- A step that ends no word.
lex_step :
    (mode mode' : Mode) (current current' : Chars) (c : ℕ) (s : Chars)
    → lex_char mode current c ≡ some (mode', current', [])
    → lex mode current (c ∷ s) ≡ lex mode' current' s
unfolding lex lex_char
lex_step mode mode' current current' c s h = ground arith

-- A step that ends the word, behind which no word has begun.
lex_word :
    (mode : Mode) (current word : Chars) (c : ℕ) (s : Chars)
    → lex_char mode current c ≡ some (Mode.plain, [], word ∷ [])
    → lex mode current (c ∷ s) ≡ Option.map (λ words. word ∷ words) (lex Mode.plain [] s)
unfolding lex lex_char
lex_word mode current word c s h = ground arith

-- Between quotes, a character that is escaped is read as itself.
lex-escape_char :
    (c : ℕ) (s current : Chars)
    → lex Mode.quoted current (escape_char c ++ s) ≡ lex Mode.quoted (current ++ c ∷ []) s
unfolding escape_char lex_char
lex-escape_char c s current = ground (
  arith,
  lex_step Mode.quoted Mode.escaped current current 92 (c ∷ s) refl,
  lex_step Mode.escaped Mode.quoted current (current ++ c ∷ []) c s refl,
  lex_step Mode.quoted Mode.quoted current (current ++ c ∷ []) c s,
)

-- Between quotes, an escaped text is read as the text.
lex-escape :
    (word s current : Chars)
    → lex Mode.quoted current (escape word ++ s) ≡ lex Mode.quoted (current ++ word) s
unfolding escape
lex-escape [] s current = ap (λ x. lex Mode.quoted x s) (sym (append-nil current))
lex-escape (c ∷ word) s current =
    ap (lex Mode.quoted current) (append_assoc (escape_char c) (escape word) s)
    ∙ lex-escape_char c (escape word ++ s) current
    ∙ lex-escape word s (current ++ c ∷ [])
    ∙ ap (λ x. lex Mode.quoted x s) (append_assoc current (c ∷ []) word)

-- A plain word is read as itself.
lex-plain :
    (word s current : Chars)
    → any_special word ≡ false
    → lex Mode.plain current (word ++ s) ≡ lex Mode.plain (current ++ word) s
unfolding any_special is_special lex_char
lex-plain [] s current h = ap (λ x. lex Mode.plain x s) (sym (append-nil current))
lex-plain (c ∷ word) s current h =
    lex_step Mode.plain Mode.plain current (current ++ c ∷ []) c (word ++ s) (ground arith)
    ∙ lex-plain word s (current ++ c ∷ []) (ground arith)
    ∙ ap (λ x. lex Mode.plain x s) (append_assoc current (c ∷ []) word)

-- What may stand behind a word.
data Behind : Chars → Type 0 where
  at_end : Behind []
  at_space : (s : Chars) → Behind (b' ' ∷ s)

-- The end of a plain word.
lex-Behind :
    (word s : Chars)
    → Behind s
    → is_nil word ≡ false
    → lex Mode.plain word s ≡ Option.map (λ words. word ∷ words) (lex Mode.plain [] s)
unfolding lex_end lex lex_char
lex-Behind [] s b h = cc h
lex-Behind (c ∷ word) [] at_end h = refl
lex-Behind (c ∷ word) s (at_space t) h = unfold is_whitespace in ground arith

lex-render_arg :
    (word s : Chars)
    → Behind s
    → lex Mode.plain [] (render_arg word ++ s)
      ≡ Option.map (λ words. word ∷ words) (lex Mode.plain [] s)
unfolding render_arg
lex-render_arg word s b = elim (Bool-cases (is_nil word || any_special word)) [
  | inl e ↦ rw e (
      lex_step Mode.plain Mode.quoted [] [] b'"' _ (unfold lex_char in refl)
      ∙ ap (λ t. lex Mode.quoted [] ((t ++ b'"' ∷ []) ++ s)) (replace-escape word)
      ∙ ap (lex Mode.quoted []) (append_assoc (escape word) (b'"' ∷ []) s)
      ∙ lex-escape word (b'"' ∷ s) []
      ∙ lex_word Mode.quoted word word b'"' s (unfold lex_char in refl))
  | inr e ↦ rw e (lex-plain word s [] (ground arith) ∙ lex-Behind word s b (ground arith))
]

-- Any words, quoted where they need it and joined by blanks, are split into the same words again,
-- whatever characters they hold.
pub lex-render_args : (words : List Chars) → lex_transfer_parts (render_args words) ≡ some words
unfolding lex_transfer_parts render_args lex_end is_whitespace
lex-render_args [] = unfold lex in refl
lex-render_args (w ∷ []) =
    ap (lex Mode.plain []) (sym (append-nil (render_arg w)))
    ∙ lex-render_arg w [] at_end
    ∙ (unfold lex in refl)
lex-render_args (w ∷ v ∷ ws) =
    lex-render_arg w (b' ' ∷ render_args (v ∷ ws)) (at_space (render_args (v ∷ ws)))
    ∙ ap (Option.map (λ words. w ∷ words)) (
        lex_step Mode.plain Mode.plain [] [] b' ' (render_args (v ∷ ws)) (unfold lex_char in refl)
        ∙ lex-render_args (v ∷ ws))
