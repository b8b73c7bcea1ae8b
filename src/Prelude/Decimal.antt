-- ===== src/Prelude/Decimal.antt =====
-- `str::parse` into the integer types, and `to_string` of a number.
use Prim.Native.Nat.{ℕ, zero, suc, ◌+◌, ◌-◌, ◌*◌, ◌/◌, ◌%◌, ◌≤◌, ◌<◌}
use Prim.Native.Char.{Char, code}
use Prim.Native.String.{String}
use mathlib.Core.Path.{◌≡◌, refl}
use mathlib.Core.Logic.{inl, inr}
use mathlib.Core.Bool.{Bool, true, ◌&&◌}
use mathlib.Core.Option.{Option, none, some}
use native.Mathlib.Omega.{arith}
use prayer_rs.Prelude.Tests.{if◌then◌else◌, nat_eq, leb, ltb, u64_max, Bool-cases, Option-cases}
use prayer_rs.Prelude.Int.{ℤ, pos, negsuc, i64_max, IsI64}

abbrev is_digit : ℕ → Bool
is_digit c = leb b'0' c && leb c b'9'

-- The value of the digits after `acc`, if there are only digits.
unfoldable pub digits_from : ℕ → String → Option ℕ
digits_from acc String.[] = some acc
digits_from acc (String.◌∷◌ c s) =
    let rest = digits_from (10 * acc + (code c - b'0')) s in
    if is_digit (code c) then rest else none

-- At least one digit.
unfoldable pub digits : String → Option ℕ
unfolding digits_from
digits String.[] = none
digits (String.◌∷◌ c s) = digits_from 0 (String.◌∷◌ c s)

-- A sign may stand in front, if digits follow it.
unfoldable pub unsigned : String → Option ℕ
unfolding digits
unsigned String.[] = none
unsigned (String.◌∷◌ c s) = if nat_eq (code c) b'+' then digits s else digits (String.◌∷◌ c s)

-- `parse::<u64>().ok()`
unfoldable pub parse_u64 : String → Option ℕ
unfolding unsigned
parse_u64 s = elim (unsigned s) [ none ↦ none | some n ↦ if leb n u64_max then some n else none ]

abbrev negated : ℕ → Option ℤ
negated zero = some (pos 0)
negated (suc n) = if leb n i64_max then some (negsuc n) else none

-- `parse::<i64>().ok()`
unfoldable pub parse_i64 : String → Option ℤ
unfolding unsigned
parse_i64 String.[] = none
parse_i64 (String.◌∷◌ c s) =
    if nat_eq (code c) b'-'
    then elim (digits s) [ none ↦ none | some n ↦ negated n ]
    else elim (unsigned (String.◌∷◌ c s)) [
      | none ↦ none
      | some n ↦ if leb n i64_max then some (pos n) else none
    ]

parse_i64_tests :
    (parse_i64 "-12" ≡ some (negsuc 11))
    × (parse_i64 "+7" ≡ some (pos 7))
    × (parse_i64 "x" ≡ none)
    × (parse_u64 "18446744073709551616" ≡ none)
    × (parse_u64 "007" ≡ some 7)
    × (parse_u64 "+" ≡ none)
unfolding parse_i64 parse_u64
parse_i64_tests = (refl, refl, refl, refl, refl, refl)

-- The character of a digit.
abbrev pub digit : ℕ → Char
digit zero = "0"
digit (suc zero) = "1"
digit (suc (suc zero)) = "2"
digit (suc (suc (suc zero))) = "3"
digit (suc (suc (suc (suc zero)))) = "4"
digit (suc (suc (suc (suc (suc zero))))) = "5"
digit (suc (suc (suc (suc (suc (suc zero)))))) = "6"
digit (suc (suc (suc (suc (suc (suc (suc zero))))))) = "7"
digit (suc (suc (suc (suc (suc (suc (suc (suc zero)))))))) = "8"
digit _ = "9"

-- The digits of a number in front of a text, on fuel.
unfoldable pub print_from : ℕ → ℕ → String → String
print_from zero n s = s
print_from (suc fuel) n s =
    let rest = print_from fuel (n / 10) (String.◌∷◌ (digit (n % 10)) s) in
    if ltb n 10 then String.◌∷◌ (digit n) s else rest

-- `to_string` of a `u64`; a number has no more digits than its successor.
unfoldable pub print : ℕ → String
unfolding print_from
print n = print_from (suc n) n String.[]

code-digit : (n : ℕ) → n < 10 → code (digit n) ≡ b'0' + n
code-digit zero h = refl
code-digit (suc zero) h = refl
code-digit (suc (suc zero)) h = refl
code-digit (suc (suc (suc zero))) h = refl
code-digit (suc (suc (suc (suc zero)))) h = refl
code-digit (suc (suc (suc (suc (suc zero))))) h = refl
code-digit (suc (suc (suc (suc (suc (suc zero)))))) h = refl
code-digit (suc (suc (suc (suc (suc (suc (suc zero))))))) h = refl
code-digit (suc (suc (suc (suc (suc (suc (suc (suc zero)))))))) h = refl
code-digit (suc (suc (suc (suc (suc (suc (suc (suc (suc zero))))))))) h = refl
code-digit (suc (suc (suc (suc (suc (suc (suc (suc (suc (suc n)))))))))) h = omega arith

-- Enough fuel is one round more than the number.
digits_from-print_from :
    (fuel n : ℕ) (s : String) → n < fuel → digits_from 0 (print_from fuel n s) ≡ digits_from n s
unfolding digits_from print_from
digits_from-print_from zero n s h = ground arith
digits_from-print_from (suc fuel) n s h = ground (
  arith,
  code-digit n,
  code-digit (n % 10),
  digits_from-print_from fuel (n / 10) (String.◌∷◌ (digit (n % 10)) s),
)

abbrev pub StartsWithDigit : String → Type 0
StartsWithDigit s = (c : Char) × (t : String) × (s ≡ String.◌∷◌ c t) × (is_digit (code c) ≡ true)

print_from-StartsWithDigit :
    (fuel n : ℕ) (s : String) → n < fuel → StartsWithDigit (print_from fuel n s)
unfolding print_from
print_from-StartsWithDigit zero n s h = ground arith
print_from-StartsWithDigit (suc fuel) n s h = elim (Bool-cases (ltb n 10)) [
  | inl small ↦ (digit n, s, ground arith, ground (arith, code-digit n))
  | inr large ↦
      let (c, t, e, d) =
        print_from-StartsWithDigit fuel (n / 10) (String.◌∷◌ (digit (n % 10)) s) (ground arith) in
      (c, t, ground arith, d)
]

unsigned-digits : (s : String) → StartsWithDigit s → unsigned s ≡ digits_from 0 s
unfolding unsigned digits
unsigned-digits s (c, t, e, d) = rw e (ground arith)

unsigned-print : (n : ℕ) → unsigned (print n) ≡ some n
unfolding print digits_from
unsigned-print n = ground (
  arith,
  unsigned-digits (print_from (suc n) n String.[])
      (print_from-StartsWithDigit (suc n) n String.[] (omega arith)),
  digits_from-print_from (suc n) n String.[],
)

-- A `u64` is read back from its digits.
pub parse_u64-print : (n : ℕ) → n ≤ u64_max → parse_u64 (print n) ≡ some n
unfolding parse_u64
parse_u64-print n h = ground (arith, unsigned-print n)

-- `to_string` of an `i64`.
unfoldable pub print_i64 : ℤ → String
unfolding print
print_i64 (pos n) = print n
print_i64 (negsuc n) = String.◌∷◌ "-" (print (suc n))

print-StartsWithDigit : (n : ℕ) → StartsWithDigit (print n)
unfolding print
print-StartsWithDigit n = print_from-StartsWithDigit (suc n) n String.[] (omega arith)

digits-unsigned : (s : String) → StartsWithDigit s → digits s ≡ unsigned s
unfolding unsigned
digits-unsigned s (c, t, e, d) = rw e (ground arith)

parse_i64-unsigned :
    (s : String)
    → StartsWithDigit s
    → parse_i64 s
      ≡ elim (unsigned s) [ none ↦ none | some n ↦ if leb n i64_max then some (pos n) else none ]
unfolding parse_i64
parse_i64-unsigned s (c, t, e, d) = rw e (ground arith)

-- An `i64` is read back from its digits.
pub parse_i64-print_i64 : (z : ℤ) → IsI64 z → parse_i64 (print_i64 z) ≡ some z
unfolding print_i64
parse_i64-print_i64 (pos n) h =
    ground (arith, parse_i64-unsigned (print n) (print-StartsWithDigit n), unsigned-print n)
parse_i64-print_i64 (negsuc n) h =
    unfold parse_i64 in
    ground (
      arith,
      digits-unsigned (print (suc n)) (print-StartsWithDigit (suc n)),
      unsigned-print (suc n),
    )

negated-IsI64 : (n : ℕ) (z : ℤ) → negated n ≡ some z → IsI64 z
negated-IsI64 zero z h = ground arith
negated-IsI64 (suc n) z h = ground arith

-- What is read as an `i64` is one.
pub parse_i64-IsI64 : (s : String) (z : ℤ) → parse_i64 s ≡ some z → IsI64 z
unfolding parse_i64
parse_i64-IsI64 String.[] z h = cc h
parse_i64-IsI64 (String.◌∷◌ c s) z h = elim (Option-cases (digits s)) [
  | inl e ↦ ground arith
  | inr (n, e) ↦ ground (arith, negated-IsI64 n z)
]
