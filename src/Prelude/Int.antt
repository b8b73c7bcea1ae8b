-- ===== src/Prelude/Int.antt =====
-- Signed machine integers: the `i64` operations of the standard library over the integers.
use Prim.Native.Nat.{ℕ, suc, ◌+◌, ◌-◌, ◌^◌, ◌≤◌}
use mathlib.Core.Path.{◌≡◌}
use mathlib.Core.Bool.{Bool}
use native.Mathlib.Omega.{arith}
use prayer_rs.Prelude.Tests.{ltb, leb, if◌then◌else◌}

-- `negsuc n` is -(n + 1).
pub data ℤ : Type 0 where
  pos : ℕ → ℤ
  negsuc : ℕ → ℤ

abbrev pub pos_part : ℤ → ℕ
pos_part (pos n) = n
pos_part (negsuc n) = 0

abbrev pub neg_part : ℤ → ℕ
neg_part (pos n) = 0
neg_part (negsuc n) = suc n

-- a - b, as an integer.
abbrev pub sub_ℕ : ℕ → ℕ → ℤ
sub_ℕ a b = if leb b a then pos (a - b) else negsuc (b - a - 1)

infixl 65 ◌+ℤ◌ ◌-ℤ◌
abbrev pub ◌+ℤ◌ : ℤ → ℤ → ℤ
a +ℤ b = sub_ℕ (pos_part a + pos_part b) (neg_part a + neg_part b)

abbrev pub ◌-ℤ◌ : ℤ → ℤ → ℤ
a -ℤ b = sub_ℕ (pos_part a + neg_part b) (neg_part a + pos_part b)

infix 50 ◌≤ℤ◌
abbrev pub ◌≤ℤ◌ : ℤ → ℤ → Type 0
a ≤ℤ b = pos_part a + neg_part b ≤ pos_part b + neg_part a

abbrev pub ltb_ℤ : ℤ → ℤ → Bool
ltb_ℤ a b = ltb (pos_part a + neg_part b) (pos_part b + neg_part a)

abbrev pub leb_ℤ : ℤ → ℤ → Bool
leb_ℤ a b = leb (pos_part a + neg_part b) (pos_part b + neg_part a)

abbrev pub min_ℤ : ℤ → ℤ → ℤ
min_ℤ a b = if leb_ℤ a b then a else b

abbrev pub max_ℤ : ℤ → ℤ → ℤ
max_ℤ a b = if leb_ℤ a b then b else a

abbrev pub i64_max : ℕ
i64_max = 2 ^ 63 - 1

-- The integers that an `i64` holds.
abbrev pub IsI64 : ℤ → Type 0
IsI64 a = (pos_part a ≤ i64_max) × (neg_part a ≤ i64_max + 1)

abbrev pub clamp_i64 : ℤ → ℤ
clamp_i64 (pos n) = if leb n i64_max then pos n else pos i64_max
clamp_i64 (negsuc n) = if leb n i64_max then negsuc n else negsuc i64_max

-- `i64::saturating_add` and `i64::saturating_sub`
unfoldable pub saturating_add : ℤ → ℤ → ℤ
saturating_add a b = clamp_i64 (a +ℤ b)

unfoldable pub saturating_sub : ℤ → ℤ → ℤ
saturating_sub a b = clamp_i64 (a -ℤ b)

-- The value of `a + b` in an `i64`, which wraps around (and panics in a checked build).
abbrev wrap_once : ℤ → ℤ
wrap_once (pos n) = if leb n i64_max then pos n else sub_ℕ n (2 ^ 64)
wrap_once (negsuc n) = if leb n i64_max then negsuc n else sub_ℕ (2 ^ 64) (suc n)

unfoldable pub wrapping_add : ℤ → ℤ → ℤ
wrapping_add a b = wrap_once (a +ℤ b)

pub saturating_add-pos : (a b : ℕ) → a + b ≤ i64_max → saturating_add (pos a) (pos b) ≡ pos (a + b)
unfolding saturating_add
saturating_add-pos a b h = ground arith

pub wrapping_add-pos : (a b : ℕ) → a + b ≤ i64_max → wrapping_add (pos a) (pos b) ≡ pos (a + b)
unfolding wrapping_add
wrapping_add-pos a b h = ground arith

pub saturating_sub-pos :
    (a b : ℕ) → b ≤ a → a ≤ i64_max → saturating_sub (pos a) (pos b) ≡ pos (a - b)
unfolding saturating_sub
saturating_sub-pos a b h k = ground arith
