-- ===== src/Routes/Vectors.antt =====
-- Vectors with an index, for prayer-state/src/graph.rs: reading, writing and the cells that hold a
-- sentinel.
use prayer_rs.Prelude.{
  ℕ, zero, suc, ◌<◌, ◌≡◌, ◌≢◌, refl, ap, ◌↔◌, ◌⊎◌, inl, inr, List, [], ◌∷◌, ◌++◌, if◌then◌else◌,
  nat_eq, length, arith,
}
use mathlib.Core.List.{Memᴰ}
use mathlib.Core.List.Memᴰ
use mathlib.Core.Logic.{⊎_elim}

module _ {ℓ} {A : Type ℓ} where
  abbrev pub get_or : List A → ℕ → A → A
  get_or [] i d = d
  get_or (x ∷ xs) zero d = x
  get_or (x ∷ xs) (suc i) d = get_or xs i d

  abbrev pub set : List A → ℕ → A → List A
  set [] i v = []
  set (x ∷ xs) zero v = v ∷ xs
  set (x ∷ xs) (suc i) v = x ∷ set xs i v

  -- `vec![v; n]`
  abbrev pub filled : ℕ → A → List A
  filled zero v = []
  filled (suc n) v = v ∷ filled n v

  pub length-set : (xs : List A) (i : ℕ) (v : A) → length (set xs i v) ≡ length xs
  length-set [] i v = refl
  length-set (x ∷ xs) zero v = refl
  length-set (x ∷ xs) (suc i) v = ap suc (length-set xs i v)

  pub length-filled : (n : ℕ) (v : A) → length (filled n v) ≡ n
  length-filled zero v = refl
  length-filled (suc n) v = ap suc (length-filled n v)

  pub get_or-filled : (n i : ℕ) (v : A) → get_or (filled n v) i v ≡ v
  get_or-filled zero i v = refl
  get_or-filled (suc n) zero v = refl
  get_or-filled (suc n) (suc i) v = get_or-filled n i v

  pub get_or-set :
      (xs : List A) (i j : ℕ) (v d : A)
      → i < length xs
      → get_or (set xs i v) j d ≡ (if nat_eq j i then v else get_or xs j d)
  get_or-set [] i j v d h = absurd (omega arith)
  get_or-set (x ∷ xs) zero zero v d h = refl
  get_or-set (x ∷ xs) zero (suc j) v d h = ground arith
  get_or-set (x ∷ xs) (suc i) zero v d h = ground arith
  get_or-set (x ∷ xs) (suc i) (suc j) v d h = ground (arith, get_or-set xs i j v d)

  pub Memᴰ-cons : (a x : A) (xs : List A) → Memᴰ a (x ∷ xs) ↔ ((a ≡ x) ⊎ Memᴰ a xs)
  Memᴰ-cons a x xs = (Memᴰ.cases_cons, ⊎_elim Memᴰ.head Memᴰ.tail)

  pub Memᴰ-single : (a x : A) → Memᴰ a (x ∷ []) ↔ (a ≡ x)
  Memᴰ-single a x = (Memᴰ.eq_of_singleton, Memᴰ.head)

  pub Memᴰ-concat : (a x : A) (xs : List A) → Memᴰ a (xs ++ x ∷ []) ↔ (Memᴰ a xs ⊎ (a ≡ x))
  Memᴰ-concat a x xs = (
    λ m. ⊎_elim inl (λ last. inr (Memᴰ.eq_of_singleton last)) (Memᴰ.append_cases xs m),
    ⊎_elim (Memᴰ.append_left _) (λ e. Memᴰ.append_right xs (Memᴰ.head e)),
  )

-- The cells that hold a number.
abbrev pub count_eq : ℕ → List ℕ → ℕ
count_eq x [] = 0
count_eq x (y ∷ ys) = let rest = count_eq x ys in if nat_eq y x then suc rest else rest

pub count_eq-set :
    (x : ℕ) (ys : List ℕ) (i y : ℕ)
    → i < length ys
    → get_or ys i x ≡ x
    → y ≢ x
    → suc (count_eq x (set ys i y)) ≡ count_eq x ys
count_eq-set x [] i y h e n = absurd (omega arith)
count_eq-set x (z ∷ ys) zero y h e n = ground arith
count_eq-set x (z ∷ ys) (suc i) y h e n = ground (arith, count_eq-set x ys i y)

pub count_eq-filled : (x n : ℕ) → count_eq x (filled n x) ≡ n
count_eq-filled x zero = refl
count_eq-filled x (suc n) = ground (arith, count_eq-filled x n)
