-- ===== src/Reservations/Counting.antt =====
-- What a list of claims asks of a key, and what the active movements hold of it.
use prayer_rs.Prelude.{
  ℕ, ◌+◌, ◌-◌, ◌≤◌, ◌≡◌, ◌∙◌, String, none, some, List, [], ◌∷◌, arith, if◌then◌else◌, ◌==◌, eq_iff,
  Option-cases, inl, inr,
}
use prayer_rs.Prelude.Int.{
  ℤ, pos, pos_part, neg_part, max_ℤ, i64_max, saturating_sub, wrapping_add, saturating_sub-pos,
  wrapping_add-pos,
}
use prayer_rs.Prelude.Assoc.{Assoc, nat_Eq, string_Eq, lookup, insert, lookup-insert, lookup-remove}
use prayer_rs.Reservations.State.{Uuid, InventoryClaim, key, is_active, InventoryMovement}
use prayer_rs.Reservations.Ledger.{or_default, Total, enter_totals, give_back_one, give_back}

-- What the claims ask of the key; a negative quantity asks nothing.
abbrev pub claimed : String → List InventoryClaim → ℕ
claimed k [] = 0
claimed k (c ∷ cs) = (if k == key c then pos_part c.quantity else 0) + claimed k cs

abbrev pub amount : String → Assoc String ℤ → ℤ
amount k reserved = or_default (pos 0) (lookup k reserved)

module _ {J : Type 0} where
  abbrev pub held : String → InventoryMovement J → ℕ
  held k m = if is_active m.status then claimed k m.claims else 0

  -- What the active movements together hold of the key.
  abbrev pub active : String → Assoc Uuid (InventoryMovement J) → ℕ
  active k [] = 0
  active k ((id, m) ∷ ms) = held k m + active k ms

  pub active-insert :
      (k : String) (id : Uuid) (old m : InventoryMovement J) (ms : Assoc Uuid (InventoryMovement J))
      → lookup id ms ≡ some old
      → active k (insert id m ms) + held k old ≡ active k ms + held k m
  unfolding lookup insert
  active-insert k id old m [] e = ground arith
  active-insert k id old m ((j, n) ∷ ms) e = ground (arith, active-insert k id old m ms)

  pub active-insert_new :
      (k : String) (id : Uuid) (m : InventoryMovement J) (ms : Assoc Uuid (InventoryMovement J))
      → lookup id ms ≡ none
      → active k (insert id m ms) ≡ active k ms + held k m
  unfolding lookup insert
  active-insert_new k id m [] e = omega arith
  active-insert_new k id m ((j, n) ∷ ms) e = ground (arith, active-insert_new k id m ms)

  pub held-le-active :
      (k : String) (id : Uuid) (m : InventoryMovement J) (ms : Assoc Uuid (InventoryMovement J))
      → lookup id ms ≡ some m
      → held k m ≤ active k ms
  unfolding lookup
  held-le-active k id m [] e = ground arith
  held-le-active k id m ((j, n) ∷ ms) e = ground (arith, held-le-active k id m ms)

pub max_ℤ-zero : (q : ℤ) → max_ℤ q (pos 0) ≡ pos (pos_part q)
max_ℤ-zero q = ground arith

-- The amounts are those of `a`, and fit an `i64`.
abbrev pub Holds : (String → ℕ) → Assoc String ℤ → Type 0
Holds a reserved = (k : String) → (amount k reserved ≡ pos (a k)) × (a k ≤ i64_max)

amount-give_back_one :
    (c : InventoryClaim) (a : String → ℕ) (reserved : Assoc String ℤ) (k : String)
    → Holds a reserved
    → pos_part c.quantity ≤ a (key c)
    → amount k (give_back_one c reserved)
      ≡ pos (a k - (if k == key c then pos_part c.quantity else 0))
unfolding give_back_one
amount-give_back_one c a reserved k h le = elim (Option-cases (lookup (key c) reserved)) [
  | inl e ↦ ground (arith, h k, h (key c), eq_iff k (key c))
  | inr (q, e) ↦ ground (
    arith,
    h k,
    h (key c),
    eq_iff k (key c),
    max_ℤ-zero c.quantity,
    saturating_sub-pos (a (key c)) (pos_part c.quantity) le,
    lookup-insert (key c) k (saturating_sub q (max_ℤ c.quantity (pos 0))) reserved,
    lookup-remove (key c) k reserved,
  )
]

-- Giving claims back takes what they ask off each key.
pub amount-give_back :
    (cs : List InventoryClaim) (a : String → ℕ) (reserved : Assoc String ℤ)
    → Holds a reserved
    → ((k : String) → claimed k cs ≤ a k)
    → (k : String) → amount k (give_back cs reserved) ≡ pos (a k - claimed k cs)
unfolding give_back
amount-give_back [] a reserved h le k = ground (arith, h k)
amount-give_back (c ∷ cs) a reserved h le k =
    let b : String → ℕ = λ j. a j - (if j == key c then pos_part c.quantity else 0) in
    let own : pos_part c.quantity ≤ a (key c) =
      ground (arith, le (key c), eq_iff (key c) (key c)) in
    amount-give_back cs b (give_back_one c reserved)
      (λ j. (amount-give_back_one c a reserved j h own, ground (arith, h j)))
      (λ j. ground (arith, le j)) k
    ∙ ground (arith, le k)

-- What the totals add to the key.
abbrev pub entered : String → Assoc String Total → ℕ
entered k [] = 0
entered k ((j, (q, o)) ∷ ts) = (if k == j then pos_part q else 0) + entered k ts

abbrev pub AllPos : Assoc String Total → Type 0
AllPos [] = Unit
AllPos ((j, (q, o)) ∷ ts) = (neg_part q ≡ 0) × AllPos ts

-- Entering totals adds them, without overflow where the sums fit.
pub amount-enter_totals :
    (ts : Assoc String Total) (a : String → ℕ) (reserved : Assoc String ℤ)
    → AllPos ts
    → ((k : String) → amount k reserved ≡ pos (a k))
    → ((k : String) → a k + entered k ts ≤ i64_max)
    → (k : String) → amount k (enter_totals ts reserved) ≡ pos (a k + entered k ts)
unfolding enter_totals
amount-enter_totals [] a reserved p h le k = ground (arith, h k)
amount-enter_totals ((j, (q, o)) ∷ ts) a reserved p h le k =
    let b : String → ℕ = λ i. a i + (if i == j then pos_part q else 0) in
    amount-enter_totals ts b _ p.1
      (λ i. ground (
        arith,
        h i,
        h j,
        le j,
        p.0,
        eq_iff i j,
        eq_iff j j,
        wrapping_add-pos (a j) (pos_part q),
        lookup-insert j i (wrapping_add (amount j reserved) q) reserved,
      ))
      (λ i. ground (arith, le i)) k
    ∙ ground (arith, le k)
