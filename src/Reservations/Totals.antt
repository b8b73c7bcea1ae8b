-- ===== src/Reservations/Totals.antt =====
-- The totals that `reserve` forms: for each key what the package asks, and the least that was observed.
use prayer_rs.Prelude.{
  ℕ, ◌+◌, ◌≤◌, ◌≡◌, refl, String, Option, none, some, List, [], ◌∷◌, map, arith, if◌then◌else◌,
  ◌==◌, eq_iff, Option-cases, Bool-cases, inl, inr, All,
}
use prayer_rs.Prelude.Int.{pos, pos_part, neg_part, ◌≤ℤ◌, i64_max, saturating_add-pos}
use prayer_rs.Prelude.Assoc.{Assoc, string_Eq, lookup, insert, lookup-insert}
use prayer_rs.Reservations.State.{InventoryClaim, key, ResolvedInventoryClaim}
use prayer_rs.Reservations.Ledger.{or_default, Total, next_total, add_total, sum_totals}
use prayer_rs.Reservations.Counting.{claimed, entered, AllPos, max_ℤ-zero}

abbrev pub the_claims : List ResolvedInventoryClaim → List InventoryClaim
the_claims = map λ r. r.claim

-- What the totals ask of the key.
abbrev pub requested : String → Assoc String Total → ℕ
requested k ts = pos_part (or_default (pos 0, pos 0) (lookup k ts)).0

insert-AllPos :
    (j : String) (v : Total) (ts : Assoc String Total)
    → AllPos ts
    → neg_part v.0 ≡ 0
    → AllPos (insert j v ts)
unfolding insert
insert-AllPos j v [] p h = ground arith
insert-AllPos j v ((i, w) ∷ ts) p h = ground (arith, insert-AllPos j v ts p.1 h)

lookup-AllPos :
    (j : String) (ts : Assoc String Total) (v : Total)
    → AllPos ts
    → lookup j ts ≡ some v
    → v.0 ≡ pos (pos_part v.0)
unfolding lookup
lookup-AllPos j [] v p e = ground arith
lookup-AllPos j ((i, w) ∷ ts) v p e = ground (arith, lookup-AllPos j ts v p.1)

entered-insert :
    (k j : String) (v : Total) (ts : Assoc String Total)
    → entered k (insert j v ts) + (if k == j then requested j ts else 0)
      ≡ entered k ts + (if k == j then pos_part v.0 else 0)
unfolding lookup insert
entered-insert k j v [] = ground arith
entered-insert k j v ((i, w) ∷ ts) =
    ground (arith, eq_iff j i, eq_iff k j, eq_iff k i, entered-insert k j v ts)

next_total_lem :
    (old : Option Total) (r : ResolvedInventoryClaim)
    → let n = pos_part (or_default (pos 0, pos 0) old).0 in
      (or_default (pos 0, pos 0) old).0 ≡ pos n
      → n + pos_part r.claim.quantity ≤ i64_max
      → (next_total old r).0 ≡ pos (n + pos_part r.claim.quantity)
unfolding next_total
next_total_lem none r p fits =
    ground (arith, saturating_add-pos 0 (pos_part r.claim.quantity), max_ℤ-zero r.claim.quantity)
next_total_lem (some v) r p fits = ground (
  arith,
  saturating_add-pos (pos_part v.0) (pos_part r.claim.quantity),
  max_ℤ-zero r.claim.quantity,
)

-- The least observation only falls.
next_total-le :
    (old : Option Total) (r : ResolvedInventoryClaim)
    → (next_total old r).1 ≤ℤ pos (pos_part r.observed_quantity)
unfolding next_total
next_total-le none r = ground arith
next_total-le (some (q, o)) r = ground arith

next_total-mono :
    (v : Total) (r : ResolvedInventoryClaim) (b : ℕ)
    → v.1 ≤ℤ pos b
    → (next_total (some v) r).1 ≤ℤ pos b
unfolding next_total
next_total-mono v r b h = ground arith

pub requested-pos :
    (j : String) (ts : Assoc String Total)
    → AllPos ts
    → (or_default (pos 0, pos 0) (lookup j ts)).0 ≡ pos (requested j ts)
requested-pos j ts p = elim (Option-cases (lookup j ts)) [
  | inl e ↦ rw e refl
  | inr (v, e) ↦ rw e (lookup-AllPos j ts v p e)
]

module _ (r : ResolvedInventoryClaim) (ts : Assoc String Total) (p : AllPos ts) where
  next_total-requested :
      requested (key r.claim) ts + pos_part r.claim.quantity ≤ i64_max
      → (next_total (lookup (key r.claim) ts) r).0
        ≡ pos (requested (key r.claim) ts + pos_part r.claim.quantity)
  next_total-requested =
      next_total_lem (lookup (key r.claim) ts) r (requested-pos (key r.claim) ts p)

  requested-add_total :
      (k : String)
      → requested (key r.claim) ts + pos_part r.claim.quantity ≤ i64_max
      → requested k (add_total r ts)
        ≡ requested k ts + (if k == key r.claim then pos_part r.claim.quantity else 0)
  unfolding add_total
  requested-add_total k fits = ground (
    arith,
    eq_iff k (key r.claim),
    next_total-requested fits,
    lookup-insert (key r.claim) k (next_total (lookup (key r.claim) ts) r) ts,
  )

  entered-add_total :
      (k : String)
      → requested (key r.claim) ts + pos_part r.claim.quantity ≤ i64_max
      → entered k ts ≡ requested k ts
      → entered k (add_total r ts) ≡ requested k (add_total r ts)
  unfolding add_total
  entered-add_total k fits same = ground (
    arith,
    eq_iff k (key r.claim),
    requested-add_total k fits,
    next_total-requested fits,
    entered-insert k (key r.claim) (next_total (lookup (key r.claim) ts) r) ts,
  )

  AllPos-add_total :
      requested (key r.claim) ts + pos_part r.claim.quantity ≤ i64_max → AllPos (add_total r ts)
  unfolding add_total
  AllPos-add_total fits = insert-AllPos (key r.claim) _ ts p (rw (next_total-requested fits) refl)

-- What is left of the package fits beside what the totals ask already.
abbrev Fits : Assoc String Total → List ResolvedInventoryClaim → Type 0
Fits ts rs = (k : String) → requested k ts + claimed k (the_claims rs) ≤ i64_max

-- What holds of the totals of a whole package.
pub record IsTotal (ts : Assoc String Total) (rs : List ResolvedInventoryClaim)
    (us : Assoc String Total) : Type 0 where
  pub all_pos : AllPos us
  pub asked : (k : String) → requested k us ≡ requested k ts + claimed k (the_claims rs)
  pub entered_once : (k : String) → entered k us ≡ requested k us

sum_totals-IsTotal :
    (rs : List ResolvedInventoryClaim) (ts : Assoc String Total)
    → AllPos ts
    → ((k : String) → entered k ts ≡ requested k ts)
    → Fits ts rs
    → IsTotal ts rs (sum_totals ts rs)
unfolding sum_totals
sum_totals-IsTotal [] ts p same fits = record {
  all_pos = p;
  asked = λ k. omega arith;
  entered_once = same;
}
sum_totals-IsTotal (r ∷ rs) ts p same fits =
    let room : requested (key r.claim) ts + pos_part r.claim.quantity ≤ i64_max =
      ground (arith, fits (key r.claim), eq_iff (key r.claim) (key r.claim)) in
    let t =
      sum_totals-IsTotal rs (add_total r ts) (AllPos-add_total r ts p room)
        (λ k. entered-add_total r ts p k room (same k))
        (λ k. omega (arith, fits k, requested-add_total r ts p k room)) in
    record {
      all_pos = t.all_pos;
      asked = λ k. omega (arith, t.asked k, requested-add_total r ts p k room);
      entered_once = t.entered_once;
    }

pub package-IsTotal :
    (rs : List ResolvedInventoryClaim)
    → ((k : String) → claimed k (the_claims rs) ≤ i64_max)
    → IsTotal [] rs (sum_totals [] rs)
unfolding lookup
package-IsTotal rs fits = sum_totals-IsTotal rs [] tt (λ k. refl) (λ k. omega (arith, fits k))

-- The totals have an entry for the key, with an observation of at most `b`.
abbrev pub Observed : ℕ → String → Assoc String Total → Type 0
Observed b k ts = (v : Total) × (lookup k ts ≡ some v) × (v.1 ≤ℤ pos b)

Observed-add_total :
    (b : ℕ) (k : String) (r : ResolvedInventoryClaim) (ts : Assoc String Total)
    → Observed b k ts
    → Observed b k (add_total r ts)
unfolding add_total
Observed-add_total b k r ts (v, e, h) =
    let law = lookup-insert (key r.claim) k (next_total (lookup (key r.claim) ts) r) ts in
    elim (Bool-cases (k == key r.claim)) [
      | inl same ↦ (
        next_total (some v) r,
        ground (arith, law, eq_iff k (key r.claim)),
        next_total-mono v r b h,
      )
      | inr other ↦ (v, ground (arith, law), h)
    ]

Observed-own :
    (r : ResolvedInventoryClaim) (ts : Assoc String Total)
    → Observed (pos_part r.observed_quantity) (key r.claim) (add_total r ts)
unfolding add_total
Observed-own r ts = (
  next_total (lookup (key r.claim) ts) r,
  ground (
    arith,
    lookup-insert (key r.claim) (key r.claim) (next_total (lookup (key r.claim) ts) r) ts,
    eq_iff (key r.claim) (key r.claim),
  ),
  next_total-le (lookup (key r.claim) ts) r,
)

Observed-sum_totals :
    (b : ℕ) (k : String) (rs : List ResolvedInventoryClaim) (ts : Assoc String Total)
    → Observed b k ts
    → Observed b k (sum_totals ts rs)
unfolding sum_totals
Observed-sum_totals b k [] ts h = h
Observed-sum_totals b k (r ∷ rs) ts h =
    Observed-sum_totals b k rs (add_total r ts) (Observed-add_total b k r ts h)

-- Each claim of the package bounds the observation of its key.
pub package-Observed :
    (rs : List ResolvedInventoryClaim) (ts : Assoc String Total)
    → All (λ r. Observed (pos_part r.observed_quantity) (key r.claim) (sum_totals ts rs)) rs
unfolding sum_totals
package-Observed [] ts = tt
package-Observed (r ∷ rs) ts = (
  Observed-sum_totals (pos_part r.observed_quantity) (key r.claim) rs (add_total r ts)
      (Observed-own r ts),
  package-Observed rs (add_total r ts),
)
