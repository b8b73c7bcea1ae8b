-- ===== src/Reservations/Reserve.antt =====
-- What `reserve` grants is there: an accepted package keeps every key within its observations.
use prayer_rs.Prelude.{
  ℕ, ◌+◌, ◌≤◌, ◌≡◌, refl, sym, ap, ◌∙◌, String, true, false, none, List, [], ◌∷◌, arith, ◌==◌,
  eq_iff, Bool-cases, inl, inr, ◌⊎◌, All,
}
use mathlib.Core.Path.{fun_ext, subst}
use prayer_rs.Prelude.Int.{ℤ, pos, pos_part, ◌≤ℤ◌, ltb_ℤ, i64_max, saturating_sub}
use prayer_rs.Prelude.Assoc.{Assoc, nat_Eq, string_Eq, lookup}
use prayer_rs.Reservations.State.{
  Uuid, key, ResolvedInventoryClaim, VirtualOrderUse, InventoryReservationOutcome,
  InventoryReservationLedger,
}
use prayer_rs.Reservations.Ledger.{
  or_default, Total, sum_totals, enter_totals, reserved_for_key, is_unavailable, unavailable,
  new_movement, reserve,
}
use prayer_rs.Reservations.Counting.{
  claimed, amount, active, active-insert_new, entered, amount-enter_totals,
}
use prayer_rs.Reservations.Totals.{
  the_claims, requested, package-IsTotal, Observed, package-Observed, requested-pos,
}

room :
    (o : ℤ) (a n b : ℕ)
    → a ≤ i64_max
    → ltb_ℤ (saturating_sub o (pos a)) (pos n) ≡ false
    → o ≤ℤ pos b
    → a + n ≤ b
unfolding saturating_sub
room o a n b h f le = ground arith

module _ {J : Type 0} where
  -- The books are right: what is reserved of a key is what the active movements hold of it.
  abbrev pub IsAccounted : InventoryReservationLedger J → Type 0
  IsAccounted l =
      (k : String)
      → (reserved_for_key l k ≡ pos (active k l.movements)) × (active k l.movements ≤ i64_max)

  pub accounted :
      (l : InventoryReservationLedger J)
      → IsAccounted l
      → (k : String) → amount k l.reserved_by_key ≡ pos (active k l.movements)
  unfolding reserved_for_key
  accounted l acc k = (acc k).0

  pub available-room :
      (l : InventoryReservationLedger J) (ts : Assoc String Total) (r : ResolvedInventoryClaim)
      → IsAccounted l
      → (or_default (pos 0, pos 0) (lookup (key r.claim) ts)).0 ≡ pos (requested (key r.claim) ts)
      → Observed (pos_part r.observed_quantity) (key r.claim) ts
      → is_unavailable l ts r ≡ false
      → active (key r.claim) l.movements + requested (key r.claim) ts ≤ pos_part r.observed_quantity
  unfolding is_unavailable
  available-room l ts r acc p (v, e, h) f = ground (
    arith,
    acc (key r.claim),
    room v.1 (active (key r.claim) l.movements) (requested (key r.claim) ts)
        (pos_part r.observed_quantity),
  )

  All-available :
      (l : InventoryReservationLedger J) (ts : Assoc String Total)
      (rs : List ResolvedInventoryClaim)
      → unavailable l ts rs ≡ []
      → All (λ r. is_unavailable l ts r ≡ false) rs
  unfolding unavailable
  All-available l ts [] e = tt
  All-available l ts (r ∷ rs) e = ground (arith, All-available l ts rs)

  module _ (l : InventoryReservationLedger J) (ts : Assoc String Total) (acc : IsAccounted l)
      (asks : (k : String)
        → (or_default (pos 0, pos 0) (lookup k ts)).0 ≡ pos (requested k ts)) where
    All-room :
        (rs : List ResolvedInventoryClaim)
        → All (λ r. is_unavailable l ts r ≡ false) rs
        → All (λ r. Observed (pos_part r.observed_quantity) (key r.claim) ts) rs
        → All
            (λ r.
              active (key r.claim) l.movements + requested (key r.claim) ts
              ≤ pos_part r.observed_quantity)
            rs
    All-room [] f o = tt
    All-room (r ∷ rs) f o =
        (available-room l ts r acc (asks (key r.claim)) o.0 f.0, All-room rs f.1 o.1)

key_fits :
    (a n : String → ℕ) (k : String) (rs : List ResolvedInventoryClaim)
    → All (λ r. a (key r.claim) + n (key r.claim) ≤ pos_part r.observed_quantity) rs
    → All (λ r. pos_part r.observed_quantity ≤ i64_max) rs
    → (claimed k (the_claims rs) ≡ 0) ⊎ (a k + n k ≤ i64_max)
key_fits a n k [] h o = inl refl
key_fits a n k (r ∷ rs) h o = elim (Bool-cases (k == key r.claim)) [
  | inl same ↦ inr (rw ((eq_iff k (key r.claim)).0 same) (omega arith))
  | inr other ↦ elim (key_fits a n k rs h.1 o.1) [
    | inl none_left ↦ inl (rw other (omega arith))
    | inr fits ↦ inr fits
  ]
]

pub zero-requested : (k : String) {n : ℕ} → requested k [] + n ≡ n
unfolding lookup
zero-requested k = omega arith

module _ {J : Type 0} (id session : Uuid) (kind : String) (claims : List ResolvedInventoryClaim)
    (uses : List VirtualOrderUse) (context : J) (now : ℤ) (l : InventoryReservationLedger J) where
  abbrev outcome : InventoryReservationOutcome J
  outcome = (reserve id session kind claims uses context now l).0

  abbrev after : InventoryReservationLedger J
  after = (reserve id session kind claims uses context now l).1

  granted-missing : outcome.accepted ≡ true → unavailable l (sum_totals [] claims) claims ≡ []
  unfolding reserve
  granted-missing h = ground arith

  granted-reserved :
      outcome.accepted ≡ true
      → after.reserved_by_key ≡ enter_totals (sum_totals [] claims) l.reserved_by_key
  unfolding reserve
  granted-reserved h = ground arith

  granted-active :
      (k : String)
      → outcome.accepted ≡ true
      → lookup id l.movements ≡ none
      → active k after.movements ≡ active k l.movements + claimed k (the_claims claims)
  unfolding reserve
  granted-active k h fresh = ground (
    arith,
    active-insert_new k id (new_movement id session kind claims uses context now) l.movements fresh,
  )

  module _ (acc : IsAccounted l) (small : (k : String) → claimed k (the_claims claims) ≤ i64_max)
      (observed : All (λ r. pos_part r.observed_quantity ≤ i64_max) claims)
      (fresh : lookup id l.movements ≡ none) (granted : outcome.accepted ≡ true) where
    package_room :
        All
          (λ r.
            active (key r.claim) l.movements + claimed (key r.claim) (the_claims claims)
            ≤ pos_part r.observed_quantity)
          claims
    package_room =
        let t = package-IsTotal claims small in
        let asked : (λ k. requested k (sum_totals [] claims))
            ≡ (λ k. claimed k (the_claims claims)) =
          fun_ext (λ k. t.asked k ∙ zero-requested k) in
        subst
          (λ n.
            All
              (λ r.
                active (key r.claim) l.movements + n (key r.claim) ≤ pos_part r.observed_quantity)
              claims)
          asked
          (All-room l (sum_totals [] claims) acc
            (λ k. requested-pos k (sum_totals [] claims) t.all_pos) claims
            (All-available l (sum_totals [] claims) claims (granted-missing granted))
            (package-Observed claims []))

    entered_fits : (k : String) → active k l.movements + claimed k (the_claims claims) ≤ i64_max
    entered_fits k = ground (
      arith,
      acc k,
      key_fits (λ j. active j l.movements) (λ j. claimed j (the_claims claims)) k claims
          package_room observed,
    )

    granted_amount :
        (k : String)
        → amount k after.reserved_by_key
          ≡ pos (active k l.movements + claimed k (the_claims claims))
    granted_amount k =
        let t = package-IsTotal claims small in
        let asked : (j : String)
            → entered j (sum_totals [] claims) ≡ claimed j (the_claims claims) =
          λ j. t.entered_once j ∙ (t.asked j ∙ zero-requested j) in
        ap (amount k) (granted-reserved granted)
        ∙ amount-enter_totals (sum_totals [] claims) (λ j. active j l.movements) l.reserved_by_key
            t.all_pos (accounted l acc) (λ j. omega (arith, asked j, entered_fits j)) k
        ∙ ap (λ n. pos (active k l.movements + n)) (asked k)

    granted_for_key :
        (k : String)
        → reserved_for_key after k ≡ pos (active k l.movements + claimed k (the_claims claims))
    unfolding reserved_for_key
    granted_for_key k = granted_amount k

    within :
        (rs : List ResolvedInventoryClaim)
        → All
            (λ r.
              active (key r.claim) l.movements + claimed (key r.claim) (the_claims claims)
              ≤ pos_part r.observed_quantity)
            rs
        → All (λ r. reserved_for_key after (key r.claim) ≤ℤ pos (pos_part r.observed_quantity)) rs
    within [] h = tt
    within (r ∷ rs) h = (rw (granted_for_key (key r.claim)) (omega arith), within rs h.1)

    -- On a ledger whose reserved amounts are what its active movements claim, an accepted package
    -- keeps them so, and what is then reserved of a claim's key, before and now, is within what each
    -- claim observed of it. The identifier is new, the claims of a key together fit an `i64`, and so
    -- do the observations.
    pub reserve-IsAccounted :
        IsAccounted after
        × All
            (λ r. reserved_for_key after (key r.claim) ≤ℤ pos (pos_part r.observed_quantity))
            claims
    reserve-IsAccounted = (
      λ k. (
        granted_for_key k ∙ ap pos (sym (granted-active k granted fresh)),
        omega (arith, granted-active k granted fresh, entered_fits k),
      ),
      within claims package_room,
    )

  pub refused_whole : outcome.accepted ≡ false → after ≡ l
  unfolding reserve
  refused_whole h = ground arith
