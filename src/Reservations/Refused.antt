-- ===== src/Reservations/Refused.antt =====
-- What `reserve` refuses: a package with a claim that does not fit.
use prayer_rs.Prelude.{
  ◌+◌, ◌≤◌, ◌<◌, is_nil, ◌≡◌, refl, sym, ap, ◌∙◌, String, true, false, none, List, [], ◌∷◌, arith,
  Bool-cases, inl, inr, ◌⊎◌, All,
}
use mathlib.Core.Path.{subst}
use mathlib.Core.List.{Memᴰ}
use mathlib.Core.List.Memᴰ
use prayer_rs.Prelude.Int.{ℤ, pos, pos_part, leb_ℤ, i64_max}
use prayer_rs.Prelude.Assoc.{Assoc, nat_Eq, string_Eq}
use prayer_rs.Reservations.State.{
  Uuid, key, ResolvedInventoryClaim, InventoryClaim, VirtualOrderUse, InventoryReservationOutcome,
  InventoryReservationLedger,
}
use prayer_rs.Reservations.Ledger.{Total, sum_totals, is_unavailable, unavailable, reserve}
use prayer_rs.Reservations.Counting.{claimed, active}
use prayer_rs.Reservations.Totals.{
  the_claims, package-IsTotal, Observed, package-Observed, requested-pos,
}
use prayer_rs.Reservations.Reserve.{IsAccounted, available-room, zero-requested}

All-at : {A : Type 0} (P : A → Type 0) (x : A) (xs : List A) → All P xs → Memᴰ x xs → P x
All-at P x [] h m = absurd (Memᴰ.not-nil m)
All-at P x (y ∷ ys) h (Memᴰ.head e) = subst P (sym e) h.0
All-at P x (y ∷ ys) h (Memᴰ.tail m) = All-at P x ys h.1 m

not_nil : {A : Type 0} (x : A) (xs : List A) → Memᴰ x xs → is_nil xs ≡ false
not_nil x [] m = absurd (Memᴰ.not-nil m)
not_nil x (y ∷ ys) m = refl

module _ {J : Type 0} (l : InventoryReservationLedger J) (ts : Assoc String Total)
    (r : ResolvedInventoryClaim) where
  nothing_asked : leb_ℤ r.claim.quantity (pos 0) ≡ true → is_unavailable l ts r ≡ true
  unfolding is_unavailable
  nothing_asked h = ground arith

  unavailable-named :
      (rs : List ResolvedInventoryClaim)
      → Memᴰ r rs
      → is_unavailable l ts r ≡ true
      → Memᴰ r.claim (unavailable l ts rs)
  unfolding unavailable
  unavailable-named [] m h = absurd (Memᴰ.not-nil m)
  unavailable-named (q ∷ rs) (Memᴰ.head e) h =
      rw (ap (is_unavailable l ts) (sym e) ∙ h) (Memᴰ.head (ap (λ v. v.claim) e))
  unavailable-named (q ∷ rs) (Memᴰ.tail m) h = elim (Bool-cases (is_unavailable l ts q)) [
    | inl missing ↦ rw missing (Memᴰ.tail (unavailable-named rs m h))
    | inr there ↦ rw there (unavailable-named rs m h)
  ]

module _ {J : Type 0} (id session : Uuid) (kind : String) (claims : List ResolvedInventoryClaim)
    (uses : List VirtualOrderUse) (context : J) (now : ℤ) (l : InventoryReservationLedger J) where
  abbrev outcome : InventoryReservationOutcome J
  outcome = (reserve id session kind claims uses context now l).0

  abbrev after : InventoryReservationLedger J
  after = (reserve id session kind claims uses context now l).1

  missing-refused :
      (c : InventoryClaim)
      → Memᴰ c (unavailable l (sum_totals [] claims) claims)
      → (outcome.accepted ≡ false)
        × (after ≡ l)
        × (outcome.movement ≡ none)
        × Memᴰ c outcome.unavailable_claims
  unfolding reserve
  missing-refused c m =
      let some_missing = not_nil c (unavailable l (sum_totals [] claims) claims) m in
      let named : outcome.unavailable_claims ≡ unavailable l (sum_totals [] claims) claims =
        ground (arith, some_missing) in
      (
        ground (arith, some_missing),
        ground (arith, some_missing),
        ground (arith, some_missing),
        subst (λ cs. Memᴰ c cs) (sym named) m,
      )

  no_room :
      (r : ResolvedInventoryClaim)
      → IsAccounted l
      → ((k : String) → claimed k (the_claims claims) ≤ i64_max)
      → Memᴰ r claims
      → pos_part r.observed_quantity
        < active (key r.claim) l.movements + claimed (key r.claim) (the_claims claims)
      → is_unavailable l (sum_totals [] claims) r ≡ true
  no_room r acc small m over = elim (Bool-cases (is_unavailable l (sum_totals [] claims) r)) [
    | inl missing ↦ missing
    | inr there ↦
        let t = package-IsTotal claims small in
        let fits =
          available-room l (sum_totals [] claims) r acc
            (requested-pos (key r.claim) (sum_totals [] claims) t.all_pos)
            (All-at
              (λ q. Observed (pos_part q.observed_quantity) (key q.claim) (sum_totals [] claims)) r
              claims (package-Observed claims []) m)
            there in
        absurd
          (omega (arith, fits, t.asked (key r.claim), zero-requested (key r.claim) {n = 0}, over))
  ]

  -- A package is refused whole if one of its claims asks for nothing, or if the active movements and
  -- the package together ask more of that claim's key than the claim observed: the ledger is
  -- unchanged, no movement is made, and the answer names the claim. The reserved amounts are
  -- what the active movements claim, and the claims of a key together fit an `i64`.
  pub reserve-refused :
      (r : ResolvedInventoryClaim)
      → IsAccounted l
      → ((k : String) → claimed k (the_claims claims) ≤ i64_max)
      → Memᴰ r claims
      → (leb_ℤ r.claim.quantity (pos 0) ≡ true)
        ⊎ (pos_part r.observed_quantity
            < active (key r.claim) l.movements + claimed (key r.claim) (the_claims claims))
      → (outcome.accepted ≡ false)
        × (after ≡ l)
        × (outcome.movement ≡ none)
        × Memᴰ r.claim outcome.unavailable_claims
  reserve-refused r acc small m over = missing-refused r.claim (
      unavailable-named l (sum_totals [] claims) r claims m (elim over [
        | inl nothing ↦ nothing_asked l (sum_totals [] claims) r nothing
        | inr more ↦ no_room r acc small m more
      ]))
