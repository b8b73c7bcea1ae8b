-- ===== src/Reservations/History.antt =====
-- The ledger after any history of calls.
use prayer_rs.Prelude.{
  ◌≤◌, ◌≡◌, ◌≢◌, refl, String, true, false, Option, none, some, List, arith, Bool-cases, inl, inr,
  ◌⊎◌, All,
}
use prayer_rs.Prelude.Int.{ℤ, pos_part, i64_max}
use prayer_rs.Prelude.Assoc.{nat_Eq, string_Eq, lookup}
use prayer_rs.Reservations.State.{
  Uuid, InventoryMovementStatus, is_active, can_transition_to, InventoryMovement,
  ResolvedInventoryClaim, VirtualOrderUse, InventoryReservationLedger, empty_ledger,
}
use prayer_rs.Reservations.Ledger.{reserve, transition, reserved_for_key}
use prayer_rs.Reservations.Counting.{claimed}
use prayer_rs.Reservations.Totals.{the_claims}
use prayer_rs.Reservations.Reserve.{IsAccounted, reserve-IsAccounted, refused_whole}
use prayer_rs.Reservations.Transition.{transition-IsAccounted}
use prayer_rs.Reservations.Reconcile.{Json, reconcile, reconcile-IsAccounted}

-- A status step that does not open a movement again that had ended.
abbrev pub NotReopened : InventoryMovementStatus → InventoryMovementStatus → Type 0
NotReopened old status = (is_active old ≡ true) ⊎ (is_active status ≡ false)

module _ (j : Json) where
  abbrev Ledger : Type 0
  Ledger = InventoryReservationLedger j.Value

  -- A call of one of the sessions. A package comes with a new identifier, and its claims of a key
  -- and its observations fit an `i64`; an ended movement is not opened again.
  pub data Call (l : Ledger) : Ledger → Type 0 where
    reserves :
        (id session : Uuid) (kind : String) (claims : List ResolvedInventoryClaim)
        (uses : List VirtualOrderUse) (context : j.Value) (now : ℤ)
        → lookup id l.movements ≡ none
        → ((k : String) → claimed k (the_claims claims) ≤ i64_max)
        → All (λ r. pos_part r.observed_quantity ≤ i64_max) claims
        → Call l (reserve id session kind claims uses context now l).1
    transitions :
        (id : Uuid) (status : InventoryMovementStatus) (now : ℤ)
        → ((m : InventoryMovement j.Value)
            → lookup id l.movements ≡ some m
            → NotReopened m.status status)
        → Call l (transition id status now l).1
    reconciles :
        (id : Uuid) (reason : String) (now : ℤ)
        → ((m : InventoryMovement j.Value)
            → lookup id l.movements ≡ some m
            → m.status ≢ InventoryMovementStatus.completed)
        → Call l (reconcile j id reason now l).1

  pub data History : Ledger → Type 0 where
    start : History empty_ledger
    next : {l l' : Ledger} → History l → Call l l' → History l'

  start-IsAccounted : IsAccounted (empty_ledger {J = j.Value})
  unfolding reserved_for_key lookup
  start-IsAccounted k = ground arith

  transition-any :
      (id : Uuid) (status : InventoryMovementStatus) (now : ℤ) (l : Ledger)
      → ((m : InventoryMovement j.Value)
          → lookup id l.movements ≡ some m
          → NotReopened m.status status)
      → IsAccounted l
      → (o : Option (InventoryMovement j.Value)) → lookup id l.movements ≡ o
      → IsAccounted (transition id status now l).1
  unfolding transition
  transition-any id status now l ok acc none e = rw (e, transition) acc
  transition-any id status now l ok acc (some m) e =
      elim (Bool-cases (can_transition_to m.status status)) [
        | inl allowed ↦ transition-IsAccounted id status now l m e acc allowed (ok m e)
        | inr refused ↦ rw (e, transition) (rw refused acc)
      ]

  Call-IsAccounted : {l l' : Ledger} → Call l l' → IsAccounted l → IsAccounted l'
  Call-IsAccounted {l} (reserves id session kind claims uses context now fresh small observed) acc =
      elim (Bool-cases (reserve id session kind claims uses context now l).0.accepted) [
        | inl granted ↦
            (reserve-IsAccounted id session kind claims uses context now l acc small observed fresh
              granted).0
        | inr refused ↦ rw (refused_whole id session kind claims uses context now l refused) acc
      ]
  Call-IsAccounted {l} (transitions id status now ok) acc =
      transition-any id status now l ok acc (lookup id l.movements) refl
  Call-IsAccounted {l} (reconciles id reason now ok) acc =
      reconcile-IsAccounted j id reason now l acc ok

  -- After any history of calls from the empty ledger, what is reserved of each key is what the active
  -- movements claim of it, and it fits an `i64`. In the history each package has a new identifier, and
  -- claims of a key and observations that fit an `i64`, and no movement that has ended is opened again.
  pub History-IsAccounted : {l : Ledger} → History l → IsAccounted l
  History-IsAccounted start = start-IsAccounted
  History-IsAccounted (next h c) = Call-IsAccounted c (History-IsAccounted h)
