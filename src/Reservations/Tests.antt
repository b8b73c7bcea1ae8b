-- ===== src/Reservations/Tests.antt =====
-- Two sessions that reserve ore at the same place.
use prayer_rs.Prelude.{
  ℕ, ◌-◌, ◌+◌, ◌≤◌, ◌<◌, ◌≡◌, ◌≢◌, refl, ap, ◌∙◌, String, true, false, Option, none, some, List, [],
  ◌∷◌, ◌++◌, arith, inl, inr, All,
}
use prayer_rs.Prelude.Int.{
  ℤ, pos, pos_part, ◌≤ℤ◌, i64_max, saturating_add, saturating_sub, wrapping_add,
}
use mathlib.Core.List.{Memᴰ}
use prayer_rs.Prelude.Assoc.{nat_Eq, string_Eq, lookup, insert, remove}
use prayer_rs.Reservations.State.{
  key, InventoryMovementStatus, is_active, ResolvedInventoryClaim, InventoryMovement,
  InventoryReservationLedger, empty_ledger,
}
use prayer_rs.Reservations.Ledger.{
  reserve, transition, reserved_for_key, new_movement, add_total, next_total,
}
use prayer_rs.Reservations.Counting.{claimed, active}
use prayer_rs.Reservations.Totals.{the_claims}
use prayer_rs.Reservations.Reserve.{IsAccounted, reserve-IsAccounted}
use prayer_rs.Reservations.Refused.{reserve-refused}
use prayer_rs.Reservations.Transition.{transition-IsAccounted, closed-short}
use prayer_rs.Reservations.Reconcile.{Json, reconcile, reconcile-reserved, reconcile-IsAccounted}
use prayer_rs.Reservations.History.{
  History, start, next, reserves, transitions, History-IsAccounted,
}

-- A context that is its own list of notes.
abbrev notes : Json
notes = record {
  Value = List (String × ℤ);
  is_object = λ v. true;
  object = [];
  array = [];
  field = λ v name. some v;
  set_field = λ v name w. w;
  push = λ v w. some (v ++ w);
  audit = λ reason now. (reason, now) ∷ [];
}

abbrev Ledger : Type 0
Ledger = InventoryReservationLedger (List (String × ℤ))

abbrev ore : ℕ → ResolvedInventoryClaim
ore n = record {
  claim = record {
    lot_id = some "lot";
    source_kind = "cargo";
    owner_id = "p1";
    location_id = "sol";
    item_id = "ore";
    quantity = pos n;
  };
  observed_quantity = pos 10;
}

ore-key : (n : ℕ) → key (ore n).claim ≡ "lot"
unfolding key
ore-key n = refl

ore-small : (k : String) → claimed k (the_claims (ore 7 ∷ [])) ≤ i64_max
ore-small k = ground arith

ore-small_five : (k : String) → claimed k (the_claims (ore 5 ∷ [])) ≤ i64_max
ore-small_five k = ground arith

empty-IsAccounted : IsAccounted (empty_ledger {J = List (String × ℤ)})
empty-IsAccounted = History-IsAccounted notes start

found_once :
    {o : Option (InventoryMovement (List (String × ℤ)))} {n : InventoryMovement (List (String × ℤ))}
    (m : InventoryMovement (List (String × ℤ)))
    → o ≡ some m
    → o ≡ some n
    → m ≡ n
found_once m e f = cc

reserved_five : Ledger
unfolding reserve transition key add_total next_total lookup insert saturating_add saturating_sub
    wrapping_add remove
reserved_five = (reserve 1 100 " trade " (ore 5 ∷ []) [] [] (pos 1) empty_ledger).1

abbrev ran : Ledger
ran = (transition 1 InventoryMovementStatus.running (pos 2) reserved_five).1

abbrev finished : Ledger
finished = (transition 1 InventoryMovementStatus.completed (pos 3) ran).1

abbrev both : Ledger
both = (reserve 2 200 "trade" (ore 7 ∷ []) [] [] (pos 4) finished).1

abbrev first_movement : InventoryMovement (List (String × ℤ))
first_movement = record (new_movement 1 100 " trade " (ore 5 ∷ []) [] [] (pos 1)) {
  status = InventoryMovementStatus.completed;
  updated_at_unix = pos 3;
}

reserved-History : History notes reserved_five
unfolding reserved_five
reserved-History =
    next start
      (reserves 1 100 " trade " (ore 5 ∷ []) [] [] (pos 1) refl ore-small_five (omega arith))

reserved-found :
    lookup 1 reserved_five.movements
    ≡ some (new_movement {J = List (String × ℤ)} 1 100 " trade " (ore 5 ∷ []) [] [] (pos 1))
unfolding reserved_five
reserved-found = refl

ran-found :
    lookup 1 ran.movements
    ≡ some
        (record (new_movement {J = List (String × ℤ)} 1 100 " trade " (ore 5 ∷ []) [] [] (pos 1)) {
          status = InventoryMovementStatus.running;
          updated_at_unix = pos 2;
        })
unfolding reserved_five
ran-found = refl

finished-fresh : lookup 2 finished.movements ≡ none
unfolding reserved_five
finished-fresh = refl

-- The first movement is reserved, runs and completes, and then the second is reserved.
both-History : History notes both
both-History =
    next
      (next
        (next reserved-History (
          transitions 1 InventoryMovementStatus.running (pos 2)
            (λ m e. inl (ap (λ n. is_active n.status) (found_once m e reserved-found)))))
        (transitions 1 InventoryMovementStatus.completed (pos 3) (λ m e. inr refl)))
      (reserves 2 200 "trade" (ore 7 ∷ []) [] [] (pos 4) finished-fresh ore-small (omega arith))

History-IsAccounted_example : IsAccounted both
History-IsAccounted_example = History-IsAccounted notes both-History

granted :
    (reserve 1 100 " trade "
      (ore 5 ∷ [])
      []
      []
      (pos 1)
      (empty_ledger {J = List (String × ℤ)})).0.accepted
    ≡ true
unfolding reserved_five
granted = refl

reserve-IsAccounted_example :
    IsAccounted reserved_five
    × All
        (λ r. reserved_for_key reserved_five (key r.claim) ≤ℤ pos (pos_part r.observed_quantity))
        (ore 5 ∷ [])
unfolding reserved_five
reserve-IsAccounted_example =
    reserve-IsAccounted {J = List (String × ℤ)} 1 100 " trade " (ore 5 ∷ []) [] [] (pos 1)
      empty_ledger empty-IsAccounted ore-small_five (omega arith) refl granted

ore-small_six : (k : String) → claimed k (the_claims (ore 6 ∷ [])) ≤ i64_max
ore-small_six k = ground arith

too_much :
    pos_part (ore 6).observed_quantity
    < active (key (ore 6).claim) reserved_five.movements
      + claimed (key (ore 6).claim) (the_claims (ore 6 ∷ []))
unfolding reserved_five
too_much = omega arith

reserve-refused_example :
    let outcome = reserve 3 300 "trade" (ore 6 ∷ []) [] [] (pos 5) reserved_five in
    (outcome.0.accepted ≡ false)
    × (outcome.1 ≡ reserved_five)
    × (outcome.0.movement ≡ none)
    × Memᴰ (ore 6).claim outcome.0.unavailable_claims
reserve-refused_example =
    reserve-refused 3 300 "trade" (ore 6 ∷ []) [] [] (pos 5) reserved_five (ore 6)
      (History-IsAccounted notes reserved-History) ore-small_six (Memᴰ.head refl) (inr too_much)

transition-IsAccounted_example : IsAccounted ran
transition-IsAccounted_example =
    transition-IsAccounted 1 InventoryMovementStatus.running (pos 2) reserved_five
      (new_movement 1 100 " trade " (ore 5 ∷ []) [] [] (pos 1)) reserved-found
      (History-IsAccounted notes reserved-History) refl (inl refl)

both-found : lookup 1 both.movements ≡ some first_movement
unfolding reserved_five
both-found = refl

both-active : (k : String) → claimed k first_movement.claims ≤ active k both.movements
unfolding reserved_five
both-active k = ground arith

-- Seven units stay reserved for the second movement, but the ledger counts two.
closed-short_example :
    let reopened = (transition 1 InventoryMovementStatus.needs_reconciliation (pos 5) both).1 in
    let closed = (transition 1 InventoryMovementStatus.released (pos 6) reopened).1 in
    (reserved_for_key closed "lot"
      ≡ pos (active "lot" both.movements - claimed "lot" first_movement.claims))
    × (active "lot" closed.movements ≡ active "lot" both.movements)
closed-short_example =
    closed-short 1 InventoryMovementStatus.released (pos 5) (pos 6) both first_movement both-found
      (History-IsAccounted notes both-History) refl refl refl both-active "lot"

reconcile-reserved_example :
    (reconcile notes 1 "lost" (pos 3) ran).1.reserved_by_key ≡ ran.reserved_by_key
reconcile-reserved_example = reconcile-reserved notes 1 "lost" (pos 3) ran

running≢completed : InventoryMovementStatus.running ≢ InventoryMovementStatus.completed
running≢completed e = cc

ran-IsAccounted : IsAccounted ran
ran-IsAccounted = History-IsAccounted notes (
    next reserved-History (
      transitions 1 InventoryMovementStatus.running (pos 2)
        (λ m e. inl (ap (λ n. is_active n.status) (found_once m e reserved-found)))))

reconcile-IsAccounted_example : IsAccounted (reconcile notes 1 "lost" (pos 3) ran).1
reconcile-IsAccounted_example =
    reconcile-IsAccounted notes 1 "lost" (pos 3) ran ran-IsAccounted
      (λ m e done. running≢completed (ap (λ n. n.status) (found_once _ ran-found e) ∙ done))
