-- ===== src/Reservations/Transition.antt =====
-- The life of a movement: its status steps, and what they do to the books.
use prayer_rs.Prelude.{
  ℕ, ◌+◌, ◌-◌, ◌≤◌, ◌≡◌, refl, ap, ◌∙◌, String, true, false, some, arith, Bool-cases, inl, inr, ◌⊎◌,
  not, ◌&&◌,
}
use prayer_rs.Prelude.Int.{ℤ, pos}
use prayer_rs.Prelude.Assoc.{nat_Eq, string_Eq, lookup, lookup-insert}
use prayer_rs.Reservations.State.{
  Uuid, InventoryMovementStatus, completed, needs_reconciliation, is_active, can_transition_to,
  InventoryMovement, InventoryReservationLedger,
}
use prayer_rs.Reservations.Ledger.{reserved_for_key, transition}
use prayer_rs.Reservations.Counting.{
  claimed, amount, active, held, active-insert, held-le-active, amount-give_back, Holds,
}
use prayer_rs.Reservations.Reserve.{IsAccounted, accounted}

module _ {J : Type 0} (id : Uuid) (status : InventoryMovementStatus) (now : ℤ)
    (l : InventoryReservationLedger J) (m : InventoryMovement J)
    (found : lookup id l.movements ≡ some m) where
  abbrev moved : InventoryMovement J
  moved = record m { status = status; updated_at_unix = now }

  abbrev after : InventoryReservationLedger J
  after = (transition id status now l).1

  after-active :
      (k : String)
      → can_transition_to m.status status ≡ true
      → active k after.movements + held k m ≡ active k l.movements + held k moved
  unfolding transition
  after-active k allowed = ground (arith, active-insert k id m moved l.movements found)

  -- Reserved amounts after a step that ends the hold of the claims.
  after-ended :
      (a : String → ℕ) (k : String)
      → can_transition_to m.status status ≡ true
      → is_active m.status ≡ true
      → is_active status ≡ false
      → Holds a l.reserved_by_key
      → ((j : String) → claimed j m.claims ≤ a j)
      → amount k after.reserved_by_key ≡ pos (a k - claimed k m.claims)
  unfolding transition
  after-ended a k allowed live ends h le =
      ground (arith, amount-give_back m.claims a l.reserved_by_key h le k)

  after-kept :
      can_transition_to m.status status ≡ true
      → (is_active m.status && not (is_active status)) ≡ false
      → after.reserved_by_key ≡ l.reserved_by_key
  unfolding transition
  after-kept allowed e = ground arith

  -- The claims of an active movement are among what is held.
  held-le : is_active m.status ≡ true → (k : String) → claimed k m.claims ≤ active k l.movements
  held-le a k = ground (arith, held-le-active k id m l.movements found)

  module _ (acc : IsAccounted l) (allowed : can_transition_to m.status status ≡ true) where
    -- On a ledger whose reserved amounts are what its active movements claim, an allowed change of a
    -- movement's status keeps them so. The movement was active before or is not active afterwards.
    pub transition-IsAccounted :
        (is_active m.status ≡ true) ⊎ (is_active status ≡ false) → IsAccounted after
    unfolding reserved_for_key
    transition-IsAccounted held_before k =
        elim (Bool-cases (is_active m.status && not (is_active status))) [
          | inl ends ↦
              let live : is_active m.status ≡ true = ground arith in
              let shut : is_active status ≡ false = ground arith in
              ground (
                arith,
                acc k,
                after-active k allowed,
                after-ended (λ j. active j l.movements) k allowed live shut
                    (λ j. (accounted l acc j, (acc j).1)) (held-le live),
              )
          | inr goes_on ↦ ground (
            arith,
            acc k,
            accounted l acc k,
            after-active k allowed,
            ap (amount k) (after-kept allowed goes_on),
          )
        ]

module _ {J : Type 0} (id : Uuid) (ending : InventoryMovementStatus) (now later : ℤ)
    (l : InventoryReservationLedger J) (m : InventoryMovement J)
    (found : lookup id l.movements ≡ some m) (acc : IsAccounted l)
    (done : m.status ≡ completed) where
  abbrev reopened : InventoryReservationLedger J
  reopened = (transition id needs_reconciliation now l).1

  abbrev closed : InventoryReservationLedger J
  closed = (transition id ending later reopened).1

  abbrev reopened_movement : InventoryMovement J
  reopened_movement = record m { status = needs_reconciliation; updated_at_unix = now }

  reopened-found : lookup id reopened.movements ≡ some reopened_movement
  unfolding transition
  reopened-found = ground (arith, lookup-insert id id reopened_movement l.movements)

  reopened-kept : reopened.reserved_by_key ≡ l.reserved_by_key
  reopened-kept = after-kept id needs_reconciliation now l m found (ground arith) (ground arith)

  reopened-active :
      (k : String) → active k reopened.movements ≡ active k l.movements + claimed k m.claims
  reopened-active k =
      ground (arith, after-active id needs_reconciliation now l m found k (ground arith))

  -- On a ledger whose reserved amounts are what its active movements claim, a completed movement is
  -- opened for reconciliation and then ended. Where the active movements claim at least as much as it
  -- does, what is reserved of each key is then less than what they claim, by the whole of its claims.
  pub closed-short :
      (is_active ending ≡ false)
      → (can_transition_to needs_reconciliation ending ≡ true)
      → ((k : String) → claimed k m.claims ≤ active k l.movements)
      → (k : String)
      → (reserved_for_key closed k ≡ pos (active k l.movements - claimed k m.claims))
        × (active k closed.movements ≡ active k l.movements)
  unfolding reserved_for_key
  closed-short ends allowed others k = (
    after-ended id ending later reopened reopened_movement reopened-found
        (λ j. active j l.movements) k allowed refl ends
        (λ j. (ap (amount j) reopened-kept ∙ accounted l acc j, (acc j).1)) others,
    ground (
      arith,
      reopened-active k,
      after-active id ending later reopened reopened_movement reopened-found k allowed,
    ),
  )
