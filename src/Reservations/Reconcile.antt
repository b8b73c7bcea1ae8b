-- ===== src/Reservations/Reconcile.antt =====
-- `reconcile`, which notes a reason in a movement's context and sets the movement aside. The context
-- is a value of serde_json, taken through the operations of it that the method calls.
use prayer_rs.Prelude.{
  ◌≡◌, ◌≢◌, String, Bool, true, false, Option, none, some, arith, if◌then◌else◌, Option-cases,
  Bool-cases, inl, inr, not,
}
use prayer_rs.Prelude.Int.{ℤ}
use prayer_rs.Prelude.Assoc.{nat_Eq, lookup, insert, lookup-insert}
use prayer_rs.Prelude.Text.{trim, is_empty}
use prayer_rs.Reservations.State.{
  Uuid, InventoryMovementStatus, needs_reconciliation, completed, is_active, can_transition_to,
  InventoryMovement, InventoryReservationLedger,
}
use prayer_rs.Reservations.Ledger.{or_default, reserved_for_key, transition}
use prayer_rs.Reservations.Counting.{active, active-insert}
use prayer_rs.Reservations.Reserve.{IsAccounted}
use prayer_rs.Reservations.Transition.{transition-IsAccounted}

pub record Json : Type 1 where
  pub Value : Type 0
  pub is_object : Value → Bool
  -- `json!({})` and `json!([])`
  pub object : Value
  pub array : Value
  -- `get` and `insert` of a map
  pub field : Value → String → Option Value
  pub set_field : Value → String → Value → Value
  -- `as_array_mut()?.push`, which fails on what is no array
  pub push : Value → Value → Option Value
  -- `json!({"reason": reason, "recordedAtUnix": now})`
  pub audit : String → ℤ → Value

abbrev audit_field : String
audit_field = "reconciliationAudit"

module _ (j : Json) where
  open j use {Value, is_object, object, array, field, set_field, push, audit}

  abbrev pub Ledger : Type 0
  Ledger = InventoryReservationLedger Value

  abbrev set_context : Uuid → InventoryMovement Value → Value → Ledger → Ledger
  set_context id m context l = record l {
    movements = insert id (record m { context = context }) l.movements;
  }

  -- The context, which is made an object if it is none, and its trail, empty at first.
  abbrev normalized : InventoryMovement Value → Value
  normalized m = if is_object m.context then m.context else object

  abbrev audit_trail : InventoryMovement Value → Value
  audit_trail m = or_default array (field (normalized m) audit_field)

  -- What follows once the movement is found.
  unfoldable pub note_reason :
      Uuid
      → String
      → ℤ
      → InventoryMovement Value
      → Ledger
      → Option (InventoryMovement Value) × Ledger
  unfolding transition
  note_reason id reason now m l =
      let context = normalized m in
      let trail = audit_trail m in
      if not (is_object context)
      then (none, set_context id m context l)
      else elim (push trail (audit reason now)) [
        | none ↦ (none, set_context id m (set_field context audit_field trail) l)
        | some longer ↦
            transition id needs_reconciliation now
              (set_context id m (set_field context audit_field longer) l)
      ]

  unfoldable pub reconcile : Uuid → String → ℤ → Ledger → Option (InventoryMovement Value) × Ledger
  unfolding note_reason trim
  reconcile id reason now l =
      if is_empty (trim reason) then (none, l) else elim (lookup id l.movements) [
        | none ↦ (none, l)
        | some m ↦ note_reason id (trim reason) now m l
      ]

  -- Reconciling a movement never changes what is reserved, whether it succeeds or fails.
  pub reconcile-reserved :
      (id : Uuid) (reason : String) (now : ℤ) (l : Ledger)
      → (reconcile id reason now l).1.reserved_by_key ≡ l.reserved_by_key
  unfolding reconcile
  reconcile-reserved id reason now l = ground arith

  same_active :
      (k : String) (id : Uuid) (m : InventoryMovement Value) (context : Value) (l : Ledger)
      → lookup id l.movements ≡ some m
      → active k (set_context id m context l).movements ≡ active k l.movements
  same_active k id m context l found =
      ground (arith, active-insert k id m (record m { context = context }) l.movements found)

  set_context-IsAccounted :
      (id : Uuid) (m : InventoryMovement Value) (context : Value) (l : Ledger)
      → lookup id l.movements ≡ some m
      → IsAccounted l
      → IsAccounted (set_context id m context l)
  unfolding reserved_for_key
  set_context-IsAccounted id m context l found acc k =
      ground (arith, same_active k id m context l found, acc k)

  set_context-found :
      (id : Uuid) (m : InventoryMovement Value) (context : Value) (l : Ledger)
      → lookup id (set_context id m context l).movements ≡ some (record m { context = context })
  set_context-found id m context l =
      ground (arith, lookup-insert id id (record m { context = context }) l.movements)

  refused-same :
      (id : Uuid) (now : ℤ) (m : InventoryMovement Value) (l : Ledger)
      → lookup id l.movements ≡ some m
      → can_transition_to m.status needs_reconciliation ≡ false
      → (transition id needs_reconciliation now l).1 ≡ l
  unfolding transition
  refused-same id now m l found h = ground arith

  mark-IsAccounted :
      (id : Uuid) (now : ℤ) (m : InventoryMovement Value) (l : Ledger)
      → lookup id l.movements ≡ some m
      → IsAccounted l
      → m.status ≢ completed
      → IsAccounted (transition id needs_reconciliation now l).1
  mark-IsAccounted id now m l found acc open_still =
      elim (Bool-cases (can_transition_to m.status needs_reconciliation)) [
        | inl allowed ↦
            transition-IsAccounted id needs_reconciliation now l m found acc allowed
              (inl (live m.status allowed open_still))
        | inr refused ↦ rw (refused-same id now m l found refused) acc
      ]
    where
      live :
          (s : InventoryMovementStatus)
          → can_transition_to s needs_reconciliation ≡ true
          → s ≢ completed
          → is_active s ≡ true
      live s a n = ground arith

  note_reason-IsAccounted :
      (id : Uuid) (reason : String) (now : ℤ) (m : InventoryMovement Value) (l : Ledger)
      → lookup id l.movements ≡ some m
      → IsAccounted l
      → m.status ≢ completed
      → IsAccounted (note_reason id reason now m l).1
  unfolding note_reason
  note_reason-IsAccounted id reason now m l found acc open_still =
      elim (Bool-cases (not (is_object (normalized m)))) [
        | inl e ↦ rw (e, note_reason) (set_context-IsAccounted id m (normalized m) l found acc)
        | inr e ↦ elim (Option-cases (push (audit_trail m) (audit reason now))) [
          | inl p ↦
              rw (e, p, note_reason)
                (set_context-IsAccounted id m (set_field (normalized m) audit_field (audit_trail m))
                  l found acc)
          | inr (longer, p) ↦
              let context = set_field (normalized m) audit_field longer in
              rw (e, p, note_reason)
                (mark-IsAccounted id now (record m { context = context })
                  (set_context id m context l) (set_context-found id m context l)
                  (set_context-IsAccounted id m context l found acc) open_still)
        ]
      ]

  -- On a ledger whose reserved amounts are what its active movements claim, reconciling a movement that
  -- has not completed keeps them so, also where the call fails.
  pub reconcile-IsAccounted :
      (id : Uuid) (reason : String) (now : ℤ) (l : Ledger)
      → IsAccounted l
      → ((m : InventoryMovement Value) → lookup id l.movements ≡ some m → m.status ≢ completed)
      → IsAccounted (reconcile id reason now l).1
  unfolding reconcile
  reconcile-IsAccounted id reason now l acc open_still =
      elim (Bool-cases (is_empty (trim reason))) [
        | inl empty ↦ rw empty acc
        | inr given ↦ rw given (elim (Option-cases (lookup id l.movements)) [
          | inl e ↦ rw (e, reconcile) acc
          | inr (m, e) ↦
              rw (e, reconcile)
                (note_reason-IsAccounted id (trim reason) now m l e acc (open_still m e))
        ])
      ]
