-- ===== src/Reservations/State.antt =====
-- The types of prayer-runtime/src/knowledge/reservations.rs. A `Uuid` is its 128-bit number.
use Prim.Native.String.{◌++◌}
use prayer_rs.Prelude.{ℕ, String, Bool, true, false, Option, none, some, List, []}
use prayer_rs.Prelude.Int.{ℤ}
use prayer_rs.Prelude.Assoc.{Assoc}

abbrev pub Uuid : Type 0
Uuid = ℕ

pub record InventoryClaim : Type 0 where
  pub lot_id : Option String
  pub source_kind : String
  pub owner_id : String
  pub location_id : String
  pub item_id : String
  pub quantity : ℤ

-- `InventoryClaim::key`
unfoldable pub key : InventoryClaim → String
key c = elim c.lot_id [
  | some id ↦ id
  | none ↦ c.source_kind ++ "|" ++ c.owner_id ++ "|" ++ c.location_id ++ "|" ++ c.item_id
]

pub record VirtualOrderUse : Type 0 where
  pub order_id : String
  pub quantity : ℤ

pub data InventoryMovementStatus : Type 0 where
  reserved running completed failed released needs_reconciliation : InventoryMovementStatus

abbrev pub is_active : InventoryMovementStatus → Bool
is_active reserved = true
is_active running = true
is_active needs_reconciliation = true
is_active _ = false

abbrev pub can_transition_to : InventoryMovementStatus → InventoryMovementStatus → Bool
can_transition_to reserved running = true
can_transition_to reserved released = true
can_transition_to reserved failed = true
can_transition_to running completed = true
can_transition_to running failed = true
can_transition_to running needs_reconciliation = true
can_transition_to needs_reconciliation completed = true
can_transition_to needs_reconciliation failed = true
can_transition_to needs_reconciliation released = true
can_transition_to completed released = true
can_transition_to completed needs_reconciliation = true
can_transition_to _ _ = false

-- `J` is the JSON value of the movement's context.
pub record InventoryMovement (J : Type 0) : Type 0 where
  pub movement_id : Uuid
  pub session_id : Uuid
  pub kind : String
  pub status : InventoryMovementStatus
  pub claims : List InventoryClaim
  pub virtual_order_uses : List VirtualOrderUse
  pub context : J
  pub created_at_unix : ℤ
  pub updated_at_unix : ℤ

pub record ResolvedInventoryClaim : Type 0 where
  pub claim : InventoryClaim
  pub observed_quantity : ℤ

pub record InventoryReservationOutcome (J : Type 0) : Type 0 where
  pub accepted : Bool
  pub movement : Option (InventoryMovement J)
  pub unavailable_claims : List InventoryClaim

pub record InventoryReservationLedger (J : Type 0) : Type 0 where
  pub movements : Assoc Uuid (InventoryMovement J)
  pub reserved_by_key : Assoc String ℤ
  pub reservation_order : Assoc Uuid ℕ
  pub next_reservation_order : ℕ

-- `InventoryReservationLedger::default`
abbrev pub empty_ledger : {J : Type 0} → InventoryReservationLedger J
empty_ledger = record {
  movements = [];
  reserved_by_key = [];
  reservation_order = [];
  next_reservation_order = 0;
}
