-- ===== src/Reservations/Ledger.antt =====
-- The methods of `impl InventoryReservationLedger`, and `summed_virtual_order_uses`.
use prayer_rs.Prelude.{
  String, Bool, true, false, not, ◌&&◌, ◌||◌, Option, none, some, List, [], ◌∷◌, map, if◌then◌else◌,
  is_nil,
}
use prayer_rs.Prelude.Tests.{saturating_add as saturating_add_u64}
use prayer_rs.Prelude.Int.{
  ℤ, pos, ltb_ℤ, leb_ℤ, min_ℤ, max_ℤ, saturating_add, saturating_sub, wrapping_add,
}
use prayer_rs.Prelude.Assoc.{Assoc, nat_Eq, string_Eq, lookup, insert, remove}
use prayer_rs.Prelude.Text.{trim, is_empty}
use prayer_rs.Reservations.State.{
  Uuid, InventoryClaim, key, VirtualOrderUse, InventoryMovementStatus, is_active, can_transition_to,
  InventoryMovement, ResolvedInventoryClaim, InventoryReservationOutcome,
  InventoryReservationLedger,
}

-- `.copied().unwrap_or(d)`
abbrev pub or_default {ℓ} : {A : Type ℓ} → A → Option A → A
or_default d none = d
or_default d (some a) = a

-- The loop of `summed_virtual_order_uses`, over the sums so far.
unfoldable pub sum_uses : Assoc String ℤ → List VirtualOrderUse → Assoc String ℤ
unfolding trim
sum_uses summed [] = summed
sum_uses summed (u ∷ us) =
    let id = trim u.order_id in
    sum_uses
      (if is_empty id || leb_ℤ u.quantity (pos 0)
        then summed
        else insert id (saturating_add (or_default (pos 0) (lookup id summed)) u.quantity) summed)
      us

unfoldable pub summed_virtual_order_uses : List VirtualOrderUse → Assoc String ℤ
unfolding sum_uses
summed_virtual_order_uses = sum_uses []

-- The requested and the observed quantity of one key.
abbrev pub Total : Type 0
Total = ℤ × ℤ

-- The new total of a claim's key; the old one is `none` for the first claim with that key.
unfoldable pub next_total : Option Total → ResolvedInventoryClaim → Total
next_total old r =
    let observed = max_ℤ r.observed_quantity (pos 0) in
    let (requested, least) = or_default (pos 0, observed) old in
    (saturating_add requested (max_ℤ r.claim.quantity (pos 0)), min_ℤ least observed)

-- One round of the first loop of `reserve`.
unfoldable pub add_total : ResolvedInventoryClaim → Assoc String Total → Assoc String Total
add_total r totals = insert (key r.claim) (next_total (lookup (key r.claim) totals) r) totals

unfoldable pub sum_totals : Assoc String Total → List ResolvedInventoryClaim → Assoc String Total
unfolding add_total
sum_totals totals [] = totals
sum_totals totals (r ∷ rs) = sum_totals (add_total r totals) rs

-- The loop of `reserve` that enters the totals of an accepted package.
unfoldable pub enter_totals : Assoc String Total → Assoc String ℤ → Assoc String ℤ
enter_totals [] reserved = reserved
enter_totals ((k, (quantity, _)) ∷ totals) reserved =
    enter_totals totals
      (insert k (wrapping_add (or_default (pos 0) (lookup k reserved)) quantity) reserved)

-- One round of the loop of `transition` that gives the claims of a movement back.
unfoldable pub give_back_one : InventoryClaim → Assoc String ℤ → Assoc String ℤ
give_back_one c reserved = elim (lookup (key c) reserved) [
  | none ↦ reserved
  | some quantity ↦
      let left = saturating_sub quantity (max_ℤ c.quantity (pos 0)) in
      if leb_ℤ left (pos 0) && leb_ℤ (pos 0) left
      then remove (key c) reserved
      else insert (key c) left reserved
]

unfoldable pub give_back : List InventoryClaim → Assoc String ℤ → Assoc String ℤ
unfolding give_back_one
give_back [] reserved = reserved
give_back (c ∷ cs) reserved = give_back cs (give_back_one c reserved)

module _ {J : Type 0} where
  unfoldable pub reserved_for_key : InventoryReservationLedger J → String → ℤ
  reserved_for_key l k = or_default (pos 0) (lookup k l.reserved_by_key)

  unfoldable pub is_unavailable :
      InventoryReservationLedger J → Assoc String Total → ResolvedInventoryClaim → Bool
  unfolding reserved_for_key
  is_unavailable l totals r =
      let (requested, observed) = or_default (pos 0, pos 0) (lookup (key r.claim) totals) in
      leb_ℤ r.claim.quantity (pos 0)
      || ltb_ℤ (saturating_sub observed (reserved_for_key l (key r.claim))) requested

  -- The second loop of `reserve`.
  unfoldable pub unavailable :
      InventoryReservationLedger J
      → Assoc String Total
      → List ResolvedInventoryClaim
      → List InventoryClaim
  unfolding is_unavailable
  unavailable l totals [] = []
  unavailable l totals (r ∷ rs) =
      let rest = unavailable l totals rs in
      if is_unavailable l totals r then r.claim ∷ rest else rest

  abbrev pub new_movement :
      Uuid
      → Uuid
      → String
      → List ResolvedInventoryClaim
      → List VirtualOrderUse
      → J
      → ℤ
      → InventoryMovement J
  new_movement id session kind claims uses context now = record {
    movement_id = id;
    session_id = session;
    kind = trim kind;
    status = InventoryMovementStatus.reserved;
    claims = map (λ r. r.claim) claims;
    virtual_order_uses = uses;
    context = context;
    created_at_unix = now;
    updated_at_unix = now;
  }

  -- `id` is the new identifier that `Uuid::new_v4` returns.
  unfoldable pub reserve :
      (id session : Uuid) (kind : String) (claims : List ResolvedInventoryClaim)
      → List VirtualOrderUse
      → J
      → ℤ
      → InventoryReservationLedger J
      → InventoryReservationOutcome J × InventoryReservationLedger J
  unfolding sum_totals enter_totals unavailable trim
  reserve id session kind claims uses context now l =
      let totals = sum_totals [] claims in
      let missing = unavailable l totals claims in
      let movement = new_movement id session kind claims uses context now in
      if (not (is_nil claims) || not (is_nil uses)) && is_nil missing
      then (
        record { accepted = true; movement = some movement; unavailable_claims = [] },
        record {
          movements = insert id movement l.movements;
          reserved_by_key = enter_totals totals l.reserved_by_key;
          reservation_order = insert id l.next_reservation_order l.reservation_order;
          next_reservation_order = saturating_add_u64 l.next_reservation_order 1;
        },
      )
      else (record { accepted = false; movement = none; unavailable_claims = missing }, l)

  unfoldable pub transition :
      Uuid
      → InventoryMovementStatus
      → ℤ
      → InventoryReservationLedger J
      → Option (InventoryMovement J) × InventoryReservationLedger J
  unfolding give_back
  transition id status now l = elim (lookup id l.movements) [
    | none ↦ (none, l)
    | some m ↦
        let moved = record m { status = status; updated_at_unix = now } in
        if not (can_transition_to m.status status) then (none, l) else (
          some moved,
          record l {
            movements = insert id moved l.movements;
            reserved_by_key =
                if is_active m.status && not (is_active status)
                then give_back m.claims l.reserved_by_key
                else l.reserved_by_key;
          },
        )
  ]
