-- ===== src/Lang/Pipeline/Services.antt =====
-- The statements for repair and refuel: what prayer-lang/src/action_projection.rs shows for their
-- actions is read back.
use prayer_rs.Prelude.{
  ℕ, String, ◌≡◌, refl, false, Option, none, some, List, [], ◌∷◌, arith, ◌==◌, ◌≤◌, u64_max,
}
use prayer_rs.Prelude.Decimal.{print, parse_u64}
use prayer_rs.Prelude.Assoc.{lookup, string_Eq}
use prayer_rs.Actions.{Action}
use prayer_rs.Actions.Requests.{ServiceTransferRequest}
use prayer_rs.Lang.Ast.{Span}
use prayer_rs.Lang.Commands.{command_statement, refuel_to_statement, repair_with_statement}
use prayer_rs.Lang.Compile.Command.{command_action}
use prayer_rs.Lang.Analysis.Program.{arg_kind}
use prayer_rs.Lang.RoundTrip.Trade.{print-not_word}
use prayer_rs.Lang.Projection.Requests.{repair_words, refuel_words}
use prayer_rs.Lang.Pipeline.{read_line, node_actions}
use prayer_rs.Lang.Pipeline.Readable.{IsRepair, IsRefuel, IsTarget, IsOptionalQuantity}
use prayer_rs.Lang.Pipeline.Numbers.{parse_u64-quantity, read_words_as}

abbrev service : Option String → Option ℕ → Option String → ServiceTransferRequest
service target quantity item = record { target = target; quantity = quantity; item = item }

repair_statement :
    (target item : String) (rest : List String) (span : Span)
    → (target == "with") ≡ false
    → command_statement "repair" (target ∷ "with" ∷ item ∷ rest) span
      ≡ repair_with_statement (target ∷ "with" ∷ item ∷ rest) span
unfolding command_statement
repair_statement target item rest span h = ground arith

read_repair_of :
    (target item : Option String) (quantity : Option ℕ) (span : Span)
    → IsRepair target item quantity
    → read_line "repair" (repair_words (service target quantity item)) span
      ≡ some (Action.repair (service target quantity item) ∷ [])
unfolding repair_words read_line lookup node_actions command_statement command_action arg_kind
    repair_with_statement
read_repair_of none none none span h = refl
read_repair_of none none (some q) span h = elim h [ ]
read_repair_of none (some item) q span h = elim h [ ]
read_repair_of (some t) none (some q) span h = elim h [ ]
read_repair_of (some t) none none span h =
    read_words_as "repair" (t ∷ []) "repair" (t ∷ []) span
      (Action.repair (service (some t) none none)) (ground (arith, h)) (tt, tt) refl
read_repair_of (some t) (some item) none span h =
    read_words_as "repair" (t ∷ "with" ∷ item ∷ []) "repair" (t ∷ item ∷ []) span
      (Action.repair (service (some t) none (some item))) (ground (arith, h.0, h.1)) (tt, (tt, tt))
      refl
read_repair_of (some t) (some item) (some q) span h =
    read_words_as "repair" (t ∷ "with" ∷ item ∷ print q ∷ []) "repair" (t ∷ item ∷ print q ∷ [])
      span (Action.repair (service (some t) (some q) (some item))) (ground (arith, h.0, h.1))
      (tt, (tt, ((q, h.2, refl), tt))) (ground (arith, parse_u64-quantity q h.2))

pub read_repair :
    (request : ServiceTransferRequest) (span : Span)
    → IsRepair request.target request.item request.quantity
    → read_line "repair" (repair_words request) span ≡ some (Action.repair request ∷ [])
read_repair request span h = read_repair_of request.target request.item request.quantity span h

print-not_to : (n : ℕ) → n ≤ u64_max → (print n == "to") ≡ false
unfolding parse_u64
print-not_to n = print-not_word "to" n refl

read_refuel_of :
    (target : Option String) (quantity : Option ℕ) (span : Span)
    → IsTarget target
    → IsOptionalQuantity quantity
    → read_line "refuel" (refuel_words (service target quantity none)) span
      ≡ some (Action.refuel (service target quantity none) ∷ [])
unfolding refuel_words read_line lookup node_actions command_statement command_action arg_kind
    refuel_to_statement
read_refuel_of none none span h hq = refl
read_refuel_of none (some q) span h hq =
    read_words_as "refuel" (print q ∷ []) "refuel" (print q ∷ []) span
      (Action.refuel (service none (some q) none)) (ground (arith, print-not_to q (omega arith)))
      (tt, tt) (ground (arith, parse_u64-quantity q hq))
read_refuel_of (some t) none span h hq =
    read_words_as "refuel" ("to" ∷ t ∷ []) "refuel" (t ∷ []) span
      (Action.refuel (service (some t) none none)) (ground arith) (tt, tt) (ground (arith, h))
read_refuel_of (some t) (some q) span h hq =
    read_words_as "refuel" (print q ∷ "to" ∷ t ∷ []) "refuel" (t ∷ print q ∷ []) span
      (Action.refuel (service (some t) (some q) none))
      (ground (arith, print-not_to q (omega arith))) (tt, ((q, hq, refl), tt))
      (ground (arith, h, parse_u64-quantity q hq))

pub read_refuel :
    (request : ServiceTransferRequest) (span : Span)
    → IsRefuel request
    → read_line "refuel" (refuel_words request) span ≡ some (Action.refuel request ∷ [])
unfolding refuel_words
read_refuel request span h =
    rw (h.item) (read_refuel_of request.target request.quantity span h.target h.quantity)
