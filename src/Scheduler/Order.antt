-- ===== src/Scheduler/Order.antt =====
-- The normal lane is a queue: actions start in the order in which they were appended.
use prayer_rs.Prelude.{
  ◌≡◌, refl, sym, ap, ◌∙◌, List, [], ◌∷◌, ◌++◌, append_assoc, append-nil, arith, is_ok,
  if◌then◌else◌, All,
}
use prayer_rs.Actions.{ActionEnvelope}
use prayer_rs.Scheduler.State.{Lane, SchedulerEvent, Scheduler}
use prayer_rs.Scheduler.Operations.{
  claim, reclaim, append, append_interrupts, replace_interrupt_actions_by_policy, start_next,
  set_continuation, clear_continuation, complete, release, cancel, halt, take_events, authorize,
}
use prayer_rs.Scheduler.Steps.{
  Op, claims, reclaims, appends, interrupts, replaces, starts, sets_continuation,
  clears_continuation, completes, releases, cancels, halts, takes_events, attempt, step, run,
}

-- The actions that the events say were started on the normal lane.
abbrev pub begun : List SchedulerEvent → List ActionEnvelope
begun [] = []
begun (SchedulerEvent.started Lane.normal e ∷ es) = e ∷ begun es
begun (_ ∷ es) = begun es

begun-append : (xs ys : List SchedulerEvent) → begun (xs ++ ys) ≡ begun xs ++ begun ys
begun-append [] ys = refl
begun-append (SchedulerEvent.started Lane.normal e ∷ xs) ys = ap (◌∷◌ e) (begun-append xs ys)
begun-append (_ ∷ xs) ys = begun-append xs ys

module _ {J : Type 0} where
  -- The batch that a call puts on the normal lane: none, if the call is refused.
  abbrev pub accepted : Op J → Scheduler J → List ActionEnvelope
  accepted (appends c actions) s = if is_ok (attempt (appends c actions) s).0 then actions else []
  accepted _ s = []

  abbrev pub accepted_all : Scheduler J → List (Op J) → List ActionEnvelope
  accepted_all s [] = []
  accepted_all s (op ∷ ops) = accepted op s ++ accepted_all (step op s) ops

  -- What has started on the normal lane, and then what waits there.
  abbrev pub line : Scheduler J → List ActionEnvelope
  line s = begun s.events ++ s.pending

  -- Calls that neither empty the lane nor take the events away.
  abbrev pub IsLossless : Op J → Type 0
  IsLossless (cancels c r) = ⊥
  IsLossless (halts r) = ⊥
  IsLossless takes_events = ⊥
  IsLossless _ = Unit

  step-line :
      (op : Op J) (s : Scheduler J) → IsLossless op → line (step op s) ≡ line s ++ accepted op s
  unfolding step claim reclaim append append_interrupts replace_interrupt_actions_by_policy
      start_next set_continuation clear_continuation complete release cancel halt take_events
      authorize
  step-line (claims o) s h = grind (arith, begun-append, append_assoc, append-nil)
  step-line (reclaims g o) s h = grind (arith, begun-append, append_assoc, append-nil)
  step-line (appends c actions) s h = grind (arith, begun-append, append_assoc, append-nil)
  step-line (interrupts actions) s h = grind (arith, begun-append, append_assoc, append-nil)
  step-line (replaces p r a) s h = grind (arith, begun-append, append_assoc, append-nil)
  step-line starts s h = grind (arith, begun-append, append_assoc, append-nil)
  step-line (sets_continuation l k) s h = grind (arith, begun-append, append_assoc, append-nil)
  step-line (clears_continuation l) s h = grind (arith, begun-append, append_assoc, append-nil)
  step-line (completes l o) s h = grind (arith, begun-append, append_assoc, append-nil)
  step-line (releases c) s h = grind (arith, begun-append, append_assoc, append-nil)
  step-line _ s h = absurd h

  -- Over any sequence of calls without cancel, halt and take_events the actions started on the normal
  -- lane, followed by those that still wait, are what was there before, followed by the accepted
  -- batches in order.
  pub run-line :
      (s : Scheduler J) (ops : List (Op J))
      → All IsLossless ops
      → line (run s ops) ≡ line s ++ accepted_all s ops
  unfolding run
  run-line s [] h = sym (append-nil (line s))
  run-line s (op ∷ ops) h =
      run-line (step op s) ops h.1
      ∙ (rw (step-line op s h.0)
          (append_assoc (line s) (accepted op s) (accepted_all (step op s) ops)))
