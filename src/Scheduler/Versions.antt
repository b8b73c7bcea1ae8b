-- ===== src/Scheduler/Versions.antt =====
-- The schema versions of the envelopes that a scheduler holds.
use prayer_rs.Prelude.{List, [], ◌∷◌, ◌++◌, map, String, arith, to_list, All, All-append}
use prayer_rs.Actions.{Action, ActionEnvelope}
use prayer_rs.Scheduler.State.{CompletedAction, Scheduler, new}
use prayer_rs.Scheduler.Operations.{
  claim, reclaim, append, append_interrupts, replace_interrupt_actions_by_policy, start_next,
  set_continuation, clear_continuation, complete, release, cancel, halt, take_events, authorize,
  replace_action,
}
use prayer_rs.Scheduler.Steps.{
  Op, claims, reclaims, appends, interrupts, replaces, starts, sets_continuation,
  clears_continuation, completes, releases, cancels, halts, takes_events, step, run,
}
use prayer_rs.Scheduler.Checkpoint.{checkpoint, IsCurrent, envelopes}

done-append :
    (xs ys : List CompletedAction)
    → All IsCurrent (map (λ d. d.envelope) xs)
    → All IsCurrent (map (λ d. d.envelope) ys)
    → All IsCurrent (map (λ d. d.envelope) (xs ++ ys))
done-append [] ys h k = k
done-append (x ∷ xs) ys h k = (h.0, done-append xs ys h.1 k)

replace-IsCurrent :
    (policy replacement : String) (a : Action) (es : List ActionEnvelope)
    → All IsCurrent es
    → All IsCurrent (map (replace_action policy replacement a) es)
unfolding replace_action
replace-IsCurrent policy replacement a [] h = tt
replace-IsCurrent policy replacement a (e ∷ es) h =
    ground (arith, replace-IsCurrent policy replacement a es h.1)

module _ {J : Type 0} where
  -- Every envelope that the scheduler holds is of the current schema.
  pub record IsVersioned (s : Scheduler J) : Type 0 where
    pub pending : All IsCurrent s.pending
    pub running : All IsCurrent (map (λ r. r.envelope) (to_list s.running))
    pub interrupt_pending : All IsCurrent s.interrupt_pending
    pub interrupt : All IsCurrent (map (λ r. r.envelope) (to_list s.interrupt))
    pub completed : All IsCurrent (map (λ d. d.envelope) s.completed)

  -- The call brings in envelopes of the current schema only.
  abbrev pub BringsCurrent : Op J → Type 0
  BringsCurrent (appends c actions) = All IsCurrent actions
  BringsCurrent (interrupts actions) = All IsCurrent actions
  BringsCurrent _ = Unit

  step-IsVersioned :
      (op : Op J) (s : Scheduler J) → IsVersioned s → BringsCurrent op → IsVersioned (step op s)
  unfolding step claim reclaim append append_interrupts replace_interrupt_actions_by_policy
      start_next set_continuation clear_continuation complete release cancel halt take_events
      authorize
  step-IsVersioned (claims o) s v b = ground arith
  step-IsVersioned (reclaims g o) s v b = ground arith
  step-IsVersioned (appends c actions) s v b =
      ground (arith, All-append IsCurrent s.pending actions v.pending b)
  step-IsVersioned (interrupts actions) s v b =
      ground (arith, All-append IsCurrent s.interrupt_pending actions v.interrupt_pending b)
  step-IsVersioned (replaces p r a) s v b =
      ground (arith, replace-IsCurrent p r a s.interrupt_pending v.interrupt_pending)
  step-IsVersioned starts s v b = ground arith
  step-IsVersioned (sets_continuation l k) s v b = ground arith
  step-IsVersioned (clears_continuation l) s v b = ground arith
  step-IsVersioned (completes l o) s v b = grind (arith, done-append)
  step-IsVersioned (releases c) s v b = ground arith
  step-IsVersioned (cancels c r) s v b = grind (arith, done-append)
  step-IsVersioned (halts r) s v b = grind (arith, done-append)
  step-IsVersioned takes_events s v b = ground arith

  pub run-IsVersioned :
      (s : Scheduler J) (ops : List (Op J))
      → IsVersioned s
      → All BringsCurrent ops
      → IsVersioned (run s ops)
  unfolding run
  run-IsVersioned s [] v b = v
  run-IsVersioned s (op ∷ ops) v b =
      run-IsVersioned (step op s) ops (step-IsVersioned op s v b.0) b.1

  pub new-IsVersioned : IsVersioned (new {J = J})
  unfolding new
  new-IsVersioned = ground arith

  pub envelopes-IsCurrent :
      (s : Scheduler J) → IsVersioned s → All IsCurrent (envelopes (checkpoint s))
  unfolding checkpoint
  envelopes-IsCurrent s v =
      All-append IsCurrent _ _
        (All-append IsCurrent _ _
          (All-append IsCurrent _ _ (All-append IsCurrent _ _ v.pending v.interrupt_pending)
            v.running)
          v.interrupt)
        v.completed
