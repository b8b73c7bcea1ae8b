-- ===== src/Scheduler/Restart.antt =====
-- A session that is saved and restored goes on as if it had not been.
use prayer_rs.Prelude.{
  ◌≡◌, refl, List, [], ◌∷◌, ◌++◌, arith, Result, ok, All, Bool, true, false, sym, append_assoc,
  append-nil,
}
use prayer_rs.Scheduler.State.{SchedulerEvent, SchedulerError, Scheduler, new}
use prayer_rs.Scheduler.Operations.{
  claim, reclaim, append, append_interrupts, replace_interrupt_actions_by_policy, start_next,
  set_continuation, clear_continuation, complete, release, cancel, halt, take_events, authorize,
}
use prayer_rs.Scheduler.Steps.{
  Answer, taken, Op, claims, reclaims, appends, interrupts, replaces, starts, sets_continuation,
  clears_continuation, completes, releases, cancels, halts, takes_events, attempt, step, run,
}
use prayer_rs.Scheduler.Invariant.{Inv, all_filled, run-Inv, new-Inv}
use prayer_rs.Scheduler.Versions.{
  BringsCurrent, run-IsVersioned, new-IsVersioned, envelopes-IsCurrent,
}
use prayer_rs.Scheduler.Checkpoint.{
  checkpoint, from_checkpoint, restarted, from_checkpoint-checkpoint,
}

-- An answer with `es` in front, if it is a list of events.
abbrev pub give : List SchedulerEvent → Result SchedulerError Answer → Result SchedulerError Answer
give es (ok (taken later)) = ok (taken (es ++ later))
give es answer = answer

-- The events that are still to be given after an answer.
abbrev pub left : List SchedulerEvent → Result SchedulerError Answer → List SchedulerEvent
left es (ok (taken later)) = []
left es answer = es

-- The answers with `es` in front of the first list of events among them.
abbrev pub with_events :
    List SchedulerEvent → List (Result SchedulerError Answer) → List (Result SchedulerError Answer)
with_events es [] = []
with_events es (answer ∷ answers) = give es answer ∷ with_events (left es answer) answers

module _ {J : Type 0} where
  -- The same but for the events.
  pub record SameWork (s t : Scheduler J) : Type 0 where
    pub schema_version : s.schema_version ≡ t.schema_version
    pub generation : s.generation ≡ t.generation
    pub claim : s.claim ≡ t.claim
    pub pending : s.pending ≡ t.pending
    pub running : s.running ≡ t.running
    pub interrupt_pending : s.interrupt_pending ≡ t.interrupt_pending
    pub interrupt : s.interrupt ≡ t.interrupt
    pub completed : s.completed ≡ t.completed
    pub halted : s.halted ≡ t.halted
    pub halt_reason : s.halt_reason ≡ t.halt_reason

  step-SameWork : (op : Op J) (s t : Scheduler J) → SameWork s t → SameWork (step op s) (step op t)
  unfolding step claim reclaim append append_interrupts replace_interrupt_actions_by_policy
      start_next set_continuation clear_continuation complete release cancel halt take_events
      authorize
  step-SameWork (claims o) s t w = ground arith
  step-SameWork (reclaims g o) s t w = ground arith
  step-SameWork (appends c actions) s t w = ground arith
  step-SameWork (interrupts actions) s t w = ground arith
  step-SameWork (replaces p r a) s t w = ground arith
  step-SameWork starts s t w = ground arith
  step-SameWork (sets_continuation l k) s t w = ground arith
  step-SameWork (clears_continuation l) s t w = ground arith
  step-SameWork (completes l o) s t w = ground arith
  step-SameWork (releases c) s t w = ground arith
  step-SameWork (cancels c r) s t w = ground arith
  step-SameWork (halts r) s t w = ground arith
  step-SameWork takes_events s t w = ground arith

  -- The same but for `es`, the events that the one has over the other.
  record Ahead (es : List SchedulerEvent) (s t : Scheduler J) : Type 0 where
    work : SameWork s t
    events : s.events ≡ es ++ t.events

  attempt-SameWork :
      (op : Op J) (es : List SchedulerEvent) (s t : Scheduler J)
      → Ahead es s t
      → (attempt op s).0 ≡ give es (attempt op t).0
  unfolding attempt claim reclaim append append_interrupts replace_interrupt_actions_by_policy
      start_next set_continuation clear_continuation complete release cancel halt take_events
      authorize
  attempt-SameWork (claims o) es s t w = ground (arith, w.work)
  attempt-SameWork (reclaims g o) es s t w = ground (arith, w.work)
  attempt-SameWork (appends c actions) es s t w = ground (arith, w.work)
  attempt-SameWork (interrupts actions) es s t w = ground (arith, w.work)
  attempt-SameWork (replaces p r a) es s t w = ground (arith, w.work)
  attempt-SameWork starts es s t w = ground (arith, w.work)
  attempt-SameWork (sets_continuation l k) es s t w = ground (arith, w.work)
  attempt-SameWork (clears_continuation l) es s t w = ground (arith, w.work)
  attempt-SameWork (completes l o) es s t w = ground (arith, w.work)
  attempt-SameWork (releases c) es s t w = ground (arith, w.work)
  attempt-SameWork (cancels c r) es s t w = ground (arith, w.work)
  attempt-SameWork (halts r) es s t w = ground (arith, w.work)
  attempt-SameWork takes_events es s t w = ground (arith, w.work)

  step-events :
      (op : Op J) (es : List SchedulerEvent) (s t : Scheduler J)
      → Ahead es s t
      → (step op s).events ≡ left es (attempt op t).0 ++ (step op t).events
  unfolding step attempt claim reclaim append append_interrupts replace_interrupt_actions_by_policy
      start_next set_continuation clear_continuation complete release cancel halt take_events
      authorize
  step-events (claims o) es s t w = grind (arith, w.work, append_assoc)
  step-events (reclaims g o) es s t w = grind (arith, w.work, append_assoc)
  step-events (appends c actions) es s t w = grind (arith, w.work, append_assoc)
  step-events (interrupts actions) es s t w = grind (arith, w.work, append_assoc)
  step-events (replaces p r a) es s t w = grind (arith, w.work, append_assoc)
  step-events starts es s t w = grind (arith, w.work, append_assoc)
  step-events (sets_continuation l k) es s t w = grind (arith, w.work, append_assoc)
  step-events (clears_continuation l) es s t w = grind (arith, w.work, append_assoc)
  step-events (completes l o) es s t w = grind (arith, w.work, append_assoc)
  step-events (releases c) es s t w = grind (arith, w.work, append_assoc)
  step-events (cancels c r) es s t w = grind (arith, w.work, append_assoc)
  step-events (halts r) es s t w = grind (arith, w.work, append_assoc)
  step-events takes_events es s t w = grind (arith, w.work, append_assoc)

  step-Ahead :
      (op : Op J) (es : List SchedulerEvent) (s t : Scheduler J)
      → Ahead es s t
      → Ahead (left es (attempt op t).0) (step op s) (step op t)
  step-Ahead op es s t w = record {
    work = step-SameWork op s t w.work;
    events = step-events op es s t w;
  }

  -- What the calls return, one after the other.
  abbrev pub reports : Scheduler J → List (Op J) → List (Result SchedulerError Answer)
  reports s [] = []
  reports s (op ∷ ops) = (attempt op s).0 ∷ reports (step op s) ops

  reports-Ahead :
      (es : List SchedulerEvent) (s t : Scheduler J) (ops : List (Op J))
      → Ahead es s t
      → reports s ops ≡ with_events es (reports t ops)
  reports-Ahead es s t [] w = refl
  reports-Ahead es s t (op ∷ ops) w =
      rw
        (
          attempt-SameWork op es s t w,
          reports-Ahead (left es (attempt op t).0) (step op s) (step op t) ops
              (step-Ahead op es s t w),
        )
        refl

  run-SameWork :
      (s t : Scheduler J) (ops : List (Op J)) → SameWork s t → SameWork (run s ops) (run t ops)
  unfolding run
  run-SameWork s t [] w = w
  run-SameWork s t (op ∷ ops) w = run-SameWork (step op s) (step op t) ops (step-SameWork op s t w)

  restarted-Ahead : {exact : Bool} (s : Scheduler J) → Inv exact s → Ahead s.events s (restarted s)
  restarted-Ahead s v = record { work = ground arith; events = sym (append-nil s.events) }

  restarted-Inv : {exact : Bool} (s : Scheduler J) → Inv exact s → Inv exact (restarted s)
  restarted-Inv {exact = true} s v = ground arith
  restarted-Inv {exact = false} s v = ground arith

  -- A session that began with a new scheduler, and into which only envelopes of the current schema
  -- came, can be saved at any time. The scheduler restored from the checkpoint keeps the invariant,
  -- exactly if no batch of interrupts was empty. All later calls return the values that they would return without the restart, errors included,
  -- and leave the same work; only the events that waited at the checkpoint are gone, so that the first
  -- `take_events` returns those after it alone.
  pub restart-same :
      (past future : List (Op J))
      → All BringsCurrent past
      → (t : Scheduler J) × (from_checkpoint (checkpoint (run new past)) ≡ ok t)
        × Inv (all_filled past) t
        × (reports (run new past) future ≡ with_events (run new past).events (reports t future))
        × SameWork (run (run new past) future) (run t future)
  restart-same past future b =
      let s = run new past in
      let v : Inv (all_filled past) s = run-Inv new past new-Inv in
      let ahead = restarted-Ahead s v in
      (
        restarted s,
        from_checkpoint-checkpoint s v.current
            (envelopes-IsCurrent s (run-IsVersioned new past new-IsVersioned b)),
        restarted-Inv s v,
        reports-Ahead s.events s (restarted s) future ahead,
        run-SameWork s (restarted s) future ahead.work,
      )
