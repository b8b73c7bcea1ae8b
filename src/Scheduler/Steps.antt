-- ===== src/Scheduler/Steps.antt =====
-- A session's scheduler driven by a sequence of calls. Each call that changes the state is an `Op`.
use prayer_rs.Prelude.{ℕ, ◌≡◌, Option, List, [], ◌∷◌, String, arith, ok, err}
use prayer_rs.Actions.{Action, ActionEnvelope, ContinuationEnvelope, ActionOutcome}
use prayer_rs.Scheduler.State.{
  QueueOwner, QueueClaim, Lane, CompletedAction, SchedulerEvent, SchedulerError, Scheduler,
}
use prayer_rs.Scheduler.Operations.{
  Ran, claim, reclaim, append, append_interrupts, replace_interrupt_actions_by_policy, start_next,
  set_continuation, clear_continuation, complete, release, cancel, halt, take_events,
}

pub data Op (J : Type 0) : Type 0 where
  claims : QueueOwner → Op J
  reclaims : ℕ → QueueOwner → Op J
  appends : QueueClaim → List ActionEnvelope → Op J
  interrupts : List ActionEnvelope → Op J
  replaces : String → String → Action → Op J
  starts : Op J
  sets_continuation : Lane → ContinuationEnvelope J → Op J
  clears_continuation : Lane → Op J
  completes : Lane → ActionOutcome → Op J
  releases : QueueClaim → Op J
  cancels : QueueClaim → String → Op J
  halts : String → Op J
  takes_events : Op J

-- The value that a call returns.
pub data Answer : Type 0 where
  no_value : Answer
  claimed : QueueClaim → Answer
  started : Option (Lane × ActionEnvelope) → Answer
  ended : CompletedAction → Answer
  taken : List SchedulerEvent → Answer

module _ {J : Type 0} where
  abbrev pub answering : {A : Type 0} → (A → Answer) → Ran J A → Ran J Answer
  answering f (ok a, s) = (ok (f a), s)
  answering f (err e, s) = (err e, s)

  unfoldable pub attempt : Op J → Scheduler J → Ran J Answer
  attempt (claims o) s = answering claimed (claim o s)
  attempt (reclaims g o) s = answering claimed (reclaim g o s)
  attempt (appends c actions) s = answering (λ _. no_value) (append c actions s)
  attempt (interrupts actions) s = answering (λ _. no_value) (append_interrupts actions s)
  attempt (replaces p r a) s = (ok no_value, replace_interrupt_actions_by_policy p r a s)
  attempt starts s = answering started (start_next s)
  attempt (sets_continuation l k) s = answering (λ _. no_value) (set_continuation l k s)
  attempt (clears_continuation l) s = answering (λ _. no_value) (clear_continuation l s)
  attempt (completes l o) s = answering ended (complete l o s)
  attempt (releases c) s = answering (λ _. no_value) (release c s)
  attempt (cancels c r) s = answering (λ _. no_value) (cancel c r s)
  attempt (halts r) s = (ok no_value, halt r s)
  attempt takes_events s = let (events, s') = take_events s in (ok (taken events), s')

  unfoldable pub step : Op J → Scheduler J → Scheduler J
  unfolding attempt
  step op s = (attempt op s).1

  unfoldable pub run : Scheduler J → List (Op J) → Scheduler J
  run s [] = s
  run s (op ∷ ops) = run (step op s) ops

  -- A call that reports an error has changed nothing.
  pub attempt-err :
      (op : Op J) (s : Scheduler J) (e : SchedulerError) (t : Scheduler J)
      → attempt op s ≡ (err e, t)
      → t ≡ s
  unfolding attempt claim reclaim append append_interrupts start_next set_continuation
      clear_continuation complete release cancel
  attempt-err (claims o) s e t h = ground arith
  attempt-err (reclaims g o) s e t h = ground arith
  attempt-err (appends c actions) s e t h = ground arith
  attempt-err (interrupts actions) s e t h = ground arith
  attempt-err starts s e t h = ground arith
  attempt-err (sets_continuation l k) s e t h = ground arith
  attempt-err (clears_continuation l) s e t h = ground arith
  attempt-err (completes l o) s e t h = ground arith
  attempt-err (releases c) s e t h = ground arith
  attempt-err (cancels c r) s e t h = ground arith
  attempt-err _ s e t h = ground arith
