-- ===== src/Scheduler/Invariant.antt =====
-- What holds of the scheduler of a session at all times.
use prayer_rs.Prelude.{
  ℕ, ◌≡◌, ◌≤◌, Bool, true, false, not, ◌||◌, ◌&&◌, Option, none, some, List, [], ◌∷◌, arith,
  u64_max, is_some, is_nil,
}
use prayer_rs.Scheduler.State.{QueueClaim, RunningAction, Scheduler, new, scheduler_schema_version}
use prayer_rs.Scheduler.Operations.{
  claim, reclaim, append, append_interrupts, replace_interrupt_actions_by_policy, start_next,
  set_continuation, clear_continuation, complete, release, cancel, halt, take_events, authorize,
}
use prayer_rs.Scheduler.Steps.{
  Op, claims, reclaims, appends, interrupts, replaces, starts, sets_continuation,
  clears_continuation, completes, releases, cancels, halts, takes_events, step, run,
}

-- A held claim carries the scheduler's own generation.
abbrev pub ClaimedAt : ℕ → Option QueueClaim → Type 0
ClaimedAt g none = Unit
ClaimedAt g (some c) = c.generation ≡ g

and_true : (b : Bool) → (b && true) ≡ b
and_true b = ground arith

and_assoc : (a b c : Bool) → ((a && b) && c) ≡ (a && (b && c))
and_assoc a b c = ground arith

module _ {J : Type 0} where
  -- Whether the interrupt lane has work, running or waiting.
  abbrev pub interrupted : Scheduler J → Bool
  interrupted s = is_some s.interrupt || not (is_nil s.interrupt_pending)

  abbrev pub PausedWhen : Bool → Option (RunningAction J) → Type 0
  PausedWhen b none = Unit
  PausedWhen b (some r) = r.paused ≡ b

  -- The normal action, if there is one, is paused while the interrupt lane has work, and if `exact`
  -- only then.
  abbrev pub IsPaused : (exact interrupted : Bool) → Option (RunningAction J) → Type 0
  IsPaused true b r = PausedWhen b r
  IsPaused false true r = PausedWhen true r
  IsPaused false false r = Unit

  -- The call is no empty batch of interrupts, which would pause the normal action for nothing.
  abbrev pub is_filled : Op J → Bool
  is_filled (interrupts actions) = not (is_nil actions)
  is_filled _ = true

  abbrev pub all_filled : List (Op J) → Bool
  all_filled [] = true
  all_filled (op ∷ ops) = is_filled op && all_filled ops

  pub record Inv (exact : Bool) (s : Scheduler J) : Type 0 where
    pub open_lanes : s.halted ≡ false
    pub no_reason : s.halt_reason ≡ none
    pub current : s.schema_version ≡ scheduler_schema_version
    pub bounded : s.generation ≤ u64_max
    pub claimed : ClaimedAt s.generation s.claim
    pub paused : IsPaused exact (interrupted s) s.running

  pub new-Inv : Inv true (new {J = J})
  unfolding new
  new-Inv = ground arith

  pub step-Inv :
      {exact : Bool} (op : Op J) (s : Scheduler J)
      → Inv exact s
      → Inv (exact && is_filled op) (step op s)
  unfolding step claim reclaim append append_interrupts replace_interrupt_actions_by_policy
      start_next set_continuation clear_continuation complete release cancel halt take_events
      authorize
  step-Inv {exact = true} (claims o) s v = ground arith
  step-Inv {exact = true} (reclaims g o) s v = ground arith
  step-Inv {exact = true} (appends c actions) s v = ground arith
  step-Inv {exact = true} (interrupts []) s v = ground arith
  step-Inv {exact = true} (interrupts (a ∷ actions)) s v = ground arith
  step-Inv {exact = true} (replaces p r a) s v = ground arith
  step-Inv {exact = true} starts s v = ground arith
  step-Inv {exact = true} (sets_continuation l k) s v = ground arith
  step-Inv {exact = true} (clears_continuation l) s v = ground arith
  step-Inv {exact = true} (completes l o) s v = ground arith
  step-Inv {exact = true} (releases c) s v = ground arith
  step-Inv {exact = true} (cancels c r) s v = ground arith
  step-Inv {exact = true} (halts r) s v = ground arith
  step-Inv {exact = true} takes_events s v = ground arith
  step-Inv {exact = false} (claims o) s v = ground arith
  step-Inv {exact = false} (reclaims g o) s v = ground arith
  step-Inv {exact = false} (appends c actions) s v = ground arith
  step-Inv {exact = false} (interrupts []) s v = ground arith
  step-Inv {exact = false} (interrupts (a ∷ actions)) s v = ground arith
  step-Inv {exact = false} (replaces p r a) s v = ground arith
  step-Inv {exact = false} starts s v = ground arith
  step-Inv {exact = false} (sets_continuation l k) s v = ground arith
  step-Inv {exact = false} (clears_continuation l) s v = ground arith
  step-Inv {exact = false} (completes l o) s v = ground arith
  step-Inv {exact = false} (releases c) s v = ground arith
  step-Inv {exact = false} (cancels c r) s v = ground arith
  step-Inv {exact = false} (halts r) s v = ground arith
  step-Inv {exact = false} takes_events s v = ground arith

  -- A scheduler that satisfies the invariant still satisfies it after any sequence of calls, refused
  -- ones included. That the normal action is paused only while the interrupt lane has work (`exact`)
  -- stays true as long as no call submits an empty batch of interrupts; all else stays true anyway.
  pub run-Inv :
      (s : Scheduler J) (ops : List (Op J)) {exact : Bool}
      → Inv exact s
      → Inv (exact && all_filled ops) (run s ops)
  unfolding run
  run-Inv s [] {exact} v = rw (and_true exact) v
  run-Inv s (op ∷ ops) {exact} v =
      rw (← (and_assoc exact (is_filled op) (all_filled ops)))
        (run-Inv (step op s) ops (step-Inv op s v))
