-- ===== src/Scheduler/Conservation.antt =====
-- No action is lost or made up: each that was taken in waits, runs or has ended, once, unless a
-- cancellation or a halt dropped it while it waited, or it was replaced by policy. Envelopes are
-- counted whole, by any test on them.
use prayer_rs.Prelude.{
  ℕ, suc, ◌+◌, ◌≡◌, Bool, Option, none, some, List, [], ◌∷◌, ◌++◌, map, arith, is_ok, if◌then◌else◌,
}
use prayer_rs.Actions.{ActionEnvelope}
use prayer_rs.Scheduler.State.{RunningAction, CompletedAction, Scheduler}
use prayer_rs.Scheduler.Operations.{
  claim, reclaim, append, append_interrupts, replace_interrupt_actions_by_policy, start_next,
  set_continuation, clear_continuation, complete, release, cancel, halt, take_events, authorize,
  replace_action,
}
use prayer_rs.Scheduler.Steps.{
  Op, claims, reclaims, appends, interrupts, replaces, starts, sets_continuation,
  clears_continuation, completes, releases, cancels, halts, takes_events, attempt, step,
}

module _ (p : ActionEnvelope → Bool) where
  -- How many of the actions pass `p`.
  abbrev pub count : List ActionEnvelope → ℕ
  count [] = 0
  count (e ∷ es) = if p e then suc (count es) else count es

  abbrev pub count_running : {J : Type 0} → Option (RunningAction J) → ℕ
  count_running none = 0
  count_running (some r) = count (r.envelope ∷ [])

  abbrev pub count_done : List CompletedAction → ℕ
  count_done [] = 0
  count_done (d ∷ ds) = count (d.envelope ∷ []) + count_done ds

  pub count-append : (xs ys : List ActionEnvelope) → count (xs ++ ys) ≡ count xs + count ys
  count-append [] ys = omega arith
  count-append (x ∷ xs) ys = ground (arith, count-append xs ys)

  pub count_done-append :
      (xs ys : List CompletedAction) → count_done (xs ++ ys) ≡ count_done xs + count_done ys
  count_done-append [] ys = omega arith
  count_done-append (x ∷ xs) ys = omega (arith, count_done-append xs ys)

  module _ {J : Type 0} where
    -- Everything that the scheduler holds.
    abbrev pub held : Scheduler J → ℕ
    held s =
        count s.pending
        + count_running s.running
        + count s.interrupt_pending
        + count_running s.interrupt
        + count_done s.completed

    -- What a call brings in and what it throws away; a replacement does both to all that waits on the
    -- interrupt lane.
    abbrev pub submitted : Op J → Scheduler J → List ActionEnvelope
    submitted (appends c actions) s = actions
    submitted (interrupts actions) s = actions
    submitted (replaces q r a) s = map (replace_action q r a) s.interrupt_pending
    submitted _ s = []

    abbrev pub dropped : Op J → Scheduler J → List ActionEnvelope
    dropped (cancels c r) s = s.pending
    dropped (halts r) s = s.pending ++ s.interrupt_pending
    dropped (replaces q r a) s = s.interrupt_pending
    dropped _ s = []

    -- Among the envelopes that wait, run or have ended, those that pass any given test are, after a
    -- call, as many as before, with those that it submits and without those that it drops, if it is
    -- not refused: no envelope is lost, repeated, changed or made up.
    pub step-held :
        (op : Op J) (s : Scheduler J)
        → let done = is_ok (attempt op s).0 in
          held (step op s) + (if done then count (dropped op s) else 0)
          ≡ held s + (if done then count (submitted op s) else 0)
    unfolding step claim reclaim append append_interrupts replace_interrupt_actions_by_policy
        start_next set_continuation clear_continuation complete release cancel halt take_events
        authorize
    step-held (claims o) s = ground arith
    step-held (reclaims g o) s = ground arith
    step-held (appends c actions) s = ground (arith, count-append s.pending actions)
    step-held (interrupts actions) s = ground (arith, count-append s.interrupt_pending actions)
    step-held (replaces q r a) s = ground arith
    step-held starts s = ground arith
    step-held (sets_continuation l k) s = ground arith
    step-held (clears_continuation l) s = ground arith
    step-held (completes l o) s = grind (arith, count_done-append)
    step-held (releases c) s = ground arith
    step-held (cancels c r) s = grind (arith, count_done-append)
    step-held (halts r) s = grind (arith, count_done-append, count-append)
    step-held takes_events s = ground arith
