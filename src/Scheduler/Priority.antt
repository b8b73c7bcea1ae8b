-- ===== src/Scheduler/Priority.antt =====
-- Which action `start_next` starts.
use prayer_rs.Prelude.{
  ◌≡◌, refl, Bool, true, false, Option, none, some, List, [], ◌∷◌, ◌++◌, arith, Result, ok, err,
  ◌⊎◌, inl, inr,
}
use prayer_rs.Actions.{ActionEnvelope}
use prayer_rs.Scheduler.State.{Lane, RunningAction, SchedulerEvent, SchedulerError, Scheduler}
use prayer_rs.Scheduler.Operations.{start_next, fresh_run, set_paused}
use prayer_rs.Scheduler.Invariant.{Inv, interrupted}

module _ {J : Type 0} where
  -- What `start_next` does, read off the lanes: the interrupt lane goes first, and a lane starts
  -- nothing while an action runs in it or in the interrupt lane.
  pub data Starts (s t : Scheduler J)
      : Result SchedulerError (Option (Lane × ActionEnvelope)) → Type 0 where
    busy :
        {r : RunningAction J}
        → (s.interrupt ≡ some r) ⊎ ((interrupted s ≡ false) × (s.running ≡ some r))
        → t ≡ s
        → Starts s t (err SchedulerError.already_running)
    preempt :
        {e : ActionEnvelope} {rest : List ActionEnvelope}
        → s.interrupt ≡ none
        → s.interrupt_pending ≡ e ∷ rest
        → t ≡ record s {
          interrupt_pending = rest;
          running = set_paused true s.running;
          interrupt = some (fresh_run e);
          events = s.events ++ SchedulerEvent.started Lane.interrupt e ∷ [];
        }
        → Starts s t (ok (some (Lane.interrupt, e)))
    proceed :
        {e : ActionEnvelope} {rest : List ActionEnvelope}
        → interrupted s ≡ false
        → s.running ≡ none
        → s.pending ≡ e ∷ rest
        → t ≡ record s {
          pending = rest;
          running = some (fresh_run e);
          events = s.events ++ SchedulerEvent.started Lane.normal e ∷ [];
        }
        → Starts s t (ok (some (Lane.normal, e)))
    idle :
        interrupted s ≡ false
        → s.running ≡ none
        → s.pending ≡ []
        → t ≡ record s { events = s.events ++ SchedulerEvent.drained ∷ [] }
        → Starts s t (ok none)

  cases :
      (s : Scheduler J) {exact : Bool}
      → Inv exact s
      → (i : Option (RunningAction J)) → s.interrupt ≡ i
      → (ip : List ActionEnvelope) → s.interrupt_pending ≡ ip
      → (r : Option (RunningAction J)) → s.running ≡ r
      → (p : List ActionEnvelope) → s.pending ≡ p
      → Starts s (start_next s).1 (start_next s).0
  unfolding start_next
  cases s v (some i) ei ip eip r er p ep =
      let e : start_next s ≡ (err SchedulerError.already_running, s) = ground arith in
      rw e (busy (inl ei) refl)
  cases s v none ei (a ∷ rest) eip r er p ep =
      let e : start_next s ≡ (
        ok (some (Lane.interrupt, a)),
        record s {
          interrupt_pending = rest;
          running = set_paused true s.running;
          interrupt = some (fresh_run a);
          events = s.events ++ SchedulerEvent.started Lane.interrupt a ∷ [];
        },
      ) =
        ground arith in
      rw e (preempt ei eip refl)
  cases s v none ei [] eip (some r) er p ep =
      let e : start_next s ≡ (err SchedulerError.already_running, s) = ground arith in
      rw e (busy (inr (ground arith, er)) refl)
  cases s v none ei [] eip none er (a ∷ rest) ep =
      let e : start_next s ≡ (
        ok (some (Lane.normal, a)),
        record s {
          pending = rest;
          running = some (fresh_run a);
          events = s.events ++ SchedulerEvent.started Lane.normal a ∷ [];
        },
      ) =
        ground arith in
      rw e (proceed (ground arith) er ep refl)
  cases s v none ei [] eip none er [] ep =
      let e : start_next s
          ≡ (ok none, record s { events = s.events ++ SchedulerEvent.drained ∷ [] }) =
        ground arith in
      rw e (idle (ground arith) er ep refl)

  -- In a session's scheduler a call of `start_next` starts the oldest waiting interrupt, pausing the
  -- normal action; else, with no interrupt running or waiting and no normal action running, the
  -- oldest waiting normal action; it refuses while the lane is busy, and reports an empty lane.
  pub start_next-Starts :
      (s : Scheduler J) {exact : Bool} → Inv exact s → Starts s (start_next s).1 (start_next s).0
  start_next-Starts s v =
      cases s v s.interrupt refl s.interrupt_pending refl s.running refl s.pending refl
