-- ===== src/Scheduler/Tests.antt =====
-- A session in which a manual run is interrupted, cancelled and replaced by another.
use prayer_rs.Prelude.{
  ℕ, ◌+◌, ◌≡◌, refl, Bool, true, false, none, some, List, [], ◌∷◌, ◌++◌, String, arith, ok, err,
  if◌then◌else◌, is_ok, ◌==◌, ◌↔◌, All,
}
use prayer_rs.Actions.{Action, ActionOrigin, ActionEnvelope}
use prayer_rs.Scheduler.State.{QueueOwner, QueueClaim, SchedulerError, Scheduler, new, claim_eq}
use prayer_rs.Scheduler.Operations.{
  append, start_next, authorize, fresh_run, claim, append_interrupts,
}
use prayer_rs.Scheduler.Steps.{
  Op, claims, appends, interrupts, starts, releases, cancels, takes_events, attempt, step, run,
  attempt-err,
}
use prayer_rs.Scheduler.Invariant.{Inv, new-Inv, run-Inv}
use prayer_rs.Scheduler.Priority.{Starts, start_next-Starts}
use prayer_rs.Scheduler.Ownership.{append-revoked}
use prayer_rs.Scheduler.Order.{line, accepted_all, run-line}
use prayer_rs.Scheduler.Conservation.{held, submitted, dropped, count, step-held}
use prayer_rs.Scheduler.Checkpoint.{
  SchedulerCheckpoint, checkpoint, from_checkpoint, from_checkpoint-ok_iff, from_checkpoint-err,
  IsCurrent, envelopes,
}
use prayer_rs.Scheduler.Restart.{SameWork, reports, with_events, restart-same}

abbrev owner : QueueOwner
owner = QueueOwner.manual "one"

abbrev first_claim : QueueClaim
first_claim = record { owner = owner; generation = 1 }

abbrev wait : String → ActionEnvelope
wait id = record {
  schema_version = 6;
  id = id;
  action = Action.wait 1;
  origin = ActionOrigin.manual "one";
  idempotency_key = none;
}

abbrev old_wait : ActionEnvelope
old_wait = record (wait "old") { schema_version = 5 }

-- Claim the lane, append two actions and start the first.
abbrev opening : List (Op ℕ)
opening = claims owner ∷ appends first_claim (wait "a" ∷ wait "b" ∷ []) ∷ starts ∷ []

-- The state that this leads to.
abbrev opened : Scheduler ℕ
opened = record {
  schema_version = 1;
  generation = 1;
  claim = some first_claim;
  pending = wait "b" ∷ [];
  running = some (fresh_run (wait "a"));
  interrupt_pending = [];
  interrupt = none;
  completed = [];
  halted = false;
  halt_reason = none;
  events = [];
}

opened-Inv : Inv true opened
opened-Inv = ground arith

run-opening : checkpoint (run new opening) ≡ checkpoint opened
unfolding run step claim append start_next new checkpoint claim_eq
run-opening = refl

attempt-err_example : (attempt (claims owner) opened).1 ≡ opened
unfolding attempt claim
attempt-err_example = attempt-err (claims owner) opened SchedulerError.already_claimed opened refl

run-Inv_example : Inv true (run new opening)
run-Inv_example = run-Inv new opening new-Inv

start_next-Starts_example : Starts opened (start_next opened).1 (start_next opened).0
start_next-Starts_example = start_next-Starts opened opened-Inv

append-revoked_example :
    append first_claim
      (wait "late" ∷ [])
      (run (step (releases first_claim) opened) (claims owner ∷ []))
    ≡ (err SchedulerError.stale_claim, run (step (releases first_claim) opened) (claims owner ∷ []))
unfolding authorize claim_eq
append-revoked_example =
    append-revoked opened first_claim (releases first_claim) (claims owner ∷ []) (wait "late" ∷ [])
      opened-Inv refl (omega arith) refl

run-line_example : line (run new opening) ≡ line (new {J = ℕ}) ++ accepted_all new opening
run-line_example = run-line new opening (omega arith)

abbrev stop : Op ℕ
stop = cancels first_claim "stop"

is_a : ActionEnvelope → Bool
is_a e = e.id == "a"

step-held_example :
    let done = is_ok (attempt stop opened).0 in
    held is_a (step stop opened) + (if done then count is_a (dropped is_a stop opened) else 0)
    ≡ held is_a opened + (if done then count is_a (submitted is_a stop opened) else 0)
step-held_example = step-held is_a stop opened

from_checkpoint-ok_iff_example :
    (is_ok (from_checkpoint (checkpoint opened)) ≡ true)
    ↔ (((checkpoint opened).schema_version ≡ 1) × All IsCurrent (envelopes (checkpoint opened)))
from_checkpoint-ok_iff_example = from_checkpoint-ok_iff (checkpoint opened)

mixed : SchedulerCheckpoint ℕ
unfolding checkpoint
mixed = record (checkpoint opened) { interrupt_pending = old_wait ∷ [] }

from_checkpoint-err_example : from_checkpoint mixed ≡ err (SchedulerError.invalid_action_schema 5)
unfolding mixed
from_checkpoint-err_example =
    from_checkpoint-err mixed (wait "b" ∷ []) old_wait (wait "a" ∷ []) refl refl (omega arith)
      (omega arith)

restart-same_example :
    (t : Scheduler ℕ) × (from_checkpoint (checkpoint (run new opening)) ≡ ok t)
    × Inv true t
    × (reports (run new opening) (takes_events ∷ starts ∷ [])
        ≡ with_events (run new opening).events (reports t (takes_events ∷ starts ∷ [])))
    × SameWork
        (run (run new opening) (takes_events ∷ starts ∷ []))
        (run t (takes_events ∷ starts ∷ []))
restart-same_example = restart-same opening (takes_events ∷ starts ∷ []) (omega arith)

-- An empty batch of interrupts pauses the normal action, with nothing on the interrupt lane.
empty_batch-pauses :
    (step (interrupts []) opened).running ≡ some (record (fresh_run (wait "a")) { paused = true })
unfolding step append_interrupts
empty_batch-pauses = refl
