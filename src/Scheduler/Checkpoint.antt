-- ===== src/Scheduler/Checkpoint.antt =====
-- Saving a scheduler and restoring it.
use prayer_rs.Prelude.{
  ℕ, ◌≡◌, refl, ap, ◌↔◌, Bool, true, false, not, Option, none, some, List, [], ◌∷◌, ◌++◌, map,
  String, arith, Result, ok, err, is_ok, if◌then◌else◌, nat_eq, to_list, All,
}
use prayer_rs.Actions.{ActionEnvelope, action_schema_version}
use prayer_rs.Scheduler.State.{
  RunningAction, CompletedAction, SchedulerError, Scheduler, QueueClaim, scheduler_schema_version,
}

pub record SchedulerCheckpoint (J : Type 0) : Type 0 where
  pub schema_version : ℕ
  pub generation : ℕ
  pub claim : Option QueueClaim
  pub pending : List ActionEnvelope
  pub running : Option (RunningAction J)
  pub interrupt_pending : List ActionEnvelope
  pub interrupt : Option (RunningAction J)
  pub completed : List CompletedAction
  pub halted : Bool
  pub halt_reason : Option String

pub record SchedulerSnapshot (J : Type 0) : Type 0 where
  pub schema_version : ℕ
  pub generation : ℕ
  pub claim : Option QueueClaim
  pub running : Option (RunningAction J)
  pub pending : List ActionEnvelope
  pub interrupt : Option (RunningAction J)
  pub interrupt_pending : List ActionEnvelope
  pub halted : Bool
  pub halt_reason : Option String

-- The `find_map` of `from_checkpoint`.
unfoldable pub foreign_version : List ActionEnvelope → Option ℕ
foreign_version [] = none
foreign_version (e ∷ es) =
    if not (nat_eq e.schema_version action_schema_version)
    then some e.schema_version
    else foreign_version es

module _ {J : Type 0} where
  unfoldable pub checkpoint : Scheduler J → SchedulerCheckpoint J
  checkpoint s = record {
    schema_version = s.schema_version;
    generation = s.generation;
    claim = s.claim;
    pending = s.pending;
    running = s.running;
    interrupt_pending = s.interrupt_pending;
    interrupt = s.interrupt;
    completed = s.completed;
    halted = s.halted;
    halt_reason = s.halt_reason;
  }

  unfoldable pub snapshot : Scheduler J → SchedulerSnapshot J
  snapshot s = record {
    schema_version = s.schema_version;
    generation = s.generation;
    claim = s.claim;
    running = s.running;
    pending = s.pending;
    interrupt = s.interrupt;
    interrupt_pending = s.interrupt_pending;
    halted = s.halted;
    halt_reason = s.halt_reason;
  }

  -- The envelopes in the order in which `from_checkpoint` chains them.
  abbrev pub envelopes : SchedulerCheckpoint J → List ActionEnvelope
  envelopes c =
      c.pending
      ++ c.interrupt_pending
      ++ map (λ r. r.envelope) (to_list c.running)
      ++ map (λ r. r.envelope) (to_list c.interrupt)
      ++ map (λ d. d.envelope) c.completed

  unfoldable pub from_checkpoint : SchedulerCheckpoint J → Result SchedulerError (Scheduler J)
  unfolding foreign_version
  from_checkpoint c =
      if not (nat_eq c.schema_version scheduler_schema_version)
      then err (SchedulerError.invalid_checkpoint_schema c.schema_version)
      else elim (foreign_version (envelopes c)) [
        | some version ↦ err (SchedulerError.invalid_action_schema version)
        | none ↦ ok (record {
          schema_version = c.schema_version;
          generation = c.generation;
          claim = c.claim;
          pending = c.pending;
          running = c.running;
          interrupt_pending = c.interrupt_pending;
          interrupt = c.interrupt;
          completed = c.completed;
          halted = false;
          halt_reason = none;
          events = [];
        })
      ]

abbrev pub IsCurrent : ActionEnvelope → Type 0
IsCurrent e = e.schema_version ≡ action_schema_version

foreign_version-none : (es : List ActionEnvelope) → All IsCurrent es → foreign_version es ≡ none
unfolding foreign_version
foreign_version-none [] h = refl
foreign_version-none (e ∷ es) h = ground (arith, foreign_version-none es h.1)

foreign_version-IsCurrent :
    (es : List ActionEnvelope) → foreign_version es ≡ none → All IsCurrent es
unfolding foreign_version
foreign_version-IsCurrent [] h = tt
foreign_version-IsCurrent (e ∷ es) h = ground (arith, foreign_version-IsCurrent es)

-- The version that is reported is that of the first envelope that is not current.
foreign_version-first :
    (xs : List ActionEnvelope) (e : ActionEnvelope) (ys : List ActionEnvelope)
    → All IsCurrent xs
    → ¬ IsCurrent e
    → foreign_version (xs ++ e ∷ ys) ≡ some e.schema_version
unfolding foreign_version
foreign_version-first [] e ys h n = ground arith
foreign_version-first (x ∷ xs) e ys h n = ground (arith, foreign_version-first xs e ys h.1 n)

module _ {J : Type 0} where
  -- A scheduler is restored exactly from the checkpoints of the current schema in which every
  -- envelope, queued, running or completed, is of the current schema.
  pub from_checkpoint-ok_iff :
      (c : SchedulerCheckpoint J)
      → (is_ok (from_checkpoint c) ≡ true)
        ↔ ((c.schema_version ≡ scheduler_schema_version) × All IsCurrent (envelopes c))
  unfolding from_checkpoint
  from_checkpoint-ok_iff c = (
    λ h. ground (arith, foreign_version-IsCurrent (envelopes c)),
    λ h. ground (arith, foreign_version-none (envelopes c)),
  )

  -- A checkpoint of the current schema with an envelope of another is refused, and the error names the
  -- schema of the first such envelope: queued, interrupting, running, then completed.
  pub from_checkpoint-err :
      (c : SchedulerCheckpoint J) (xs : List ActionEnvelope) (e : ActionEnvelope)
      (ys : List ActionEnvelope)
      → c.schema_version ≡ scheduler_schema_version
      → envelopes c ≡ xs ++ e ∷ ys
      → All IsCurrent xs
      → ¬ IsCurrent e
      → from_checkpoint c ≡ err (SchedulerError.invalid_action_schema e.schema_version)
  unfolding from_checkpoint
  from_checkpoint-err c xs e ys v split h n =
      ground (arith, foreign_version-first xs e ys h n, ap foreign_version split)

  -- What a restart forgets: the events that nobody took, and a halt that an older version wrote.
  abbrev pub restarted : Scheduler J → Scheduler J
  restarted s = record s { halted = false; halt_reason = none; events = [] }

  pub from_checkpoint-checkpoint :
      (s : Scheduler J)
      → s.schema_version ≡ scheduler_schema_version
      → All IsCurrent (envelopes (checkpoint s))
      → from_checkpoint (checkpoint s) ≡ ok (restarted s)
  unfolding from_checkpoint checkpoint
  from_checkpoint-checkpoint s v h = ground (arith, foreign_version-none (envelopes (checkpoint s)))
