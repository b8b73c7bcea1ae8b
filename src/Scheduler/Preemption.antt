-- ===== src/Scheduler/Preemption.antt =====
-- A batch of interrupts that runs to its end leaves the normal lane as it found it.
use prayer_rs.Prelude.{◌≡◌, false, not, none, List, [], ◌∷◌, ◌++◌, is_nil}
use prayer_rs.Actions.{ActionEnvelope, ActionOutcome}
use prayer_rs.Scheduler.State.{Lane, CompletedAction, Scheduler}
use prayer_rs.Scheduler.Operations.{set_paused}
use prayer_rs.Scheduler.Steps.{Op, starts, completes}

-- Each action of a batch with the outcome that its run had.
abbrev pub finished : List ActionEnvelope → List ActionOutcome → List CompletedAction
finished (e ∷ es) (o ∷ os) = record { envelope = e; outcome = o } ∷ finished es os
finished _ _ = []

module _ {J : Type 0} where
  -- Start the next interrupt and complete it, once for each outcome.
  abbrev pub drain : List ActionOutcome → List (Op J)
  drain [] = []
  drain (o ∷ os) = starts ∷ completes Lane.interrupt o ∷ drain os

  -- The same work and claim, but for the interrupts that ended in between.
  pub record Restored (ended : List CompletedAction) (s t : Scheduler J) : Type 0 where
    pub running : t.running ≡ s.running
    pub pending : t.pending ≡ s.pending
    pub claim : t.claim ≡ s.claim
    pub generation : t.generation ≡ s.generation
    pub interrupt : t.interrupt ≡ none
    pub interrupt_pending : t.interrupt_pending ≡ []
    pub completed : t.completed ≡ s.completed ++ ended

  -- The lane while a batch is under way: its normal action is that of the start, paused.
  record Draining (es : List ActionEnvelope) (ended : List CompletedAction) (s t : Scheduler J)
      : Type 0 where
    halted : t.halted ≡ false
    running : t.running ≡ set_paused (not (is_nil es)) s.running
    pending : t.pending ≡ s.pending
    claim : t.claim ≡ s.claim
    generation : t.generation ≡ s.generation
    interrupt : t.interrupt ≡ none
    interrupt_pending : t.interrupt_pending ≡ es
    completed : t.completed ≡ s.completed ++ ended
