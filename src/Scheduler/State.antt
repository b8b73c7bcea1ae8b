-- ===== src/Scheduler/State.antt =====
-- The types of prayer-scheduler/src/lib.rs. `J` is the JSON value that a continuation carries.
use prayer_rs.Prelude.{
  ℕ, String, ◌≡◌, Bool, true, false, ◌&&◌, Option, none, List, [], arith, ◌==◌, nat_eq, eq_iff,
}
use prayer_rs.Actions.{ActionEnvelope, ContinuationEnvelope, ActionOutcome}
use prayer_rs.Actions.Requests.{RunId}

-- SCHEDULER_SCHEMA_VERSION
abbrev pub scheduler_schema_version : ℕ
scheduler_schema_version = 1

pub data QueueOwner : Type 0 where
  prayer_lang : RunId → QueueOwner
  controller : RunId → String → QueueOwner
  manual : RunId → QueueOwner

pub record QueueClaim : Type 0 where
  pub owner : QueueOwner
  pub generation : ℕ

pub data Lane : Type 0 where
  normal interrupt : Lane

pub record RunningAction (J : Type 0) : Type 0 where
  pub envelope : ActionEnvelope
  pub continuation : Option (ContinuationEnvelope J)
  pub paused : Bool

pub record CompletedAction : Type 0 where
  pub envelope : ActionEnvelope
  pub outcome : ActionOutcome

pub data SchedulerEvent : Type 0 where
  claimed : QueueClaim → SchedulerEvent
  appended : ℕ → ℕ → SchedulerEvent
  started : Lane → ActionEnvelope → SchedulerEvent
  continued : Lane → SchedulerEvent
  completed : Lane → CompletedAction → SchedulerEvent
  halted : String → SchedulerEvent
  cancelled : ℕ → String → SchedulerEvent
  released : ℕ → SchedulerEvent
  drained : SchedulerEvent

pub data SchedulerError : Type 0 where
  invalid_checkpoint_schema : ℕ → SchedulerError
  invalid_action_schema : ℕ → SchedulerError
  already_claimed : SchedulerError
  stale_claim : SchedulerError
  halted : SchedulerError
  nothing_running : SchedulerError
  already_running : SchedulerError
  generation_mismatch : SchedulerError

-- A `VecDeque` and a `Vec` are both a list, oldest entry first.
pub record Scheduler (J : Type 0) : Type 0 where
  pub schema_version : ℕ
  pub generation : ℕ
  pub claim : Option QueueClaim
  pub pending : List ActionEnvelope
  pub running : Option (RunningAction J)
  pub interrupt_pending : List ActionEnvelope
  pub interrupt : Option (RunningAction J)
  pub completed : List CompletedAction
  pub halted : Bool
  pub halt_reason : Option String
  pub events : List SchedulerEvent

-- `Scheduler::new` and `Scheduler::default`
unfoldable pub new : {J : Type 0} → Scheduler J
new = record {
  schema_version = scheduler_schema_version;
  generation = 0;
  claim = none;
  pending = [];
  running = none;
  interrupt_pending = [];
  interrupt = none;
  completed = [];
  halted = false;
  halt_reason = none;
  events = [];
}

-- The derived `PartialEq` of `QueueOwner` and `QueueClaim`.
unfoldable pub owner_eq : QueueOwner → QueueOwner → Bool
owner_eq (QueueOwner.prayer_lang r) (QueueOwner.prayer_lang r') = r == r'
owner_eq (QueueOwner.controller r k) (QueueOwner.controller r' k') = r == r' && k == k'
owner_eq (QueueOwner.manual r) (QueueOwner.manual r') = r == r'
owner_eq _ _ = false

unfoldable pub claim_eq : QueueClaim → QueueClaim → Bool
unfolding owner_eq
claim_eq c d = owner_eq c.owner d.owner && nat_eq c.generation d.generation

owner_eq_sound : (o p : QueueOwner) → owner_eq o p ≡ true → o ≡ p
unfolding owner_eq
owner_eq_sound (QueueOwner.prayer_lang r) (QueueOwner.prayer_lang r') h =
    ground (arith, eq_iff r r')
owner_eq_sound (QueueOwner.controller r k) (QueueOwner.controller r' k') h =
    ground (arith, eq_iff r r', eq_iff k k')
owner_eq_sound (QueueOwner.manual r) (QueueOwner.manual r') h = ground (arith, eq_iff r r')
owner_eq_sound _ _ h = ground arith

owner_eq_refl : (o : QueueOwner) → owner_eq o o ≡ true
unfolding owner_eq
owner_eq_refl (QueueOwner.prayer_lang r) = ground (arith, eq_iff r r)
owner_eq_refl (QueueOwner.controller r k) = ground (arith, eq_iff r r, eq_iff k k)
owner_eq_refl (QueueOwner.manual r) = ground (arith, eq_iff r r)

pub claim_eq_sound : (c d : QueueClaim) → claim_eq c d ≡ true → c ≡ d
unfolding claim_eq
claim_eq_sound c d h = ground (arith, owner_eq_sound c.owner d.owner)

pub claim_eq_refl : (c : QueueClaim) → claim_eq c c ≡ true
unfolding claim_eq
claim_eq_refl c = ground (arith, owner_eq_refl c.owner)
