-- ===== src/Scheduler/Operations.antt =====
-- The methods of `impl Scheduler`. One that takes `&mut self` returns the new state; one that may
-- fail returns its result beside the state, since what was written before a failure stays written.
use prayer_rs.Prelude.{
  ℕ, ◌-◌, String, Bool, true, false, Option, none, some, List, [], ◌∷◌, ◌++◌, map, ◌||◌, not, ◌==◌,
  nat_eq, if◌then◌else◌, saturating_add, Result, ok, err, is_some, is_nil, length, to_list,
}
use prayer_rs.Actions.{Action, ActionOrigin, ActionEnvelope, ContinuationEnvelope, ActionOutcome}
use prayer_rs.Scheduler.State.{
  QueueOwner, QueueClaim, Lane, RunningAction, CompletedAction, SchedulerEvent, SchedulerError,
  Scheduler, claim_eq,
}

-- A method's result beside the state that it leaves.
abbrev pub Ran : Type 0 → Type 0 → Type 0
Ran J A = Result SchedulerError A × Scheduler J

-- The body of the loop of `replace_interrupt_actions_by_policy`.
unfoldable pub replace_action : String → String → Action → ActionEnvelope → ActionEnvelope
replace_action policy replacement action e = elim e.origin [
  | ActionOrigin.interrupt value ↦
      if value == policy
      then record e { action = action; origin = ActionOrigin.interrupt replacement }
      else e
  | _ ↦ e
]

module _ {J : Type 0} where
  abbrev pub push_event : SchedulerEvent → Scheduler J → Scheduler J
  push_event e s = record s { events = s.events ++ e ∷ [] }

  -- `if let Some(running) = &mut … { running.paused = b }`
  abbrev pub set_paused : Bool → Option (RunningAction J) → Option (RunningAction J)
  set_paused b none = none
  set_paused b (some r) = some (record r { paused = b })

  abbrev pub fresh_run : ActionEnvelope → RunningAction J
  fresh_run e = record { envelope = e; continuation = none; paused = false }

  unfoldable pub authorize : Scheduler J → QueueClaim → Result SchedulerError (Unit {0})
  authorize s c = if s.halted then err SchedulerError.halted else elim s.claim [
    | none ↦ err SchedulerError.stale_claim
    | some held ↦ if claim_eq held c then ok tt else err SchedulerError.stale_claim
  ]

  abbrev pub invalidate : Scheduler J → Scheduler J
  invalidate s = record s { generation = saturating_add s.generation 1; claim = none }

  unfoldable pub claim : QueueOwner → Scheduler J → Ran J QueueClaim
  claim owner s =
      if s.halted
      then (err SchedulerError.halted, s)
      else if is_some s.claim
      then (err SchedulerError.already_claimed, s)
      else let generation = saturating_add s.generation 1 in
        let c : QueueClaim = record { owner = owner; generation = generation } in
        (
          ok c,
          push_event (SchedulerEvent.claimed c)
              (record s { generation = generation; claim = some c }),
        )

  unfoldable pub reclaim : ℕ → QueueOwner → Scheduler J → Ran J QueueClaim
  unfolding claim
  reclaim expected owner s =
      if not (nat_eq s.generation expected)
      then (err SchedulerError.generation_mismatch, s)
      else claim owner s

  unfoldable pub append : QueueClaim → List ActionEnvelope → Scheduler J → Ran J (Unit {0})
  unfolding authorize
  append c actions s = elim (authorize s c) [
    | err e ↦ (err e, s)
    | ok _ ↦
        let pending = s.pending ++ actions in
        (
          ok tt,
          push_event (SchedulerEvent.appended c.generation (length pending - length s.pending))
              (record s { pending = pending }),
        )
  ]

  unfoldable pub append_interrupts : List ActionEnvelope → Scheduler J → Ran J (Unit {0})
  append_interrupts actions s =
      if s.halted
      then (err SchedulerError.halted, s)
      else if is_some s.interrupt || not (is_nil s.interrupt_pending)
      then (err SchedulerError.already_claimed, s)
      else (
        ok tt,
        record s {
          interrupt_pending = s.interrupt_pending ++ actions;
          running = set_paused true s.running;
        },
      )

  unfoldable pub append_interrupt : ActionEnvelope → Scheduler J → Ran J (Unit {0})
  unfolding append_interrupts
  append_interrupt action = append_interrupts (action ∷ [])

  unfoldable pub replace_interrupt_actions_by_policy :
      String → String → Action → Scheduler J → Scheduler J
  unfolding replace_action
  replace_interrupt_actions_by_policy policy replacement action s = record s {
    interrupt_pending = map (replace_action policy replacement action) s.interrupt_pending;
  }

  unfoldable pub start_next : Scheduler J → Ran J (Option (Lane × ActionEnvelope))
  start_next s = if s.halted then (err SchedulerError.halted, s) else elim s.interrupt [
    | some _ ↦ (err SchedulerError.already_running, s)
    | none ↦ elim s.interrupt_pending [
      | e ∷ rest ↦ (
        ok (some (Lane.interrupt, e)),
        push_event (SchedulerEvent.started Lane.interrupt e) (record s {
          interrupt_pending = rest;
          running = set_paused true s.running;
          interrupt = some (fresh_run e);
        }),
      )
      | [] ↦ elim s.running [
        | some _ ↦ (err SchedulerError.already_running, s)
        | none ↦ elim s.pending [
          | [] ↦ (ok none, push_event SchedulerEvent.drained s)
          | e ∷ rest ↦ (
            ok (some (Lane.normal, e)),
            push_event (SchedulerEvent.started Lane.normal e)
                (record s { pending = rest; running = some (fresh_run e) }),
          )
        ]
      ]
    ]
  ]

  -- The lane's slot, as `running_mut` selects it, and a write to it.
  abbrev pub lane_run : Lane → Scheduler J → Option (RunningAction J)
  lane_run Lane.normal s = s.running
  lane_run Lane.interrupt s = s.interrupt

  abbrev pub set_lane_run : Lane → Option (RunningAction J) → Scheduler J → Scheduler J
  set_lane_run Lane.normal r s = record s { running = r }
  set_lane_run Lane.interrupt r s = record s { interrupt = r }

  unfoldable pub set_continuation : Lane → ContinuationEnvelope J → Scheduler J → Ran J (Unit {0})
  set_continuation lane k s = elim (lane_run lane s) [
    | none ↦ (err SchedulerError.nothing_running, s)
    | some r ↦ (
      ok tt,
      push_event (SchedulerEvent.continued lane)
          (set_lane_run lane (some (record r { continuation = some k })) s),
    )
  ]

  unfoldable pub clear_continuation : Lane → Scheduler J → Ran J (Unit {0})
  clear_continuation lane s = elim (lane_run lane s) [
    | none ↦ (err SchedulerError.nothing_running, s)
    | some r ↦ (ok tt, set_lane_run lane (some (record r { continuation = none })) s)
  ]

  -- The end of `complete`: the last interrupt action lets the normal lane go on.
  abbrev pub resume_normal : Lane → Scheduler J → Scheduler J
  resume_normal Lane.normal s = s
  resume_normal Lane.interrupt s =
      if is_nil s.interrupt_pending then record s { running = set_paused false s.running } else s

  unfoldable pub complete : Lane → ActionOutcome → Scheduler J → Ran J CompletedAction
  complete lane outcome s = elim (lane_run lane s) [
    | none ↦ (err SchedulerError.nothing_running, s)
    | some r ↦
        let done : CompletedAction = record { envelope = r.envelope; outcome = outcome } in
        let freed = set_lane_run lane none s in
        (
          ok done,
          resume_normal lane (
              push_event (SchedulerEvent.completed lane done)
                (record freed { completed = s.completed ++ done ∷ [] })),
        )
  ]

  unfoldable pub release : QueueClaim → Scheduler J → Ran J (Unit {0})
  unfolding authorize
  release c s = elim (authorize s c) [
    | err e ↦ (err e, s)
    | ok _ ↦ let s' = invalidate s in (ok tt, push_event (SchedulerEvent.released s'.generation) s')
  ]

  -- An action that is taken off its lane before it ended.
  abbrev pub cancelled_action : String → RunningAction J → CompletedAction
  cancelled_action reason r = record {
    envelope = r.envelope;
    outcome = ActionOutcome.cancelled reason;
  }

  unfoldable pub cancel : QueueClaim → String → Scheduler J → Ran J (Unit {0})
  unfolding authorize
  cancel c reason s = elim (authorize s c) [
    | err e ↦ (err e, s)
    | ok _ ↦
        let s' = invalidate (record s {
          pending = [];
          running = none;
          completed = s.completed ++ map (cancelled_action reason) (to_list s.running);
        }) in
        (ok tt, push_event (SchedulerEvent.cancelled s'.generation reason) s')
  ]

  unfoldable pub halt : String → Scheduler J → Scheduler J
  halt reason s = push_event (SchedulerEvent.halted reason) (
      invalidate (record s {
        halted = false;
        halt_reason = none;
        pending = [];
        interrupt_pending = [];
        running = none;
        interrupt = none;
        completed =
            s.completed ++ map (cancelled_action reason) (to_list s.running ++ to_list s.interrupt);
      }))

  unfoldable pub take_events : Scheduler J → List SchedulerEvent × Scheduler J
  take_events s = (s.events, record s { events = [] })
