-- ===== src/Scheduler/Ownership.antt =====
-- Who may write to the normal lane: the holder of the current claim, and nobody with an older one.
use prayer_rs.Prelude.{
  ◌≡◌, refl, ◌≤◌, ◌<◌, Bool, Option, none, some, List, [], ◌∷◌, arith, ok, err, u64_max, ap,
}
use prayer_rs.Actions.{ActionEnvelope}
use prayer_rs.Scheduler.State.{QueueClaim, SchedulerError, Scheduler, claim_eq_sound}
use prayer_rs.Scheduler.Operations.{
  claim, reclaim, append, append_interrupts, replace_interrupt_actions_by_policy, start_next,
  set_continuation, clear_continuation, complete, release, cancel, halt, take_events, authorize,
}
use prayer_rs.Scheduler.Steps.{
  Op, claims, reclaims, appends, interrupts, starts, sets_continuation, clears_continuation,
  completes, releases, cancels, halts, step, run,
}
use prayer_rs.Scheduler.Invariant.{Inv, step-Inv, run-Inv}

module _ {J : Type 0} where
  -- The calls that end a claim.
  abbrev pub Revokes : QueueClaim → Op J → Type 0
  Revokes c (releases d) = d ≡ c
  Revokes c (cancels d r) = d ≡ c
  Revokes c (halts r) = Unit
  Revokes c _ = ⊥

  pub authorize-held : (s : Scheduler J) (c : QueueClaim) → authorize s c ≡ ok tt → s.claim ≡ some c
  unfolding authorize
  authorize-held s c h = go s.claim refl
    where
      go : (held : Option QueueClaim) → s.claim ≡ held → s.claim ≡ some c
      go none e = ground arith
      go (some d) e = ground (arith, claim_eq_sound d c)

  step-generation :
      {exact : Bool} (op : Op J) (s : Scheduler J)
      → Inv exact s
      → s.generation ≤ (step op s).generation
  unfolding step claim reclaim append append_interrupts replace_interrupt_actions_by_policy
      start_next set_continuation clear_continuation complete release cancel halt take_events
      authorize
  step-generation (claims o) s v = ground arith
  step-generation (reclaims g o) s v = ground arith
  step-generation (appends c actions) s v = ground arith
  step-generation (interrupts actions) s v = ground arith
  step-generation starts s v = ground arith
  step-generation (sets_continuation l k) s v = ground arith
  step-generation (clears_continuation l) s v = ground arith
  step-generation (completes l o) s v = ground arith
  step-generation (releases c) s v = ground arith
  step-generation (cancels c r) s v = ground arith
  step-generation (halts r) s v = ground arith
  step-generation _ s v = ground arith

  pub run-generation :
      (s : Scheduler J) (ops : List (Op J)) {exact : Bool}
      → Inv exact s
      → s.generation ≤ (run s ops).generation
  unfolding run
  run-generation s [] v = omega arith
  run-generation s (op ∷ ops) v =
      omega (arith, step-generation op s v, run-generation (step op s) ops (step-Inv op s v))

  authorize-old :
      (s : Scheduler J) (c : QueueClaim) {exact : Bool}
      → Inv exact s
      → c.generation < s.generation
      → authorize s c ≡ err SchedulerError.stale_claim
  unfolding authorize
  authorize-old s c v lt = go s.claim refl
    where
      go :
          (held : Option QueueClaim)
          → s.claim ≡ held
          → authorize s c ≡ err SchedulerError.stale_claim
      go none e = ground arith
      go (some d) e = ground (arith, claim_eq_sound d c)

  revoke-generation :
      (s : Scheduler J) (c : QueueClaim) (op : Op J)
      → authorize s c ≡ ok tt
      → s.generation < u64_max
      → Revokes c op
      → s.generation < (step op s).generation
  unfolding step release cancel halt
  revoke-generation s c (releases d) a lt r = ground (arith, ap (authorize s) r)
  revoke-generation s c (cancels d x) a lt r = ground (arith, ap (authorize s) r)
  revoke-generation s c (halts x) a lt r = ground arith
  revoke-generation s c _ a lt r = absurd r

  -- After the holder has released or cancelled its claim, or the scheduler was halted, that claim
  -- appends nothing any more, whatever calls come between and whoever claims the lane then.
  -- The generation must not have reached the largest `u64`, where it stays.
  pub append-revoked :
      (s : Scheduler J) (c : QueueClaim) (op : Op J) (ops : List (Op J))
      (actions : List ActionEnvelope) {exact : Bool}
      → Inv exact s
      → authorize s c ≡ ok tt
      → s.generation < u64_max
      → Revokes c op
      → append c actions (run (step op s) ops)
        ≡ (err SchedulerError.stale_claim, run (step op s) ops)
  unfolding append
  append-revoked s c op ops actions v a lt r =
      let t = run (step op s) ops in
      let old : c.generation < t.generation = ground (
        arith,
        authorize-held s c a,
        v.claimed,
        revoke-generation s c op a lt r,
        run-generation (step op s) ops (step-Inv op s v),
      ) in
      rw (authorize-old t c (run-Inv (step op s) ops (step-Inv op s v)) old, append) refl
