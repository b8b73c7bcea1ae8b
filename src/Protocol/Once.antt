-- ===== src/Protocol/Once.antt =====
-- No channel of spacemolt-lib-rs/src/transport/correlator.rs gets more than one message.
use prayer_rs.Prelude.{
  ℕ, suc, ◌+◌, ◌≤◌, ◌≡◌, refl, String, Bool, true, false, Option, none, some, List, [], ◌∷◌, ◌++◌,
  arith, Option-cases, sym, inl, inr,
}
use mathlib.Core.Path.{subst}
use prayer_rs.Prelude.Assoc.{lookup, insert, remove, string_Eq}
use prayer_rs.Protocol.Frames.{
  Json, RawFrame, MutationAck, SpacemoltError, ConnectionClosedError, ClientError,
  extract_pending_ack, error_from_raw, action_error_from_raw,
}
use prayer_rs.Protocol.Correlator.{
  Pending, query, mutation, Outcome, Correlator, empty, channel, send, await_query, await_mutation,
  has, cancel, failed, mutation_outcome, structured_content, query_outcome, action_outcome, reject,
  handle_of, mutation_result, handle_result, handle_action_result, reject_action_error,
  reject_error, handle, all_failed, reject_all_connection_closed, reject_all_server_error,
}
use prayer_rs.Protocol.Counting.{
  waiting, messages, messages-append, waiting-insert, waiting-remove_le, waiting-remove,
  messages-all_failed, IsOnce, kept,
}

module _ (j : Json) where
  -- A call of the correlator.
  pub data Call : Type 0 where
    query_sent : String → Call
    mutation_sent : String → Bool → Call
    cancelled : String → Call
    frame_read : RawFrame j → Call
    closed : ConnectionClosedError j → Call
    server_failed : SpacemoltError j → Call

  unfoldable pub step : Correlator j → Call → Correlator j
  unfolding await_query await_mutation cancel handle reject_all_connection_closed
      reject_all_server_error
  step c (query_sent id) = await_query j id c
  step c (mutation_sent id on_ack) = await_mutation j id on_ack c
  step c (cancelled id) = cancel j id c
  step c (frame_read frame) = (handle j frame c).1
  step c (closed error) = reject_all_connection_closed j error c
  step c (server_failed error) = reject_all_server_error j error c

  abbrev pub run : Correlator j → List Call → Correlator j
  run c [] = c
  run c (call ∷ calls) = run (step c call) calls

  await-IsOnce :
      (c : Correlator j) (id : String) (p : Pending j)
      → channel j p ≡ c.next_channel
      → IsOnce j c
      → IsOnce j (record c { pending = insert id p c.pending; next_channel = suc c.next_channel })
  await-IsOnce c id p e v = record {
    once = λ n. ground (arith, waiting-insert j n id p c.pending, v.once n, v.drawn n, e);
    drawn = λ n h. ground (arith, waiting-insert j n id p c.pending, v.drawn n, e, h);
  }

  answered-IsOnce :
      (c : Correlator j) (id : String) (p : Pending j) (outcome : Outcome j)
      → lookup id c.pending ≡ some p
      → IsOnce j c
      → IsOnce j (send j (channel j p) outcome (cancel j id c))
  unfolding cancel
  answered-IsOnce c id p outcome e v = kept j c _ v refl (λ n. omega (
    arith,
    waiting-remove j n id p c.pending e,
    messages-append j n c.sent ((channel j p, outcome) ∷ []),
  ))

  cancel-IsOnce : (c : Correlator j) (id : String) → IsOnce j c → IsOnce j (cancel j id c)
  unfolding cancel
  cancel-IsOnce c id v = kept j c _ v refl (λ n. omega (arith, waiting-remove_le j n id c.pending))

  waited-IsOnce :
      (c d : Correlator j) (id : String) (p q : Pending j)
      → lookup id c.pending ≡ some p
      → channel j q ≡ channel j p
      → d.pending ≡ insert id q (remove id c.pending)
      → d.sent ≡ c.sent
      → d.next_channel ≡ c.next_channel
      → IsOnce j c
      → IsOnce j d
  waited-IsOnce c d id p q e same pending sent next v = kept j c d v (sym next) (λ n. ground (
    arith,
    e,
    same,
    pending,
    sent,
    waiting-remove j n id p c.pending e,
    waiting-insert j n id q (remove id c.pending),
  ))

  outcome-IsOnce :
      (c : Correlator j) (id : String) (tx : ℕ) (ack : Option (MutationAck j)) (on_ack : Bool)
      (structured : Option j.Value) (new : Option (MutationAck j))
      → lookup id c.pending ≡ some (mutation tx ack on_ack)
      → IsOnce j c
      → IsOnce j (mutation_outcome j id tx on_ack structured new (cancel j id c))
  unfolding cancel
  outcome-IsOnce c id tx ack true structured (some new) e v =
      waited-IsOnce c _ id (mutation tx ack true) (mutation tx (some new) true) e refl refl refl
        refl v
  outcome-IsOnce c id tx ack false structured (some new) e v =
      waited-IsOnce c _ id (mutation tx ack false) (mutation tx (some new) false) e refl refl refl
        refl v
  outcome-IsOnce c id tx ack on_ack structured none e v =
      answered-IsOnce c id (mutation tx ack on_ack) _ e v

  result-IsOnce :
      (c : Correlator j) (id : String) (frame : RawFrame j)
      → IsOnce j c
      → IsOnce j (handle_result j id frame c).1
  unfolding handle_result mutation_result
  result-IsOnce c id frame v = elim (Option-cases frame.payload) [
    | inl missing ↦ subst (IsOnce j) (ground (arith, missing)) v
    | inr (payload, there) ↦ elim (Option-cases (lookup id c.pending)) [
      | inl missing ↦ subst (IsOnce j) (ground (arith, there, missing)) v
      | inr (query tx, e) ↦
          subst (IsOnce j) (ground (arith, there, e))
            (answered-IsOnce c id (query tx) (query_outcome j payload) e v)
      | inr (mutation tx ack on_ack, e) ↦ subst (IsOnce j) (ground (arith, there, e)) (
          outcome-IsOnce c id tx ack on_ack (structured_content j payload)
            (extract_pending_ack j (structured_content j payload)) e v)
    ]
  ]

  action_result-IsOnce :
      (c : Correlator j) (id : String) (frame : RawFrame j)
      → IsOnce j c
      → IsOnce j (handle_action_result j id frame c).1
  unfolding handle_action_result
  action_result-IsOnce c id frame v = elim (Option-cases (lookup id c.pending)) [
    | inl missing ↦ subst (IsOnce j) (ground (arith, missing)) (cancel-IsOnce c id v)
    | inr (query tx, e) ↦ subst (IsOnce j) (ground (arith, e)) (cancel-IsOnce c id v)
    | inr (mutation tx ack on_ack, e) ↦
        subst (IsOnce j) (ground (arith, e))
          (answered-IsOnce c id (mutation tx ack on_ack) (action_outcome j frame.payload) e v)
  ]

  reject-IsOnce :
      (c : Correlator j) (id : String) (error : SpacemoltError j)
      → IsOnce j c
      → IsOnce j (reject j id error c).1
  unfolding reject
  reject-IsOnce c id error v = elim (Option-cases (lookup id c.pending)) [
    | inl missing ↦ subst (IsOnce j) (ground (arith, missing)) v
    | inr (p, e) ↦
        subst (IsOnce j) (ground (arith, e))
          (answered-IsOnce c id p (failed (ClientError.server error)) e v)
  ]

  handle_of-IsOnce :
      (c : Correlator j) (id : String) (frame : RawFrame j)
      → IsOnce j c
      → IsOnce j (handle_of j id frame c).1
  unfolding handle_of reject_action_error reject_error
  handle_of-IsOnce c id frame v =
      let result = result-IsOnce c id frame v in
      let action = action_result-IsOnce c id frame v in
      let refused = reject-IsOnce c id (action_error_from_raw j frame) v in
      let failed_frame = reject-IsOnce c id (error_from_raw j frame) v in
      ground (arith, v, result, action, refused, failed_frame)

  handle-IsOnce :
      (c : Correlator j) (frame : RawFrame j) → IsOnce j c → IsOnce j (handle j frame c).1
  unfolding handle handle_of has reject_action_error reject_error
  handle-IsOnce c frame v = elim (Option-cases frame.request_id) [
    | inl missing ↦ subst (IsOnce j) (ground (arith, missing)) v
    | inr (id, there) ↦
        let by_kind = handle_of-IsOnce c id frame v in
        subst (IsOnce j) (ground (arith, there)) by_kind
  ]

  rejected-IsOnce :
      (c : Correlator j) (error : ClientError j)
      → IsOnce j c
      → IsOnce j (record c { pending = []; sent = c.sent ++ all_failed j error c.pending })
  rejected-IsOnce c error v = kept j c _ v refl (λ n. omega (
    arith,
    messages-append j n c.sent (all_failed j error c.pending),
    messages-all_failed j n error c.pending,
  ))

  -- Every call keeps it that each channel that was drawn is used once at most, by a request in flight
  -- or by a message.
  pub step-IsOnce : (c : Correlator j) (call : Call) → IsOnce j c → IsOnce j (step c call)
  unfolding step await_query await_mutation reject_all_connection_closed reject_all_server_error
  step-IsOnce c (query_sent id) v = await-IsOnce c id (query c.next_channel) refl v
  step-IsOnce c (mutation_sent id on_ack) v =
      await-IsOnce c id (mutation c.next_channel none on_ack) refl v
  step-IsOnce c (cancelled id) v = cancel-IsOnce c id v
  step-IsOnce c (frame_read frame) v = handle-IsOnce c frame v
  step-IsOnce c (closed error) v = rejected-IsOnce c (ClientError.connection_closed error) v
  step-IsOnce c (server_failed error) v = rejected-IsOnce c (ClientError.server error) v

  run-IsOnce : (c : Correlator j) (calls : List Call) → IsOnce j c → IsOnce j (run c calls)
  run-IsOnce c [] v = v
  run-IsOnce c (call ∷ calls) v = run-IsOnce (step c call) calls (step-IsOnce c call v)

-- Whatever calls a new correlator gets, a channel gets one message at most, and a channel with a message
-- is not that of a request in flight.
pub run-once :
    (j : Json) (calls : List (Call j)) (n : ℕ)
    → waiting j n (run j (empty j) calls).pending + messages j n (run j (empty j) calls).sent ≤ 1
unfolding empty
run-once j calls n =
    let start : IsOnce j (empty j) = record {
      once = λ m. omega arith;
      drawn = λ m h. omega arith;
    } in
    (run-IsOnce j (empty j) calls start).once n

-- When the connection closes or the server fails, every request in flight gets a message on its channel
-- and none stays in flight.
pub rejected_all :
    (j : Json) (c : Correlator j) (gone : ConnectionClosedError j) (error : SpacemoltError j)
    (n : ℕ)
    → (messages j n (reject_all_connection_closed j gone c).sent
        ≡ messages j n c.sent + waiting j n c.pending)
      × ((reject_all_connection_closed j gone c).pending ≡ [])
      × (messages j n (reject_all_server_error j error c).sent
          ≡ messages j n c.sent + waiting j n c.pending)
      × ((reject_all_server_error j error c).pending ≡ [])
unfolding reject_all_connection_closed reject_all_server_error
rejected_all j c gone error n = (
  omega (
    arith,
    messages-append j n c.sent (all_failed j (ClientError.connection_closed gone) c.pending),
    messages-all_failed j n (ClientError.connection_closed gone) c.pending,
  ),
  refl,
  omega (
    arith,
    messages-append j n c.sent (all_failed j (ClientError.server error) c.pending),
    messages-all_failed j n (ClientError.server error) c.pending,
  ),
  refl,
)

-- A frame that `handle` does not take for an answer leaves the correlator as it was.
pub handle_declined :
    (j : Json) (c : Correlator j) (frame : RawFrame j)
    → (handle j frame c).0 ≡ false
    → (handle j frame c).1 ≡ c
unfolding handle handle_of handle_result handle_action_result reject_action_error reject_error
    reject
handle_declined j c frame h = ground (arith, h)
