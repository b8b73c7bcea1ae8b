-- ===== src/Protocol/Correlator.antt =====
-- `Correlator` of spacemolt-lib-rs/src/transport/correlator.rs. A oneshot channel is a number, drawn in
-- order; what is sent on channels and the calls of acknowledgement handlers are recorded.
use prayer_rs.Prelude.{
  ℕ, suc, String, Bool, true, false, Option, none, some, List, [], ◌∷◌, ◌++◌, if◌then◌else◌, ◌==◌,
  is_some,
}
use prayer_rs.Prelude.Assoc.{Assoc, lookup, insert, remove, string_Eq}
use prayer_rs.Protocol.Frames.{
  Json, RawFrame, QueryResult, MutationResult, MutationAck, SpacemoltError, ConnectionClosedError,
  ClientError, field, text_or_empty, is_set, and_then, or_else, extract_pending_ack, error_from_raw,
  action_error_from_raw,
}

module _ (j : Json) where
  -- A mutation keeps its acknowledgement, and whether a handler for it was given.
  pub data Pending : Type 0 where
    query : ℕ → Pending
    mutation : ℕ → Option (MutationAck j) → Bool → Pending

  pub data Outcome : Type 0 where
    query_done : QueryResult j → Outcome
    mutation_done : MutationResult j → Outcome
    failed : ClientError j → Outcome

  pub record Correlator : Type 0 where
    pub pending : Assoc String Pending
    pub next_channel : ℕ
    pub sent : List (ℕ × Outcome)
    pub acknowledged : List (ℕ × MutationAck j)

  -- `Correlator::default`
  unfoldable pub empty : Correlator
  empty = record { pending = []; next_channel = 0; sent = []; acknowledged = [] }

  -- The channel of a request.
  abbrev pub channel : Pending → ℕ
  channel (query tx) = tx
  channel (mutation tx ack on_ack) = tx

  abbrev pub send : ℕ → Outcome → Correlator → Correlator
  send tx outcome c = record c { sent = c.sent ++ (tx, outcome) ∷ [] }

  unfoldable pub await_query : String → Correlator → Correlator
  await_query request_id c = record c {
    pending = insert request_id (query c.next_channel) c.pending;
    next_channel = suc c.next_channel;
  }

  unfoldable pub await_mutation : String → Bool → Correlator → Correlator
  await_mutation request_id on_ack c = record c {
    pending = insert request_id (mutation c.next_channel none on_ack) c.pending;
    next_channel = suc c.next_channel;
  }

  unfoldable pub has : String → Correlator → Bool
  has request_id c = is_some (lookup request_id c.pending)

  unfoldable pub cancel : String → Correlator → Correlator
  cancel request_id c = record c { pending = remove request_id c.pending }

  abbrev acknowledge : ℕ → Bool → MutationAck j → Correlator → Correlator
  acknowledge tx true ack c = record c { acknowledged = c.acknowledged ++ (tx, ack) ∷ [] }
  acknowledge tx false ack c = c

  abbrev pub structured_content : j.Value → Option j.Value
  structured_content payload = elim (j.get payload "structuredContent") [
    | some v ↦ some v
    | none ↦ j.get payload "structured_content"
  ]

  -- What a mutation does with a result: with an acknowledgement it waits on, else it is done.
  abbrev pub mutation_outcome :
      String → ℕ → Bool → Option j.Value → Option (MutationAck j) → Correlator → Correlator
  mutation_outcome request_id tx on_ack structured (some ack) c =
      let c' = acknowledge tx on_ack ack c in
      record c' { pending = insert request_id (mutation tx (some ack) on_ack) c'.pending }
  mutation_outcome request_id tx on_ack structured none c =
      send tx
        (mutation_done (record {
          command = text_or_empty j structured "command";
          tick = 0;
          delta = j.details structured;
          auto_docked = false;
          auto_undocked = false;
        }))
        c

  unfoldable pub mutation_result : String → ℕ → Bool → Option j.Value → Correlator → Correlator
  unfolding extract_pending_ack
  mutation_result request_id tx on_ack structured c =
      mutation_outcome request_id tx on_ack structured (extract_pending_ack j structured) c

  abbrev pub query_outcome : j.Value → Outcome
  query_outcome payload = query_done (record {
    result = or_else (j.get payload "result") j.null;
    structured_content = structured_content payload;
  })

  unfoldable pub handle_result : String → RawFrame j → Correlator → Bool × Correlator
  unfolding cancel mutation_result
  handle_result request_id frame c = elim frame.payload [
    | none ↦ (true, c)
    | some payload ↦ elim (lookup request_id c.pending) [
      | none ↦ (false, c)
      | some (query tx) ↦ (true, send tx (query_outcome payload) (cancel request_id c))
      | some (mutation tx ack on_ack) ↦ (
        true,
        mutation_result request_id tx on_ack (structured_content payload) (cancel request_id c),
      )
    ]
  ]

  abbrev pub action_outcome : Option j.Value → Outcome
  action_outcome payload = mutation_done (record {
    command = text_or_empty j payload "command";
    tick = or_else (and_then (field j payload "tick") j.as_u64) 0;
    delta = or_else (field j payload "result") j.null;
    auto_docked = is_set j payload "auto_docked";
    auto_undocked = is_set j payload "auto_undocked";
  })

  unfoldable pub handle_action_result : String → RawFrame j → Correlator → Bool × Correlator
  unfolding cancel
  handle_action_result request_id frame c = elim (lookup request_id c.pending) [
    | some (mutation tx ack on_ack) ↦
        (true, send tx (action_outcome frame.payload) (cancel request_id c))
    | _ ↦ (true, cancel request_id c)
  ]

  unfoldable pub reject : String → SpacemoltError j → Correlator → Bool × Correlator
  unfolding cancel
  reject request_id error c = elim (lookup request_id c.pending) [
    | none ↦ (false, c)
    | some p ↦ (true, send (channel p) (failed (ClientError.server error)) (cancel request_id c))
  ]

  unfoldable pub reject_action_error : String → RawFrame j → Correlator → Bool × Correlator
  unfolding reject action_error_from_raw
  reject_action_error request_id frame c = reject request_id (action_error_from_raw j frame) c

  unfoldable pub reject_error : String → RawFrame j → Correlator → Bool × Correlator
  unfolding reject error_from_raw
  reject_error request_id frame c = reject request_id (error_from_raw j frame) c

  unfoldable pub handle_of : String → RawFrame j → Correlator → Bool × Correlator
  unfolding has handle_result handle_action_result reject_action_error reject_error
  handle_of request_id frame c =
      if has request_id c
      then (if frame.kind == "result"
          then handle_result request_id frame c
          else if frame.kind == "action_result"
          then handle_action_result request_id frame c
          else if frame.kind == "action_error"
          then reject_action_error request_id frame c
          else if frame.kind == "error"
          then reject_error request_id frame c
          else (false, c))
      else (false, c)

  unfoldable pub handle : RawFrame j → Correlator → Bool × Correlator
  unfolding handle_of
  handle frame c = elim frame.request_id [
    | none ↦ (false, c)
    | some request_id ↦ handle_of request_id frame c
  ]

  -- The same error on every channel; a `HashMap` gives them in any order.
  abbrev pub all_failed : ClientError j → Assoc String Pending → List (ℕ × Outcome)
  all_failed error [] = []
  all_failed error ((id, p) ∷ rest) = (channel p, failed error) ∷ all_failed error rest

  unfoldable pub reject_all_connection_closed : ConnectionClosedError j → Correlator → Correlator
  reject_all_connection_closed error c = record c {
    pending = [];
    sent = c.sent ++ all_failed (ClientError.connection_closed error) c.pending;
  }

  unfoldable pub reject_all_server_error : SpacemoltError j → Correlator → Correlator
  reject_all_server_error error c = record c {
    pending = [];
    sent = c.sent ++ all_failed (ClientError.server error) c.pending;
  }
