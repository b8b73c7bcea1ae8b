-- ===== src/Protocol/Tests.antt =====
-- Runs of the correlator, with documents of one field as JSON values.
use prayer_rs.Prelude.{
  ℕ, ◌+◌, ◌≤◌, ◌≡◌, refl, String, Bool, true, false, Option, none, some, List, [], ◌∷◌,
  if◌then◌else◌, ◌==◌,
}
use prayer_rs.Prelude.Assoc.{lookup, insert, remove, string_Eq}
use prayer_rs.Protocol.Frames.{Json, RawFrame, ConnectionClosedError, SpacemoltError}
use prayer_rs.Protocol.Correlator.{
  Correlator, empty, await_query, handle, has, reject_all_connection_closed,
  reject_all_server_error,
}
use prayer_rs.Protocol.Counting.{waiting, messages}
use prayer_rs.Protocol.Once.{
  Call, mutation_sent, frame_read, run, run-once, rejected_all, handle_declined,
}

data Doc : Type 0 where
  null : Doc
  text : String → Doc
  flag : Bool → Doc
  number : ℕ → Doc
  field : String → Doc → Doc

abbrev get_field : Doc → String → Option Doc
get_field (field key value) wanted = if key == wanted then some value else none
get_field _ wanted = none

abbrev text_of : Doc → Option String
text_of (text s) = some s
text_of _ = none

abbrev flag_of : Doc → Option Bool
flag_of (flag b) = some b
flag_of _ = none

abbrev number_of : Doc → Option ℕ
number_of (number n) = some n
number_of _ = none

abbrev doc_details : Option Doc → Doc
doc_details none = field "details" null
doc_details (some d) = field "details" d

abbrev docs : Json
docs = record {
  Value = Doc;
  get = get_field;
  as_str = text_of;
  as_bool = flag_of;
  as_u64 = number_of;
  null = null;
  details = doc_details;
}

abbrev frame : String → String → Doc → RawFrame docs
frame kind id payload = record { kind = kind; request_id = some id; payload = some payload }

-- A mutation that is acknowledged first and done then, and a frame that comes too late.
abbrev two_phases : List (Call docs)
two_phases =
    mutation_sent "m1" true
    ∷ frame_read (frame "result" "m1" (field "structuredContent" (field "pending" (flag true))))
    ∷ frame_read (frame "action_result" "m1" (field "tick" (number 7)))
    ∷ frame_read (frame "action_result" "m1" (field "tick" (number 8)))
    ∷ []

run-once_example :
    waiting docs 0 (run docs (empty docs) two_phases).pending
      + messages docs 0 (run docs (empty docs) two_phases).sent
    ≤ 1
run-once_example = run-once docs two_phases 0

-- One query in flight.
abbrev one_query : Correlator docs
one_query = await_query docs "q1" (empty docs)

abbrev gone : ConnectionClosedError docs
gone = record { message = "gone"; code = some 4001; reason = none }

abbrev broken : SpacemoltError docs
broken = record {
  code = "broken";
  message = "";
  details = none;
  request_id = none;
  command = none;
  tick = none;
  pending_command = none;
}

rejected_all_example :
    (messages docs 0 (reject_all_connection_closed docs gone one_query).sent
      ≡ messages docs 0 one_query.sent + waiting docs 0 one_query.pending)
    × ((reject_all_connection_closed docs gone one_query).pending ≡ [])
    × (messages docs 0 (reject_all_server_error docs broken one_query).sent
        ≡ messages docs 0 one_query.sent + waiting docs 0 one_query.pending)
    × ((reject_all_server_error docs broken one_query).pending ≡ [])
rejected_all_example = rejected_all docs one_query gone broken 0

late_frame : (handle docs (frame "result" "q2" null) one_query).0 ≡ false
unfolding handle await_query empty lookup insert
late_frame = refl

handle_declined_example : (handle docs (frame "result" "q2" null) one_query).1 ≡ one_query
handle_declined_example = handle_declined docs one_query (frame "result" "q2" null) late_frame

-- A query's channel gets no message from an action result, but the query is dropped.
query_dropped :
    (has docs "q1" (handle docs (frame "action_result" "q1" null) one_query).1 ≡ false)
    × ((handle docs (frame "action_result" "q1" null) one_query).1.sent ≡ [])
unfolding handle has await_query empty lookup insert remove
query_dropped = (refl, refl)
