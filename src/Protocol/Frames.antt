-- ===== src/Protocol/Frames.antt =====
-- The frames, results and errors of spacemolt-lib-rs/src/protocol.rs and src/errors.rs that the
-- correlator reads and makes, and what it reads from them.
use prayer_rs.Prelude.{ℕ, String, Bool, true, false, Option, none, some, if◌then◌else◌}

-- `serde_json::Value`, with the methods that are called on it.
pub record Json : Type 1 where
  pub Value : Type 0
  pub get : Value → String → Option Value
  pub as_str : Value → Option String
  pub as_bool : Value → Option Bool
  pub as_u64 : Value → Option ℕ
  pub null : Value
  -- `json!({ "details": v })`
  pub details : Option Value → Value

-- `and_then` and `unwrap_or` on an `Option`.
abbrev pub and_then {ℓ κ} : {A : Type ℓ} {B : Type κ} → Option A → (A → Option B) → Option B
and_then none f = none
and_then (some a) f = f a

abbrev pub or_else {ℓ} : {A : Type ℓ} → Option A → A → A
or_else none d = d
or_else (some a) d = a

module _ (j : Json) where
  pub record RawFrame : Type 0 where
    pub kind : String
    pub request_id : Option String
    pub payload : Option j.Value

  pub record QueryResult : Type 0 where
    pub result : j.Value
    pub structured_content : Option j.Value

  pub record MutationResult : Type 0 where
    pub command : String
    pub tick : ℕ
    pub delta : j.Value
    pub auto_docked : Bool
    pub auto_undocked : Bool

  pub record MutationAck : Type 0 where
    pub pending : Bool
    pub command : String
    pub message : String

  pub record SpacemoltError : Type 0 where
    pub code : String
    pub message : String
    pub details : Option j.Value
    pub request_id : Option String
    pub command : Option String
    pub tick : Option ℕ
    pub pending_command : Option String

  pub record ConnectionClosedError : Type 0 where
    pub message : String
    pub code : Option ℕ
    pub reason : Option String

  -- The variants of `ClientError` that the correlator makes.
  pub data ClientError : Type 0 where
    server : SpacemoltError → ClientError
    connection_closed : ConnectionClosedError → ClientError

  abbrev pub field : Option j.Value → String → Option j.Value
  field value key = and_then value (λ v. j.get v key)

  abbrev pub text_or_empty : Option j.Value → String → String
  text_or_empty value key = or_else (and_then (field value key) j.as_str) ""

  abbrev pub is_set : Option j.Value → String → Bool
  is_set value key = or_else (and_then (field value key) j.as_bool) false

  unfoldable pub extract_pending_ack : Option j.Value → Option MutationAck
  extract_pending_ack none = none
  extract_pending_ack (some structured) =
      if is_set (some structured) "pending"
      then some (record {
        pending = true;
        command = text_or_empty (some structured) "command";
        message = text_or_empty (some structured) "message";
      })
      else elim (j.get structured "details") [
        | none ↦ none
        | some inner ↦
            if is_set (some inner) "pending"
            then some (record {
              pending = true;
              command = text_or_empty (some inner) "command";
              message = text_or_empty (some inner) "message";
            })
            else none
      ]

  unfoldable pub error_from_raw : RawFrame → SpacemoltError
  error_from_raw frame = record {
    code = text_or_empty frame.payload "code";
    message = text_or_empty frame.payload "message";
    details = field frame.payload "details";
    request_id = frame.request_id;
    command = none;
    tick = none;
    pending_command = and_then (field frame.payload "pending_command") j.as_str;
  }

  unfoldable pub action_error_from_raw : RawFrame → SpacemoltError
  action_error_from_raw frame = record {
    code = text_or_empty frame.payload "code";
    message = text_or_empty frame.payload "message";
    details = field frame.payload "details";
    request_id = frame.request_id;
    command = and_then (field frame.payload "command") j.as_str;
    tick = and_then (field frame.payload "tick") j.as_u64;
    pending_command = none;
  }
