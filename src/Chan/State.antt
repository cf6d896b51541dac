-- ===== src/Chan/State.antt =====
-- The data members of `sync_io::Channel`, what it asks of the parts that it is given, and the
-- helpers that only read or set a member.
use ipc_transport_structured.Prelude.{ℕ, ◌+◌, ◌-◌, ◌%◌, ◌^◌, Bool, true, false, Option, List}
use ipc_transport_structured.Prelude.Map.{Map}
use ipc_transport_structured.Error.{ErrorCode, Result}
use ipc_transport_structured.Msg.Mdt.{SessionToken, StructuredMessage, ByteOrder}
use ipc_transport_structured.Msg.MsgIn.{Payload, Reader, MsgIn}
pub use ipc_transport_structured.Msg.Out.{MsgOut}

-- `S_HAS_BLOB_PIPE_ONLY`, `S_HAS_NATIVE_HANDLE_PIPE_ONLY` and `S_HAS_2_PIPES`.
pub data Pipes : Type 0 where
  blob_pipe_only native_handle_pipe_only two_pipes : Pipes

abbrev pub has_2_pipes : Pipes → Bool
has_2_pipes two_pipes = true
has_2_pipes _ = false

pub data Phase : Type 0 where
  logged_in srv_log_in cli_log_in : Phase

abbrev pub is_logged_in : Phase → Bool
is_logged_in logged_in = true
is_logged_in _ = false

abbrev pub is_srv_log_in : Phase → Bool
is_srv_log_in srv_log_in = true
is_srv_log_in _ = false

abbrev pub is_cli_log_in : Phase → Bool
is_cli_log_in cli_log_in = true
is_cli_log_in _ = false

-- One unstructured message handed to the owned channel.
pub data Sent : Type 0 where
  blob : Payload → Sent
  meta_blob : Option ℕ → Payload → Sent

-- The parts that the channel is built over. `transmit` is the answer of the owned channel to a send,
-- given all that it was sent before; `mdt_text` is the pretty-printed metadata in an internal
-- message.
pub record Env : Type 0 where
  pub pipes : Pipes
  pub reader : Reader
  pub order : ByteOrder
  pub receive_blob_max_size : ℕ
  pub receive_meta_blob_max_size : ℕ
  pub emit_mdt : StructuredMessage → Result Payload
  pub emit_body : List Payload → Result (List Payload)
  pub mdt_text : ℕ → StructuredMessage → List ℕ
  pub transmit : List Sent → Sent → Option ErrorCode

-- A handler of the user is a number.
pub record Expecting : Type 0 where
  pub one_expected : Bool
  pub on_msg_func : ℕ

-- The closures that `handlers_post` is given.
pub data Task : Type 0 where
  deliver : ℕ → MsgIn → Task
  unexpected_response : MsgIn → Task
  remote_unexpected_response : ℕ → List ℕ → Task
  report_error : Task

-- A call of a handler of the user.
pub data Event : Type 0 where
  on_msg : ℕ → MsgIn → Event
  on_unexpected_response : ℕ → MsgIn → Event
  on_remote_unexpected_response : ℕ → ℕ → List ℕ → Event
  on_error : ℕ → Option ErrorCode → Event

pub record Chan : Type 0 where
  pub started_ops : Bool
  pub proto_neg_err_code_or_ok : Option ErrorCode
  pub on_err_func : Option ℕ
  pub on_unexpected_response_func : Option ℕ
  pub on_remote_unexpected_response_func : Option ℕ
  pub session_token : SessionToken
  pub snd_msg_next_id : ℕ
  pub phase : Phase
  pub phase_log_in_started : Bool
  pub channel_err_code_or_ok : Option ErrorCode
  pub rcv_expecting_response_map : Map Expecting
  pub rcv_expecting_msg_map : Map Expecting
  pub rcv_msg_next_id : ℕ
  pub rcv_reassembly_q : Map MsgIn
  pub rcv_pending_msgs : Map (List MsgIn)
  pub sync_io_handlers : List Task
  pub sent : List Sent  -- what the owned channel was handed, in order
  pub events : List Event  -- the calls made of the user's handlers, in order

-- `msg_id_t` is `uint64_t`.
abbrev pub id_mod : ℕ
id_mod = 2 ^ 64

abbrev pub increment : ℕ → ℕ
increment id = (id + 1) % id_mod

abbrev pub decrement : ℕ → ℕ
decrement id = (id + id_mod - 1) % id_mod
