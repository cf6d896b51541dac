-- ===== src/Chan/Tests.antt =====
-- A concrete channel to run: payloads are lists of numbers, and the metadata of a message is the
-- payload [token, token, id, originating id, number of segments].
mod Receiving
mod Cached
mod Reading
mod Sending
mod LogIn
mod Starting
mod Transferring
mod Streaming
mod Weaving
mod Conveying
use ipc_transport_structured.Prelude.{
  ℕ, true, false, Option, none, some, List, [], ◌∷◌, refl, ◌==◌, if◌then◌else◌,
}
use ipc_transport_structured.Error.{ErrorCode, struc, misused_schema, Result, ok, err}
use ipc_transport_structured.Msg.Mdt.{
  SessionToken, ByteOrder, StructuredMessage, Body, num_body_serialization_segments, segments_of,
  AuthHeader, Uuid,
}
use ipc_transport_structured.Msg.MsgIn.{Payload, Reader, MsgIn}
use ipc_transport_structured.Chan.State.{Pipes, two_pipes, Sent, Env, MsgOut}

abbrev pub same_order : ByteOrder
same_order = record {
  native_to_little = λ x. x;
  little_to_native = λ x. x;
  little_to_native-native_to_little = λ x. refl;
}

abbrev pub token : SessionToken
token = record { first8 = 7; last8 = 9 }

abbrev pub header : ℕ → ℕ → Option AuthHeader
header a b = some (record { session_token = some (record { first8 = a; last8 = b }) })

abbrev pub user_mdt : ℕ → Option ℕ → ℕ → StructuredMessage
user_mdt id originating n = record {
  auth_header = header 7 9;
  id = id;
  originating_message_or_null = originating;
  body = num_body_serialization_segments n;
}

abbrev pub read_mdt : List Payload → Result StructuredMessage
read_mdt ((a ∷ b ∷ id ∷ originating ∷ n ∷ []) ∷ []) = ok (record {
  auth_header = header a b;
  id = id;
  originating_message_or_null = if originating == 0 then none else some originating;
  body = num_body_serialization_segments n;
})
read_mdt _ = err (struc misused_schema)

abbrev pub read_which : List Payload → Result ℕ
read_which ((which ∷ rest) ∷ segs) = ok which
read_which _ = err (struc misused_schema)

abbrev pub reader : Reader
reader = record {
  alloc = λ sz segs. true;
  deserialize_mdt = read_mdt;
  deserialize_which = read_which;
}

abbrev pub env_over : Pipes → (List Sent → Sent → Option ErrorCode) → Env
env_over pipes transmit = record {
  pipes = pipes;
  reader = reader;
  order = same_order;
  receive_blob_max_size = 64;
  receive_meta_blob_max_size = 64;
  emit_mdt = λ mdt. ok (mdt.id ∷ segments_of mdt.body ∷ []);
  emit_body = λ segs. ok segs;
  mdt_text = λ which mdt. which ∷ [];
  transmit = transmit;
}

abbrev pub env : Env
env = env_over two_pipes (λ sent x. none)

-- A user message as it is when its metadata was deserialized.
abbrev pub message : ℕ → Option ℕ → ℕ → MsgIn
message id originating which = record {
  mdt_reader = some ((7 ∷ 9 ∷ id ∷ 0 ∷ 1 ∷ []) ∷ []);
  body_reader = some ((which ∷ id ∷ []) ∷ []);
  mdt_deserialized_ok = true;
  body_deserialized_ok = false;
  mdt_root = user_mdt id originating 1;
  body_which = which;
  session_token = token;
  hndl_or_null = none;
}
