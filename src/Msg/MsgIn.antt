-- ===== src/Msg/MsgIn.antt =====
-- `Msg_in` of msg.hpp: an in-message under assembly.
use ipc_transport_structured.Prelude.{
  ℕ, Bool, true, false, ◌&&◌, Option, none, some, List, [], ◌∷◌, ◌++◌, ◌==◌, if◌then◌else◌, is_some,
}
use ipc_transport_structured.Error.{ErrorCode, struc, misused_schema, Result, ok, err}
use ipc_transport_structured.Msg.Mdt.{
  SessionToken, nil_token, ByteOrder, decode_token, StructuredMessage, Uuid, originating_or_none,
  is_internal, segments_of, num_body_serialization_segments,
}

-- The bytes of one unstructured message.
abbrev pub Payload : Type 0
Payload = List ℕ

-- What a Struct_reader offers: whether it gives memory for one more segment of the size named, and
-- the two deserializations that the channel asks for; of the body only `which()` is used here.
pub record Reader : Type 0 where
  pub alloc : ℕ → List Payload → Bool
  pub deserialize_mdt : List Payload → Result StructuredMessage
  pub deserialize_which : List Payload → Result ℕ

pub record MsgIn : Type 0 where
  pub mdt_reader : Option (List Payload)
  pub body_reader : Option (List Payload)
  pub mdt_deserialized_ok : Bool
  pub body_deserialized_ok : Bool
  pub mdt_root : StructuredMessage
  pub body_which : ℕ
  pub session_token : SessionToken
  pub hndl_or_null : Option ℕ

abbrev blank_mdt : StructuredMessage
blank_mdt = record {
  auth_header = none;
  id = 0;
  originating_message_or_null = none;
  body = num_body_serialization_segments 0;
}

-- The constructor.
unfoldable pub new_msg_in : MsgIn
new_msg_in = record {
  mdt_reader = none;
  body_reader = none;
  mdt_deserialized_ok = false;
  body_deserialized_ok = false;
  mdt_root = blank_mdt;
  body_which = 0;
  session_token = nil_token;
  hndl_or_null = none;
}

unfoldable pub store_native_handle_or_null : Option ℕ → MsgIn → MsgIn
store_native_handle_or_null hndl m = record m { hndl_or_null = hndl }

unfoldable pub id_or_none : MsgIn → ℕ
id_or_none m = m.mdt_root.id

unfoldable pub originating_msg_id_or_none : MsgIn → ℕ
originating_msg_id_or_none m = originating_or_none m.mdt_root

-- The last segment takes the bytes that arrived.
unfoldable pub set_last : Payload → List Payload → List Payload
set_last p [] = []
set_last p (x ∷ []) = p ∷ []
set_last p (x ∷ y ∷ r) = x ∷ set_last p (y ∷ r)

-- The receive fills the blob that `add_serialization_segment` returned last, and `resize` trims it.
unfoldable pub fill_target : Payload → MsgIn → MsgIn
fill_target p m = elim m.body_reader [
  | some segs ↦ record m { body_reader = some (set_last p segs) }
  | none ↦ elim m.mdt_reader [
    | some segs ↦ record m { mdt_reader = some (set_last p segs) }
    | none ↦ m
  ]
]

abbrev pub segments_so_far : Option (List Payload) → List Payload
segments_so_far none = []
segments_so_far (some segs) = segs

-- A reader's own call: the new segment is empty until a receive fills it.
abbrev grown : Reader → ℕ → List Payload → List Payload
grown reader max_sz segs = if reader.alloc max_sz segs then segs ++ [] ∷ [] else segs

-- `false` stands for the null pointer.
unfoldable pub add_serialization_segment : Reader → ℕ → MsgIn → MsgIn × Bool
add_serialization_segment reader max_sz m = elim m.mdt_reader [
  | none ↦ (record m { mdt_reader = some (grown reader max_sz []) }, reader.alloc max_sz [])
  | some _ ↦ (
    record m { body_reader = some (grown reader max_sz (segments_so_far m.body_reader)) },
    reader.alloc max_sz (segments_so_far m.body_reader),
  )
]

-- The session token in the header, where both pointers are set.
unfoldable pub token_of : StructuredMessage → Option Uuid
token_of root = elim root.auth_header [ none ↦ none | some h ↦ h.session_token ]

-- The checks of `deserialize_mdt` after the token, with the count of body segments to expect.
unfoldable pub check_ids : StructuredMessage → Result ℕ
check_ids root =
    if is_some root.originating_message_or_null && originating_or_none root == 0
    then err (struc misused_schema)
    else if is_internal root.body
    then if root.id == 0 then ok 0 else err (struc misused_schema)
    else if root.id == 0
    then err (struc misused_schema)
    else if segments_of root.body == 0
    then err (struc misused_schema)
    else ok (segments_of root.body)

-- What follows the deserialization proper; `mdt_deserialized_ok` is off again on an error.
unfoldable pub accept_mdt : ByteOrder → StructuredMessage → MsgIn → MsgIn × Result ℕ
accept_mdt order root m = elim (token_of root) [
  | none ↦ (record m { mdt_root = root; mdt_deserialized_ok = false }, err (struc misused_schema))
  | some uuid ↦
      let m' : MsgIn = record m { mdt_root = root; session_token = decode_token order uuid } in
      elim (check_ids root) [
        | ok n ↦ (record m' { mdt_deserialized_ok = true }, ok n)
        | err e ↦ (record m' { mdt_deserialized_ok = false }, err e)
      ]
]

-- The number is that of the body segments to expect.
unfoldable pub deserialize_mdt : Reader → ByteOrder → MsgIn → MsgIn × Result ℕ
deserialize_mdt reader order m = elim (reader.deserialize_mdt (segments_so_far m.mdt_reader)) [
  | err e ↦ (m, err e)
  | ok root ↦ accept_mdt order root m
]

unfoldable pub deserialize_body : Reader → MsgIn → MsgIn × Option ErrorCode
deserialize_body reader m = elim (reader.deserialize_which (segments_so_far m.body_reader)) [
  | err e ↦ (m, some e)
  | ok which ↦ (record m { body_which = which; body_deserialized_ok = true }, none)
]
