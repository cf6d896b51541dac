-- ===== src/Msg/Mdt.antt =====
-- The metadata message: detail/msg_mdt_out.hpp and schema/detail/structured_msg.capnp.
use ipc_transport_structured.Prelude.{
  ℕ, ◌≡◌, Bool, ◌&&◌, Option, none, some, List, ◌==◌, if◌then◌else◌,
}

-- `Session_token`, 16 bytes read as two native 64-bit words.
pub record SessionToken : Type 0 where
  pub first8 : ℕ
  pub last8 : ℕ

abbrev pub nil_token : SessionToken
nil_token = record { first8 = 0; last8 = 0 }

unfoldable pub is_nil : SessionToken → Bool
is_nil t = t.first8 == 0 && t.last8 == 0

unfoldable pub token_eq : SessionToken → SessionToken → Bool
token_eq t u = t.first8 == u.first8 && t.last8 == u.last8

-- `boost::endian`: two conversions of a 64-bit word, the second undoing the first.
pub record ByteOrder : Type 0 where
  pub native_to_little : ℕ → ℕ
  pub little_to_native : ℕ → ℕ
  pub little_to_native-native_to_little : (x : ℕ) → little_to_native (native_to_little x) ≡ x

-- `Uuid` of the schema: the two words as they travel.
pub record Uuid : Type 0 where
  pub first8 : ℕ
  pub last8 : ℕ

pub record AuthHeader : Type 0 where
  pub session_token : Option Uuid

-- `InternalMessageBody`; the text of `unexpectedResponse` if that pointer is set.
pub record InternalMessageBody : Type 0 where
  pub unexpected_response : Option (List ℕ)

pub data Body : Type 0 where
  num_body_serialization_segments : ℕ → Body
  internal_message_body : InternalMessageBody → Body

-- `StructuredMessage`. A pointer field that is not set is `none`.
pub record StructuredMessage : Type 0 where
  pub auth_header : Option AuthHeader
  pub id : ℕ
  pub originating_message_or_null : Option ℕ
  pub body : Body

module _ (order : ByteOrder) where
  abbrev encode_token : SessionToken → Uuid
  encode_token t = record {
    first8 = order.native_to_little t.first8;
    last8 = order.native_to_little t.last8;
  }

  abbrev pub decode_token : Uuid → SessionToken
  decode_token u = record {
    first8 = order.little_to_native u.first8;
    last8 = order.little_to_native u.last8;
  }

  -- The constructor of `Msg_mdt_out`.
  unfoldable pub mdt_out : SessionToken → ℕ → ℕ → ℕ → StructuredMessage
  mdt_out token originating_msg_id_or_none id_or_none n_serialization_segments_or_none = record {
    auth_header = some (record { session_token = some (encode_token token) });
    id = id_or_none;
    originating_message_or_null =
        if originating_msg_id_or_none == 0 then none else some originating_msg_id_or_none;
    body =
        if id_or_none == 0
        then internal_message_body (record { unexpected_response = none })
        else num_body_serialization_segments n_serialization_segments_or_none;
  }

-- `internal_msg_body_root().initUnexpectedResponse().setOriginatingMessageMetadataText(text)`.
unfoldable pub set_unexpected_response : List ℕ → StructuredMessage → StructuredMessage
set_unexpected_response text m = record m {
  body = internal_message_body (record { unexpected_response = some text });
}

-- `Msg_in::originating_msg_id_or_none()`, of the metadata that was read.
unfoldable pub originating_or_none : StructuredMessage → ℕ
originating_or_none m = elim m.originating_message_or_null [ none ↦ 0 | some id ↦ id ]

abbrev pub is_internal : Body → Bool
is_internal (num_body_serialization_segments n) = Bool.false
is_internal (internal_message_body b) = Bool.true

abbrev pub segments_of : Body → ℕ
segments_of (num_body_serialization_segments n) = n
segments_of (internal_message_body b) = 0
