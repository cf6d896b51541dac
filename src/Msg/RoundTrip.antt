-- ===== src/Msg/RoundTrip.antt =====
-- What the metadata reader accepts, and that it reads back what the metadata writer wrote.
use ipc_transport_structured.Prelude.{
  ℕ, ◌≡◌, ◌≢◌, ◌↔◌, ◌⊎◌, inl, inr, true, false, some, ◌==◌, if◌then◌else◌, arith, Bool-cases,
  Option-cases,
}
use ipc_transport_structured.Error.{ErrorCode, struc, misused_schema, ok, err}
use ipc_transport_structured.Msg.Mdt.{
  originating_or_none, SessionToken, ByteOrder, mdt_out, StructuredMessage, Uuid, is_internal,
  segments_of,
}
use ipc_transport_structured.Msg.MsgIn.{
  accept_mdt, Reader, MsgIn, segments_so_far, token_of, check_ids, deserialize_mdt,
  originating_msg_id_or_none, id_or_none,
}

-- The shape that a metadata message must have for the body to take `n` segments.
pub data IsSound (root : StructuredMessage) (n : ℕ) : Type 0 where
  internal :
      is_internal root.body ≡ true
      → root.id ≡ 0
      → n ≡ 0
      → root.originating_message_or_null ≢ some 0
      → IsSound root n
  user :
      is_internal root.body ≡ false
      → root.id ≢ 0
      → n ≢ 0
      → segments_of root.body ≡ n
      → root.originating_message_or_null ≢ some 0
      → IsSound root n

check_ids_sound : (root : StructuredMessage) (n : ℕ) → IsSound root n → check_ids root ≡ ok n
unfolding check_ids originating_or_none
check_ids_sound root n (internal b i z o) = ground arith
check_ids_sound root n (user b i z s o) = ground arith

IsSound-check_ids : (root : StructuredMessage) (n : ℕ) → check_ids root ≡ ok n → IsSound root n
unfolding check_ids originating_or_none
IsSound-check_ids root n h = elim (Bool-cases (is_internal root.body)) [
  | inl b ↦ internal b (ground arith) (ground arith) (λ o. ground arith)
  | inr b ↦ user b (λ z. ground arith) (λ z. ground arith) (ground arith) (λ o. ground arith)
]

-- The metadata of a message is accepted exactly when it bears a session token and has the sound
-- shape, and the count that the reader returns is then the number of body segments that it states.
pub deserialize_mdt-IsSound :
    (reader : Reader) (order : ByteOrder) (m : MsgIn) (root : StructuredMessage) (n : ℕ)
    → reader.deserialize_mdt (segments_so_far m.mdt_reader) ≡ ok root
    → ((deserialize_mdt reader order m).1 ≡ ok n)
      ↔ (((uuid : Uuid) × (token_of root ≡ some uuid)) × IsSound root n)
unfolding deserialize_mdt accept_mdt
deserialize_mdt-IsSound reader order m root n e = (to, from)
  where
    to :
        (deserialize_mdt reader order m).1 ≡ ok n
        → ((uuid : Uuid) × (token_of root ≡ some uuid)) × IsSound root n
    to h = elim (Option-cases (token_of root)) [
      | inl t ↦ absurd (ground arith)
      | inr (uuid, t) ↦ ((uuid, t), IsSound-check_ids root n (ground arith))
    ]

    from :
        ((uuid : Uuid) × (token_of root ≡ some uuid)) × IsSound root n
        → (deserialize_mdt reader order m).1 ≡ ok n
    from ((uuid, t), s) = ground (arith, check_ids_sound root n s)

-- A refused metadata message leaves the in-message marked as not deserialized, and the code is the
-- reader's own or the one for a misused schema.
pub deserialize_mdt_refused :
    (reader : Reader) (order : ByteOrder) (m : MsgIn) {e : ErrorCode}
    → m.mdt_deserialized_ok ≡ false
    → (deserialize_mdt reader order m).1 ≡ err e
    → ((deserialize_mdt reader order m).0.mdt_deserialized_ok ≡ false)
      × ((reader.deserialize_mdt (segments_so_far m.mdt_reader) ≡ err e)
          ⊎ (e ≡ struc misused_schema))
unfolding deserialize_mdt accept_mdt check_ids
deserialize_mdt_refused reader order m f h = ground arith

-- What the sender's constructor writes, the receiver reads back: the session token, the id, the
-- originating id (0 for none) and, for a user message with segments, their number.
pub deserialize_mdt-mdt_out :
    (reader : Reader) (order : ByteOrder) (m : MsgIn) (token : SessionToken) (originating id n : ℕ)
    → (id ≡ 0) ⊎ (n ≢ 0)
    → reader.deserialize_mdt (segments_so_far m.mdt_reader)
      ≡ ok (mdt_out order token originating id n)
    → let r = deserialize_mdt reader order m in
      (r.1 ≡ ok (if id == 0 then 0 else n))
      × (r.0.session_token ≡ token)
      × (id_or_none r.0 ≡ id)
      × (originating_msg_id_or_none r.0 ≡ originating)
      × (r.0.mdt_deserialized_ok ≡ true)
      × (r.0.hndl_or_null ≡ m.hndl_or_null)
unfolding deserialize_mdt accept_mdt mdt_out check_ids token_of originating_msg_id_or_none
    id_or_none originating_or_none
deserialize_mdt-mdt_out reader order m token originating id n s e = ground (
  arith,
  order.little_to_native-native_to_little token.first8,
  order.little_to_native-native_to_little token.last8,
)
