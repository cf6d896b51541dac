-- ===== src/Msg/Tests.antt =====
-- Metadata that is read.
use ipc_transport_structured.Prelude.{
  List, [], ◌∷◌, ◌≡◌, ◌↔◌, ◌⊎◌, inr, refl, true, false, none, some, ◌==◌, if◌then◌else◌, arith,
}
use ipc_transport_structured.Error.{struc, misused_schema, ok, err}
use ipc_transport_structured.Msg.Mdt.{
  SessionToken, ByteOrder, StructuredMessage, Uuid, mdt_out, num_body_serialization_segments,
}
use ipc_transport_structured.Msg.MsgIn.{
  Reader, new_msg_in, segments_so_far, token_of, accept_mdt, deserialize_mdt, id_or_none,
  originating_msg_id_or_none,
}
use ipc_transport_structured.Msg.Out.{new_blank}
use ipc_transport_structured.Msg.Out.Handles.{Change, stores, takes, live, live-all_handles}
use ipc_transport_structured.Msg.RoundTrip.{
  IsSound, deserialize_mdt-IsSound, deserialize_mdt_refused, deserialize_mdt-mdt_out,
}

abbrev token : SessionToken
token = record { first8 = 7; last8 = 9 }

abbrev order : ByteOrder
order = record {
  native_to_little = λ x. x;
  little_to_native = λ x. x;
  little_to_native-native_to_little = λ x. refl;
}

-- A reader that reads one fixed message.
abbrev reading : StructuredMessage → Reader
reading root = record {
  alloc = λ sz segs. true;
  deserialize_mdt = λ segs. ok root;
  deserialize_which = λ segs. ok 5;
}

abbrev good : StructuredMessage
good = mdt_out order token 3 4 2

-- A message without a header.
abbrev bare : StructuredMessage
bare = record {
  auth_header = none;
  id = 4;
  originating_message_or_null = none;
  body = num_body_serialization_segments 2;
}

deserialize_mdt-mdt_out_example :
    let r = deserialize_mdt (reading good) order new_msg_in in
    (r.1 ≡ ok (if 4 == 0 then 0 else 2))
    × (r.0.session_token ≡ token)
    × (id_or_none r.0 ≡ 4)
    × (originating_msg_id_or_none r.0 ≡ 3)
    × (r.0.mdt_deserialized_ok ≡ true)
    × (r.0.hndl_or_null ≡ new_msg_in.hndl_or_null)
deserialize_mdt-mdt_out_example =
    deserialize_mdt-mdt_out (reading good) order new_msg_in token 3 4 2
      (inr (λ e. omega (arith, e))) refl

deserialize_mdt-IsSound_example :
    ((deserialize_mdt (reading good) order new_msg_in).1 ≡ ok 2)
    ↔ (((uuid : Uuid) × (token_of good ≡ some uuid)) × IsSound good 2)
deserialize_mdt-IsSound_example =
    deserialize_mdt-IsSound (reading good) order new_msg_in good 2 refl

bare_refused :
    (new_msg_in.mdt_deserialized_ok ≡ false)
    × ((deserialize_mdt (reading bare) order new_msg_in).1 ≡ err (struc misused_schema))
unfolding new_msg_in deserialize_mdt accept_mdt token_of
bare_refused = (refl, refl)

deserialize_mdt_refused_example :
    ((deserialize_mdt (reading bare) order new_msg_in).0.mdt_deserialized_ok ≡ false)
    × (((reading bare).deserialize_mdt (segments_so_far new_msg_in.mdt_reader)
          ≡ err (struc misused_schema))
        ⊎ (struc misused_schema ≡ struc misused_schema))
deserialize_mdt_refused_example =
    deserialize_mdt_refused (reading bare) order new_msg_in {e = struc misused_schema}
      bare_refused.0 bare_refused.1

-- A message that is given two handles, takes another message, and loses its handle.
abbrev changes : List Change
changes =
    stores (some 3)
    ∷ stores (some 4)
    ∷ takes (record new_blank { hndl_or_null = some 5 })
    ∷ stores none
    ∷ []

live-all_handles_example : live changes new_blank (9 ∷ []) ≡ 9 ∷ 3 ∷ 4 ∷ 5 ∷ []
unfolding new_blank
live-all_handles_example =
    live-all_handles changes new_blank (9 ∷ []) (refl, (refl, (refl, (refl, tt))))
