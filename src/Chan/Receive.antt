-- ===== src/Chan/Receive.antt =====
-- A complete structured in-message: `rcv_struct_new_msg_in` and what it calls before the dispatch.
use ipc_transport_structured.Prelude.{
  ℕ, Bool, true, false, not, ◌&&◌, Option, none, some, List, [], ◌∷◌, ◌==◌, ltb, length, is_empty,
  if◌then◌else◌, is_some,
}
use ipc_transport_structured.Prelude.Map.{Map, find, insert_ordered}
use ipc_transport_structured.Error.{
  NonzeroCode, ErrorCode, struc, misused_schema, log_in_misused_schema, bad_auth,
  internal_msg_type_unknown, got_unexpected_log_in_request,
}
use ipc_transport_structured.Msg.Mdt.{
  Body, num_body_serialization_segments, internal_message_body, is_nil, token_eq,
}
use ipc_transport_structured.Msg.MsgIn.{
  MsgIn, id_or_none, originating_msg_id_or_none, deserialize_body,
}
use ipc_transport_structured.Chan.State.{
  has_2_pipes, logged_in, srv_log_in, cli_log_in, is_logged_in, Env, Expecting,
  remote_unexpected_response, Chan, increment,
}
use ipc_transport_structured.Chan.Handlers.{handlers_post, handle_new_error}
use ipc_transport_structured.Chan.Dispatch.{is_next_expected}

-- `handle_new_error(code); return false;`
abbrev pub fail : NonzeroCode → Chan → Chan × Bool
fail c s = (handle_new_error (some (struc c)) s, false)

abbrev pub unexpected_response_text : Body → Option (List ℕ)
unexpected_response_text (num_body_serialization_segments n) = none
unexpected_response_text (internal_message_body b) = b.unexpected_response

unfoldable pub new_internal_msg_in : MsgIn → Chan → Chan × Bool
new_internal_msg_in m s = elim (unexpected_response_text m.mdt_root.body) [
  | none ↦ fail internal_msg_type_unknown s
  | some text ↦
      if originating_msg_id_or_none m == 0
      then fail misused_schema s
      else (handlers_post (remote_unexpected_response (originating_msg_id_or_none m) text) s, true)
]

-- `m_rcv_expecting_msg_map.begin()->first`, asked of a map with one entry.
abbrev pub first_key : Map Expecting → ℕ
first_key [] = 0
first_key ((k, e) ∷ m) = k

module _ (env : Env) where
  unfoldable pub new_msg_in_during_log_in_as_cli : MsgIn → Chan → Chan × Bool
  new_msg_in_during_log_in_as_cli m s =
      if not (length s.rcv_expecting_response_map == 1)
      then fail log_in_misused_schema s
      else if not (originating_msg_id_or_none m == 1)
      then fail log_in_misused_schema s
      else let s1 : Chan = record s { session_token = m.session_token } in
        if is_nil m.session_token
        then fail log_in_misused_schema s1
        else (is_next_expected env m (record s1 { phase = logged_in }), true)

  unfoldable pub new_msg_in_during_log_in_as_srv : MsgIn → Chan → Chan × Bool
  new_msg_in_during_log_in_as_srv m s =
      if not (originating_msg_id_or_none m == 0)
      then fail log_in_misused_schema s
      else if length s.rcv_expecting_msg_map == 1
      then (if first_key s.rcv_expecting_msg_map == m.body_which
          then (is_next_expected env m s, true)
          else fail got_unexpected_log_in_request s)
      else if is_empty s.rcv_pending_msgs
      then (is_next_expected env m s, true)
      else fail log_in_misused_schema s

  -- The `while` over the reassembly queue, a recursion on the queue as it stands before.
  unfoldable pub drain_reassembly_q : Map MsgIn → Chan → Chan
  drain_reassembly_q [] s = s
  drain_reassembly_q ((id, m) ∷ q) s = elim (id == s.rcv_msg_next_id) [
    | true ↦ drain_reassembly_q q (
        is_next_expected env m
          (record s { rcv_reassembly_q = q; rcv_msg_next_id = increment s.rcv_msg_next_id }))
    | false ↦ s
  ]

  -- A message whose id is the one awaited.
  unfoldable pub accept_in_order : MsgIn → Chan → Chan × Bool
  accept_in_order m s =
      let s1 : Chan = record s { rcv_msg_next_id = increment s.rcv_msg_next_id } in
      elim s.phase [
        | cli_log_in ↦ new_msg_in_during_log_in_as_cli m s1
        | srv_log_in ↦ new_msg_in_during_log_in_as_srv m s1
        | logged_in ↦
            let s2 = is_next_expected env m s1 in
            (if has_2_pipes env.pipes then drain_reassembly_q s2.rcv_reassembly_q s2 else s2, true)
      ]

  -- A message whose id is another than the one awaited.
  unfoldable pub accept_out_of_order : MsgIn → Chan → Chan × Bool
  accept_out_of_order m s =
      if ltb (id_or_none m) s.rcv_msg_next_id
      then fail misused_schema s
      else if not (has_2_pipes env.pipes)
      then fail misused_schema s
      else if not (is_logged_in s.phase)
      then fail misused_schema s
      else if is_some (find (id_or_none m) s.rcv_reassembly_q)
      then fail misused_schema s
      else (
        record s { rcv_reassembly_q = insert_ordered (id_or_none m) m s.rcv_reassembly_q },
        true,
      )

  -- From the sequence number on.
  unfoldable pub accept_by_id : MsgIn → Chan → Chan × Bool
  accept_by_id m s =
      if id_or_none m == 0
      then new_internal_msg_in m s
      else if not (id_or_none m == s.rcv_msg_next_id)
      then accept_out_of_order m s
      else if ltb 1 s.rcv_msg_next_id && not (is_logged_in s.phase)
      then fail misused_schema s
      else accept_in_order m s

  -- The session token that the phase calls for, and the code if it is another.
  unfoldable pub token_error : MsgIn → Chan → Option NonzeroCode
  token_error m s = elim s.phase [
    | srv_log_in ↦ if is_nil m.session_token then none else some log_in_misused_schema
    | cli_log_in ↦ if is_nil m.session_token then some log_in_misused_schema else none
    | logged_in ↦ if token_eq m.session_token s.session_token then none else some bad_auth
  ]

  unfoldable pub authenticate : MsgIn → Chan → Chan × Bool
  authenticate m s = elim (token_error m s) [ some c ↦ fail c s | none ↦ accept_by_id m s ]

  abbrev pub body_then : MsgIn × Option ErrorCode → Chan → Chan × Bool
  body_then (m, some e) s = (handle_new_error (some e) s, false)
  body_then (m, none) s = authenticate m s

  unfoldable pub new_msg_in : MsgIn → Chan → Chan × Bool
  new_msg_in m s =
      if id_or_none m == 0 then authenticate m s else body_then (deserialize_body env.reader m) s
