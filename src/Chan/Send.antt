-- ===== src/Chan/Send.antt =====
-- Sending: `send`, `async_request`, `send_impl`, `send_core`.
use ipc_transport_structured.Prelude.{
  ℕ, Bool, true, false, not, ◌&&◌, Option, none, some, List, [], ◌∷◌, ◌++◌, ◌==◌, length,
  if◌then◌else◌, is_some,
}
use ipc_transport_structured.Prelude.Map.{emplace}
use ipc_transport_structured.Error.{ErrorCode, sends_finished_cannot_send, Result, ok, err, ◌>>=◌}
use ipc_transport_structured.Msg.Mdt.{StructuredMessage, mdt_out}
use ipc_transport_structured.Msg.MsgIn.{Payload, MsgIn, id_or_none}
use ipc_transport_structured.Chan.State.{
  Pipes, blob_pipe_only, native_handle_pipe_only, two_pipes, Phase, logged_in, srv_log_in,
  is_logged_in, is_srv_log_in, is_cli_log_in, MsgOut, Sent, blob, meta_blob, Env, Expecting, Chan,
  increment, decrement,
}

-- What a sending call returns: the state, the Boolean, and the `*err_code` that it sets.
pub record Outcome : Type 0 where
  pub chan : Chan
  pub returned : Bool
  pub err_code : Option ErrorCode

abbrev pub outcome : Chan → Bool → Option ErrorCode → Outcome
outcome s b e = record { chan = s; returned = b; err_code = e }

module _ (transmit : List Sent → Sent → Option ErrorCode) where
  -- The loops stop at the first error.
  unfoldable pub send_blobs : List Sent → List Payload → List Sent × Option ErrorCode
  send_blobs sent [] = (sent, none)
  send_blobs sent (p ∷ ps) =
      let rest = send_blobs (sent ++ blob p ∷ []) ps in
      elim (transmit sent (blob p)) [ some e ↦ (sent, some e) | none ↦ rest ]

  -- The handle goes with the first blob.
  unfoldable pub send_meta_blobs :
      Option ℕ → List Sent → List Payload → List Sent × Option ErrorCode
  send_meta_blobs hndl sent [] = (sent, none)
  send_meta_blobs hndl sent (p ∷ ps) =
      let rest = send_meta_blobs none (sent ++ meta_blob hndl p ∷ []) ps in
      elim (transmit sent (meta_blob hndl p)) [ some e ↦ (sent, some e) | none ↦ rest ]

unfoldable pub by_pipes :
    Pipes
    → Option ℕ
    → (List Sent → Sent → Option ErrorCode)
    → List Sent
    → List Payload
    → List Sent × Option ErrorCode
by_pipes blob_pipe_only hndl transmit = send_blobs transmit
by_pipes native_handle_pipe_only hndl transmit = send_meta_blobs transmit hndl
by_pipes two_pipes hndl transmit =
    if is_some hndl then send_meta_blobs transmit hndl else send_blobs transmit

unfoldable pub send_payloads :
    Env → Option ℕ → List Sent → List Payload → List Sent × Option ErrorCode
send_payloads env hndl sent ps = by_pipes env.pipes hndl env.transmit sent ps

-- The payloads of a message: the metadata, then the body's segments if there is a body.
unfoldable pub serialize : Env → StructuredMessage → Option MsgOut → Result (List Payload)
serialize env mdt none = do p ← env.emit_mdt mdt; ok (p ∷ [])
serialize env mdt (some m) = do p ← env.emit_mdt mdt; ps ← env.emit_body m.segments; ok (p ∷ ps)

abbrev pub handle_of : Option MsgOut → Option ℕ
handle_of none = none
handle_of (some m) = m.hndl_or_null

-- A failure hoses the channel, unless the caller ignores errors.
abbrev hose : Bool → ErrorCode → Chan → Chan
hose true e s = s
hose false e s = record s { channel_err_code_or_ok = some e }

abbrev pub after_srv_log_in : Phase → Phase
after_srv_log_in srv_log_in = logged_in
after_srv_log_in p = p

-- What `send_core` does once the sends have been tried.
unfoldable pub conclude_send : Bool → List Sent × Option ErrorCode → Chan → Outcome
conclude_send ignore (sent, none) s =
    outcome (record s { sent = sent; phase = after_srv_log_in s.phase }) true none
conclude_send ignore (sent, some sends_finished_cannot_send) s =
    outcome (record s { sent = sent }) false (some sends_finished_cannot_send)
conclude_send ignore (sent, some e) s =
    outcome (hose ignore e (record s { sent = sent })) true (some e)

abbrev pub originating_id : Option MsgIn → ℕ
originating_id none = 0
originating_id (some m) = id_or_none m

-- `on_rsp_func_or_null` and `one_off`: the handler of the response, if one is expected.
abbrev pub register : ℕ → Option Expecting → Chan → Chan
register id none s = s
register id (some e) s = record s {
  rcv_expecting_response_map = emplace id e s.rcv_expecting_response_map;
}

-- `--m_snd_msg_next_id; return false;`
abbrev pub refuse : Chan → Outcome
refuse s = outcome (record s { snd_msg_next_id = decrement s.snd_msg_next_id }) false none

module _ (env : Env) where
  -- `ignore` stands for a null `err_code_or_ignore`.
  unfoldable pub send_core : StructuredMessage → Option MsgOut → Bool → Chan → Outcome
  send_core mdt msg ignore s = elim s.proto_neg_err_code_or_ok [
    | some e ↦ outcome (record s { channel_err_code_or_ok = some e }) true (some e)
    | none ↦ elim (serialize env mdt msg) [
      | err e ↦ outcome (hose ignore e s) true (some e)
      | ok ps ↦ conclude_send ignore (send_payloads env (handle_of msg) s.sent ps) s
    ]
  ]

  unfoldable pub send_impl : MsgOut → Option MsgIn → Option Expecting → Chan → Outcome
  send_impl msg originating on_rsp s =
      let id = s.snd_msg_next_id in
      let s1 : Chan = record s { snd_msg_next_id = increment id } in
      if not (id == 1) && not (is_logged_in s.phase)
      then refuse s1
      else if not (is_some on_rsp) && is_cli_log_in s.phase
      then refuse s1
      else if not (is_some originating) && is_srv_log_in s.phase
      then refuse (register id on_rsp s1)
      else if is_some originating && is_cli_log_in s.phase
      then refuse (register id on_rsp s1)
      else send_core
          (mdt_out env.order s.session_token (originating_id originating) id (length msg.segments))
          (some msg) false (register id on_rsp s1)

  abbrev pub check_unsendable : MsgOut → Bool
  check_unsendable msg = elim env.pipes [ blob_pipe_only ↦ is_some msg.hndl_or_null | _ ↦ false ]

  abbrev pub checked_send : MsgOut → Option MsgIn → Option Expecting → Chan → Outcome
  checked_send msg originating on_rsp s =
      if not s.started_ops
      then outcome s false none
      else if check_unsendable msg
      then outcome s false none
      else if is_some s.channel_err_code_or_ok
      then outcome s false none
      else send_impl msg originating on_rsp s

  unfoldable pub send : MsgOut → Option MsgIn → Chan → Outcome
  send msg originating s = checked_send msg originating none s

  -- The id that a caller of an open-ended request is told is the id that was next.
  unfoldable pub async_request : MsgOut → Option MsgIn → Expecting → Chan → Outcome
  async_request msg originating on_rsp s = checked_send msg originating (some on_rsp) s
