-- ===== src/Chan/Sending/Ids.antt =====
-- The ids of out-messages, and how a sending call can end.
use ipc_transport_structured.Prelude.{
  ◌<◌, ◌≡◌, refl, true, false, not, ◌&&◌, inl, inr, Option, none, some, List, ◌==◌, arith, is_some,
  Option-cases, either_branch,
}
use ipc_transport_structured.Error.{
  ErrorCode, struc, timeout, object_shutdown_aborted_completion_handler, lower,
  sends_finished_cannot_send,
}
use ipc_transport_structured.Msg.Mdt.{StructuredMessage}
use ipc_transport_structured.Msg.MsgIn.{MsgIn}
use ipc_transport_structured.Chan.State.{
  MsgOut, Sent, Env, Expecting, Chan, id_mod, increment, decrement, is_logged_in, is_srv_log_in,
  is_cli_log_in,
}
use ipc_transport_structured.Chan.Send.{
  Outcome, outcome, send_core, conclude_send, send_impl, checked_send, register, refuse,
  after_srv_log_in, serialize, send_payloads, handle_of, check_unsendable,
}
use ipc_transport_structured.Chan.Sending.Wire.{Result-cases, send_core-opens}

-- A sending call refuses and changes no id, or it hands the message on with the next id.
pub data Sending (s : Chan) : Outcome → Type 0 where
  refused :
      (t : Chan)
      → t.snd_msg_next_id ≡ s.snd_msg_next_id
      → t.channel_err_code_or_ok ≡ s.channel_err_code_or_ok
      → t.phase ≡ s.phase
      → t.sent ≡ s.sent
      → Sending s (outcome t false none)
  peer_done :
      (t : Chan)
      → t.snd_msg_next_id ≡ increment s.snd_msg_next_id
      → t.channel_err_code_or_ok ≡ s.channel_err_code_or_ok
      → t.phase ≡ s.phase
      → Sending s (outcome t false (some sends_finished_cannot_send))
  hosing :
      (t : Chan) (e : ErrorCode)
      → t.snd_msg_next_id ≡ increment s.snd_msg_next_id
      → t.channel_err_code_or_ok ≡ some e
      → t.phase ≡ s.phase
      → Sending s (outcome t true (some e))
  sent :
      (t : Chan)
      → t.snd_msg_next_id ≡ increment s.snd_msg_next_id
      → t.channel_err_code_or_ok ≡ s.channel_err_code_or_ok
      → is_logged_in t.phase ≡ not (is_cli_log_in s.phase)
      → Sending s (outcome t true none)

conclude-Sending :
    (before : Chan) (r : List Sent × Option ErrorCode) (s : Chan)
    → s.snd_msg_next_id ≡ increment before.snd_msg_next_id
    → s.channel_err_code_or_ok ≡ before.channel_err_code_or_ok
    → s.phase ≡ before.phase
    → Sending before (conclude_send false r s)
unfolding conclude_send
conclude-Sending before (xs, none) s i e p =
    sent (record s { sent = xs; phase = after_srv_log_in s.phase }) i e (ground arith)
conclude-Sending before (xs, some sends_finished_cannot_send) s i e p =
    peer_done (record s { sent = xs }) i e p
conclude-Sending before (xs, some (struc c)) s i e p =
    hosing (record s { sent = xs; channel_err_code_or_ok = some (struc c) }) (struc c) i refl p
conclude-Sending before (xs, some timeout) s i e p =
    hosing (record s { sent = xs; channel_err_code_or_ok = some timeout }) timeout i refl p
conclude-Sending before (xs, some object_shutdown_aborted_completion_handler) s i e p =
    hosing
      (record s {
        sent = xs;
        channel_err_code_or_ok = some object_shutdown_aborted_completion_handler;
      })
      object_shutdown_aborted_completion_handler i refl p
conclude-Sending before (xs, some (lower c)) s i e p =
    hosing (record s { sent = xs; channel_err_code_or_ok = some (lower c) }) (lower c) i refl p

refuse-Sending :
    (before s : Chan)
    → before.snd_msg_next_id < id_mod
    → s.snd_msg_next_id ≡ increment before.snd_msg_next_id
    → s.channel_err_code_or_ok ≡ before.channel_err_code_or_ok
    → s.phase ≡ before.phase
    → s.sent ≡ before.sent
    → Sending before (refuse s)
refuse-Sending before s b i e p w =
    refused (record s { snd_msg_next_id = decrement s.snd_msg_next_id }) (omega (arith, i, b)) e p w

module _ (env : Env) where
  core-Sending :
      (mdt : StructuredMessage) (msg : Option MsgOut) (before s : Chan)
      → s.snd_msg_next_id ≡ increment before.snd_msg_next_id
      → s.channel_err_code_or_ok ≡ before.channel_err_code_or_ok
      → s.phase ≡ before.phase
      → Sending before (send_core env mdt msg false s)
  unfolding send_core
  core-Sending mdt msg before s i e p = elim (Option-cases s.proto_neg_err_code_or_ok) [
    | inr (c, f) ↦
        rw (f, send_core) (hosing (record s { channel_err_code_or_ok = some c }) c i refl p)
    | inl f ↦ elim (Result-cases (serialize env mdt msg)) [
      | inr (c, g) ↦
          rw (f, g, send_core) (hosing (record s { channel_err_code_or_ok = some c }) c i refl p)
      | inl (ps, g) ↦
          rw (send_core-opens env mdt msg false s ps f g)
            (conclude-Sending before (send_payloads env (handle_of msg) s.sent ps) s i e p)
    ]
  ]

  pub checked_send-Sending :
      (msg : MsgOut) (originating : Option MsgIn) (on_rsp : Option Expecting) (s : Chan)
      → s.snd_msg_next_id < id_mod
      → Sending s (checked_send env msg originating on_rsp s)
  unfolding send_impl
  checked_send-Sending msg originating on_rsp s b =
      let id = s.snd_msg_next_id in
      let s1 : Chan = record s { snd_msg_next_id = increment id } in
      let s2 = register id on_rsp s1 in
      let kept : (s2.snd_msg_next_id ≡ increment id)
          × (s2.channel_err_code_or_ok ≡ s.channel_err_code_or_ok)
          × (s2.phase ≡ s.phase)
          × (s2.sent ≡ s.sent) =
        ground arith in
      let plain = refuse-Sending s s1 b refl refl refl refl in
      let late = refuse-Sending s s2 b kept.0 kept.1 kept.2 kept.3 in
      let no = refused s refl refl refl refl in
      either_branch (Sending s) (not s.started_ops) no (
        either_branch (Sending s) (check_unsendable env msg) no (
          either_branch (Sending s) (is_some s.channel_err_code_or_ok) no (
            either_branch (Sending s) (not (id == 1) && not (is_logged_in s.phase)) plain (
              either_branch (Sending s) (not (is_some on_rsp) && is_cli_log_in s.phase) plain (
                either_branch (Sending s) (not (is_some originating) && is_srv_log_in s.phase) late
                  (either_branch (Sending s) (is_some originating && is_cli_log_in s.phase) late
                    (core-Sending _ (some msg) s s2 kept.0 kept.1 kept.2)))))))
