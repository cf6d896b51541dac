-- ===== src/Chan/LogIn/Runs.antt =====
-- The log-in phase over a run of calls and reads.
use ipc_transport_structured.Prelude.{
  ◌≢◌, ap, ◌≤◌, ◌≡◌, refl, false, not, ◌&&◌, inl, inr, Option, none, some, arith, ◌==◌, length,
  is_some, Bool-cases, either_branch,
}
use ipc_transport_structured.Msg.Mdt.{StructuredMessage, mdt_out}
use ipc_transport_structured.Msg.MsgIn.{MsgIn}
use ipc_transport_structured.Chan.State.{
  logged_in, is_logged_in, is_srv_log_in, is_cli_log_in, MsgOut, Env, Expecting, Chan, increment,
}
use ipc_transport_structured.Chan.Handlers.{handlers_post, handle_new_error}
use ipc_transport_structured.Chan.Send.{
  Outcome, conclude_send, send_core, send_impl, checked_send, send, async_request, originating_id,
  register, refuse, check_unsendable,
}
use ipc_transport_structured.Chan.Expect.{
  take_pending, expect_msgs_impl, expect_msg, expect_msgs, expect_log_in_request, undo_expect_msgs,
  undo_expect_responses, set_unexpected_response_handler, unset_unexpected_response_handler,
  set_remote_unexpected_response_handler, unset_remote_unexpected_response_handler,
}
use ipc_transport_structured.Chan.Start.{start_and_poll, Negotiators, start_ops, send_proto_neg}
use ipc_transport_structured.Chan.Errors.Steps.Negotiates.{
  Negotiates, untouched, polls, hosed, on_async_read_proto_neg_msg-Negotiates,
}
use ipc_transport_structured.Chan.Frame.{send_core-SameBase}
use ipc_transport_structured.Chan.Errors.Steps.{
  Step, sends, requests, expects_one, expects, expects_log_in, forgets_msgs, forgets_responses,
  sets_unexpected, unsets_unexpected, sets_remote, unsets_remote, starts, reads_lead, reads_cont,
  Steps, done, and_then, starts_ops, reads_negotiation,
}
use ipc_transport_structured.Chan.LogIn.{Logs, Logs-trans, Logs-same, Logs-alike, hosed-Logs}
use ipc_transport_structured.Chan.LogIn.Reads.{polled-Logs, lead-Logs, cont-Logs}

abbrev Call : Chan → Outcome → Type 0
Call s o = Logs s o.chan

Negotiates-Logs : (s t : Chan) → Negotiates s t → Logs s t
Negotiates-Logs s t untouched = Logs-same s s refl refl refl refl
Negotiates-Logs s t polls = polled-Logs s s (Logs-same s s refl refl refl refl)
Negotiates-Logs s t (hosed e c) = polled-Logs s _ (hosed-Logs (some e) s)

module _ (env : Env) where
  core-Logs :
      (mdt : StructuredMessage) (msg : Option MsgOut) (s : Chan)
      → Call s (send_core env mdt msg false s)
  core-Logs mdt msg s =
      let same = send_core-SameBase env mdt msg false s in
      record {
        stays = λ h. unfold send_core in unfold conclude_send in ground arith;
        token = λ h. same.token;
        snd = λ h b. omega (arith, same.snd_next, b);
        rcv = λ h b. omega (arith, same.rcv_next, b);
      }

  refuse-Logs :
      (s t : Chan)
      → t.phase ≡ s.phase
      → t.session_token ≡ s.session_token
      → t.rcv_msg_next_id ≡ s.rcv_msg_next_id
      → t.snd_msg_next_id ≡ increment s.snd_msg_next_id
      → Call s (refuse t)
  refuse-Logs s t p k r i = record {
    stays = λ h. ground arith;
    token = λ h. k;
    snd = λ h b. omega (arith, i, b);
    rcv = λ h b. omega (arith, r, b);
  }

  impl-Logs :
      (msg : MsgOut) (originating : Option MsgIn) (on_rsp : Option Expecting) (s : Chan)
      → Call s (send_impl env msg originating on_rsp s)
  unfolding send_impl
  impl-Logs msg originating on_rsp s =
      let id = s.snd_msg_next_id in
      let s1 : Chan = record s { snd_msg_next_id = increment id } in
      let s2 = register id on_rsp s1 in
      let kept : (s2.phase ≡ s.phase)
          × (s2.session_token ≡ s.session_token)
          × (s2.rcv_msg_next_id ≡ s.rcv_msg_next_id)
          × (s2.snd_msg_next_id ≡ increment id) =
        ground arith in
      let plain = refuse-Logs s s1 refl refl refl refl in
      let late = refuse-Logs s s2 kept.0 kept.1 kept.2 kept.3 in
      elim (Bool-cases (not (id == 1) && not (is_logged_in s.phase))) [
        | inl g ↦ rw g plain
        | inr g ↦
            let counted : Logs s s2 = record {
              stays = λ h. ground (arith, kept);
              token = λ h. kept.1;
              snd = λ h b. ground (arith, kept, g);
              rcv = λ h b. omega (arith, kept.2, b);
            } in
            rw g (
              either_branch (Call s) (not (is_some on_rsp) && is_cli_log_in s.phase) plain (
                either_branch (Call s) (not (is_some originating) && is_srv_log_in s.phase) late (
                  either_branch (Call s) (is_some originating && is_cli_log_in s.phase) late (
                    Logs-trans s s2 _ counted (
                      core-Logs
                        (mdt_out env.order s.session_token (originating_id originating) id
                          (length msg.segments))
                        (some msg) s2)))))
      ]

  sending-Logs :
      (msg : MsgOut) (originating : Option MsgIn) (on_rsp : Option Expecting) (s : Chan)
      → Call s (checked_send env msg originating on_rsp s)
  sending-Logs msg originating on_rsp s =
      let no = Logs-same s s refl refl refl refl in
      either_branch (Call s) (not s.started_ops) no (
        either_branch (Call s) (check_unsendable env msg) no (
          either_branch (Call s) (is_some s.channel_err_code_or_ok) no
            (impl-Logs msg originating on_rsp s)))

  Step-Logs : (s t : Chan) → Step env s t → Logs s t
  unfolding send async_request expect_msg expect_msgs expect_log_in_request undo_expect_msgs
      undo_expect_responses set_unexpected_response_handler unset_unexpected_response_handler
      set_remote_unexpected_response_handler unset_remote_unexpected_response_handler
      expect_msgs_impl take_pending start_and_poll handle_new_error handlers_post
  Step-Logs s t (sends msg originating) = sending-Logs msg originating none s
  Step-Logs s t (requests msg originating on_rsp) = sending-Logs msg originating (some on_rsp) s
  Step-Logs s t (starts h) = Logs-alike s t (ground arith)
  Step-Logs s t (reads_lead r pipe p) = polled-Logs s _ (lead-Logs env r pipe s)
  Step-Logs s t (reads_cont r pipe p) = polled-Logs s _ (cont-Logs env r pipe s)
  Step-Logs s t (expects_one which h qd) = Logs-alike s t (ground arith)
  Step-Logs s t (expects which h qd) = Logs-alike s t (ground arith)
  Step-Logs s t (expects_log_in which h qd) = Logs-alike s t (ground arith)
  Step-Logs s t (forgets_msgs which) = Logs-alike s t (ground arith)
  Step-Logs s t (forgets_responses id) = Logs-alike s t (ground arith)
  Step-Logs s t (sets_unexpected h) = Logs-alike s t (ground arith)
  Step-Logs s t unsets_unexpected = Logs-alike s t (ground arith)
  Step-Logs s t (sets_remote h) = Logs-alike s t (ground arith)
  Step-Logs s t unsets_remote = Logs-alike s t (ground arith)

  start_ops-Logs : (neg : Negotiators) (s : Chan) → Logs s (start_ops env neg s).0
  unfolding start_ops send_proto_neg
  start_ops-Logs neg s = Logs-alike s (start_ops env neg s).0 (ground arith)

  keeps-Logs : (s t : Chan) → Steps env s t → Logs s t
  keeps-Logs s t done = Logs-same s s refl refl refl refl
  keeps-Logs s t (and_then {t = u} x xs) = Logs-trans s u t (Step-Logs s u x) (keeps-Logs u t xs)
  keeps-Logs s t (starts_ops neg xs) =
      Logs-trans s _ t (start_ops-Logs neg s) (keeps-Logs (start_ops env neg s).0 t xs)
  keeps-Logs s t (reads_negotiation neg r pipe g xs) =
      let n = on_async_read_proto_neg_msg-Negotiates neg r pipe g s in
      Logs-trans s _ t (Negotiates-Logs s _ n) (keeps-Logs _ t xs)

  -- Whatever is called and read, the start of the operations and the negotiation included, a finished
  -- log-in is not undone, and its session token stays. Messages are read only of a channel that could
  -- send its own negotiation message.
  pub Steps-token :
      (s t : Chan)
      → Steps env s t
      → s.phase ≡ logged_in
      → (t.phase ≡ logged_in) × (t.session_token ≡ s.session_token)
  Steps-token s t xs l =
      let k = keeps-Logs s t xs in
      (ground (arith, k.stays (ap is_logged_in l)), k.token (ap is_logged_in l))

  -- As long as the log-in lasts, a side that began with the first ids has sent at most one user
  -- message and has taken in at most one, whatever was called and read, the start of the operations
  -- and the negotiation included. Messages are read only of a channel that could send its own
  -- negotiation message.
  pub Steps-first_ids :
      (s t : Chan)
      → Steps env s t
      → s.snd_msg_next_id ≤ 2
      → s.rcv_msg_next_id ≤ 2
      → t.phase ≢ logged_in
      → (t.snd_msg_next_id ≤ 2) × (t.rcv_msg_next_id ≤ 2)
  Steps-first_ids s t xs i j n =
      let k = keeps-Logs s t xs in
      let open_yet : is_logged_in t.phase ≡ false = ground (arith, n) in
      (k.snd open_yet i, k.rcv open_yet j)
