-- ===== src/Chan/LogIn/Whole.antt =====
-- The log-in phase over a whole in-message, a read and a run of steps.
use ipc_transport_structured.Prelude.{
  ◌≡◌, refl, Bool, false, not, ◌&&◌, inl, inr, Option, none, some, arith, ◌==◌, ltb, length,
  is_empty, Bool-cases, Option-cases, either_branch,
}
use ipc_transport_structured.Error.{NonzeroCode, ErrorCode}
use ipc_transport_structured.Msg.Mdt.{is_nil}
use ipc_transport_structured.Msg.MsgIn.{
  MsgIn, id_or_none, originating_msg_id_or_none, deserialize_body,
}
use ipc_transport_structured.Chan.State.{
  logged_in, cli_log_in, is_logged_in, Env, Chan, has_2_pipes, increment,
}
use ipc_transport_structured.Chan.Dispatch.{is_next_expected}
use ipc_transport_structured.Chan.Receive.{
  fail, new_msg_in_during_log_in_as_cli, new_msg_in_during_log_in_as_srv, drain_reassembly_q,
  accept_in_order, accept_by_id, token_error, authenticate, body_then, new_msg_in, first_key,
}
use ipc_transport_structured.Chan.Frame.{phase_either}
use ipc_transport_structured.Chan.LogIn.{
  Logs, Logs-trans, counted-Logs, hosed-Logs, next_stays, next-Logs, internal-Logs,
  out_of_order-Logs, drain-Logs,
}
use ipc_transport_structured.Error.{
  struc, misused_schema, log_in_misused_schema, got_unexpected_log_in_request,
}

abbrev Handled : Chan → Chan × Bool → Type 0
Handled s r = Logs s r.0

fails-Logs : (c : NonzeroCode) (s : Chan) → Handled s (fail c s)
fails-Logs c s = hosed-Logs (some (struc c)) s

module _ (env : Env) where
  cli-Logs :
      (m : MsgIn) (s : Chan)
      → s.phase ≡ cli_log_in
      → Handled s (new_msg_in_during_log_in_as_cli env m s)
  unfolding new_msg_in_during_log_in_as_cli
  cli-Logs m s l =
      let t : Chan = record s { session_token = m.session_token } in
      let u : Chan = record t { phase = logged_in } in
      let new : (v : Chan)
          → v.session_token ≡ m.session_token
          → v.snd_msg_next_id ≡ s.snd_msg_next_id
          → v.rcv_msg_next_id ≡ s.rcv_msg_next_id
          → Logs s v =
        λ v a b c. record {
          stays = λ h. absurd (ground arith);
          token = λ h. absurd (ground arith);
          snd = λ h k. omega (arith, b, k);
          rcv = λ h k. omega (arith, c, k);
        } in
      let bad = fails-Logs log_in_misused_schema s in
      either_branch (Handled s) (not (length s.rcv_expecting_response_map == 1)) bad (
        either_branch (Handled s) (not (originating_msg_id_or_none m == 1)) bad (
          either_branch (Handled s) (is_nil m.session_token)
            (Logs-trans s t _ (new t refl refl refl) (fails-Logs log_in_misused_schema t))
            (Logs-trans s u _ (new u refl refl refl) (next-Logs env m u))))

  srv-Logs : (m : MsgIn) (s : Chan) → Handled s (new_msg_in_during_log_in_as_srv env m s)
  unfolding new_msg_in_during_log_in_as_srv
  srv-Logs m s =
      let bad = fails-Logs log_in_misused_schema s in
      let taken = next-Logs env m s in
      either_branch (Handled s) (not (originating_msg_id_or_none m == 0)) bad (
        either_branch (Handled s) (length s.rcv_expecting_msg_map == 1)
          (either_branch (Handled s) (first_key s.rcv_expecting_msg_map == m.body_which) taken
            (fails-Logs got_unexpected_log_in_request s))
          (either_branch (Handled s) (is_empty s.rcv_pending_msgs) taken bad))

  in_order-Logs :
      (m : MsgIn) (s : Chan)
      → ltb 1 s.rcv_msg_next_id && not (is_logged_in s.phase) ≡ false
      → Handled s (accept_in_order env m s)
  unfolding accept_in_order
  in_order-Logs m s g =
      let t : Chan = record s { rcv_msg_next_id = increment s.rcv_msg_next_id } in
      let u = is_next_expected env m t in
      let counted = counted-Logs s g in
      let au = Logs-trans s t u counted (next-Logs env m t) in
      phase_either (Handled s) s.phase (λ l. Logs-trans s t _ counted (cli-Logs m t l))
        (λ _. Logs-trans s t _ counted (srv-Logs m t))
        (λ l.
          either_branch (Logs s) (has_2_pipes env.pipes)
            (Logs-trans s u (drain_reassembly_q env u.rcv_reassembly_q u) au
              (drain-Logs env u.rcv_reassembly_q u (next_stays env m t (ground arith))))
            au)

  by_id-Logs : (m : MsgIn) (s : Chan) → Handled s (accept_by_id env m s)
  unfolding accept_by_id
  by_id-Logs m s = either_branch (Handled s) (id_or_none m == 0) (internal-Logs env m s) (
      either_branch (Handled s) (not (id_or_none m == s.rcv_msg_next_id))
        (out_of_order-Logs env m s)
        (elim (Bool-cases (ltb 1 s.rcv_msg_next_id && not (is_logged_in s.phase))) [
          | inl g ↦ rw g (fails-Logs misused_schema s)
          | inr g ↦ rw g (in_order-Logs m s g)
        ]))

  authenticate-Logs : (m : MsgIn) (s : Chan) → Handled s (authenticate env m s)
  unfolding authenticate
  authenticate-Logs m s = elim (Option-cases (token_error env m s)) [
    | inl e ↦ rw (e, authenticate) (by_id-Logs m s)
    | inr (c, e) ↦ rw (e, authenticate) (fails-Logs c s)
  ]

  body_then-Logs : (r : MsgIn × Option ErrorCode) (s : Chan) → Handled s (body_then env r s)
  body_then-Logs (m, some e) s = hosed-Logs (some e) s
  body_then-Logs (m, none) s = authenticate-Logs m s

  pub new_msg_in-Logs : (m : MsgIn) (s : Chan) → Handled s (new_msg_in env m s)
  unfolding new_msg_in
  new_msg_in-Logs m s =
      either_branch (Handled s) (id_or_none m == 0) (authenticate-Logs m s)
        (body_then-Logs (deserialize_body env.reader m) s)
