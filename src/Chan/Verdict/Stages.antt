-- ===== src/Chan/Verdict/Stages.antt =====
-- The verdict of each stage of `rcv_struct_new_msg_in`, up to the whole.
use ipc_transport_structured.Prelude.{
  ◌≡◌, refl, ◌∙◌, Bool, not, ◌&&◌, inl, inr, Option, none, some, [], ◌∷◌, ◌==◌, ltb, length,
  is_empty, Bool-cases, Option-cases, is_some, either_branch,
}
use ipc_transport_structured.Prelude.Map.{Map, find}
use ipc_transport_structured.Error.{
  NonzeroCode, ErrorCode, struc, misused_schema, log_in_misused_schema, internal_msg_type_unknown,
  got_unexpected_log_in_request,
}
use ipc_transport_structured.Msg.Mdt.{is_nil}
use ipc_transport_structured.Msg.MsgIn.{
  MsgIn, id_or_none, originating_msg_id_or_none, deserialize_body,
}
use ipc_transport_structured.Chan.State.{
  logged_in, Env, remote_unexpected_response, Chan, has_2_pipes, is_logged_in, increment,
}
use ipc_transport_structured.Chan.Dispatch.{is_next_expected}
use ipc_transport_structured.Chan.Receive.{
  fail, new_internal_msg_in, new_msg_in_during_log_in_as_cli, new_msg_in_during_log_in_as_srv,
  drain_reassembly_q, accept_in_order, accept_out_of_order, accept_by_id, token_error, authenticate,
  body_then, new_msg_in, unexpected_response_text, first_key,
}
use ipc_transport_structured.Chan.Frame.{phase_either}
use ipc_transport_structured.Chan.Verdict.{
  Accepts, Accepts-refl, Accepts-trans, Accepts-alike, Verdict, accepted, hosed, post-Accepts,
  is_next_expected-Accepts,
}

fail-Verdict : (c : NonzeroCode) (s : Chan) → Verdict s (fail c s)
fail-Verdict c s = hosed (struc c) (Accepts-refl s)

-- A state that differs in other members only.
alike-Verdict : (s t : Chan) {r : Chan × Bool} → Accepts s t → Verdict t r → Verdict s r
alike-Verdict s t a (accepted b) = accepted (Accepts-trans a b)
alike-Verdict s t a (hosed e b) = hosed e (Accepts-trans a b)

module _ (env : Env) where
  internal-Verdict : (m : MsgIn) (s : Chan) → Verdict s (new_internal_msg_in m s)
  unfolding new_internal_msg_in
  internal-Verdict m s = elim (Option-cases (unexpected_response_text m.mdt_root.body)) [
    | inl e ↦ rw (e, new_internal_msg_in) (fail-Verdict internal_msg_type_unknown s)
    | inr (text, e) ↦
        rw (e, new_internal_msg_in)
          (either_branch (Verdict s) (originating_msg_id_or_none m == 0)
            (fail-Verdict misused_schema s)
            (accepted (
              post-Accepts env (remote_unexpected_response (originating_msg_id_or_none m) text) s
                refl)))
  ]

  cli-Verdict :
      (m : MsgIn) (s : Chan)
      → s.proto_neg_err_code_or_ok ≡ none
      → Verdict s (new_msg_in_during_log_in_as_cli env m s)
  unfolding new_msg_in_during_log_in_as_cli
  cli-Verdict m s p =
      let t : Chan = record s { session_token = m.session_token } in
      let u : Chan = record t { phase = logged_in } in
      let at = Accepts-alike t (Accepts-refl s) refl refl refl refl refl in
      let au = Accepts-alike u (Accepts-refl s) refl refl refl refl refl in
      let bad = fail-Verdict log_in_misused_schema s in
      either_branch (Verdict s) (not (length s.rcv_expecting_response_map == 1)) bad (
        either_branch (Verdict s) (not (originating_msg_id_or_none m == 1)) bad (
          either_branch (Verdict s) (is_nil m.session_token)
            (alike-Verdict s t at (fail-Verdict log_in_misused_schema t))
            (accepted (Accepts-trans au (is_next_expected-Accepts env m u p)))))

  srv-Verdict :
      (m : MsgIn) (s : Chan)
      → s.proto_neg_err_code_or_ok ≡ none
      → Verdict s (new_msg_in_during_log_in_as_srv env m s)
  unfolding new_msg_in_during_log_in_as_srv
  srv-Verdict m s p =
      let taken = accepted (is_next_expected-Accepts env m s p) in
      let bad = fail-Verdict log_in_misused_schema s in
      either_branch (Verdict s) (not (originating_msg_id_or_none m == 0)) bad (
        either_branch (Verdict s) (length s.rcv_expecting_msg_map == 1)
          (either_branch (Verdict s) (first_key s.rcv_expecting_msg_map == m.body_which) taken
            (fail-Verdict got_unexpected_log_in_request s))
          (either_branch (Verdict s) (is_empty s.rcv_pending_msgs) taken bad))

  drain-Accepts :
      (q : Map MsgIn) (s : Chan)
      → s.proto_neg_err_code_or_ok ≡ none
      → Accepts s (drain_reassembly_q env q s)
  unfolding drain_reassembly_q
  drain-Accepts [] s p = Accepts-refl s
  drain-Accepts ((id, m) ∷ q) s p =
      let t : Chan = record s {
        rcv_reassembly_q = q;
        rcv_msg_next_id = increment s.rcv_msg_next_id;
      } in
      let a =
        Accepts-trans (Accepts-alike t (Accepts-refl s) refl refl refl refl refl)
          (is_next_expected-Accepts env m t p) in
      elim (Bool-cases (id == s.rcv_msg_next_id)) [
        | inl hit ↦
            rw (hit, drain_reassembly_q)
              (Accepts-trans a (drain-Accepts q (is_next_expected env m t) (a.proto ∙ p)))
        | inr miss ↦ rw (miss, drain_reassembly_q) (Accepts-refl s)
      ]

  in_order-Verdict :
      (m : MsgIn) (s : Chan)
      → s.proto_neg_err_code_or_ok ≡ none
      → Verdict s (accept_in_order env m s)
  unfolding accept_in_order
  in_order-Verdict m s p =
      let t : Chan = record s { rcv_msg_next_id = increment s.rcv_msg_next_id } in
      let at = Accepts-alike t (Accepts-refl s) refl refl refl refl refl in
      let u = is_next_expected env m t in
      let au = Accepts-trans at (is_next_expected-Accepts env m t p) in
      phase_either (Verdict s) s.phase (λ _. alike-Verdict s t at (cli-Verdict m t p))
        (λ _. alike-Verdict s t at (srv-Verdict m t p))
        (λ _. accepted (
          either_branch (Accepts s) (has_2_pipes env.pipes)
            (Accepts-trans au (drain-Accepts u.rcv_reassembly_q u (au.proto ∙ p))) au))

  out_of_order-Verdict : (m : MsgIn) (s : Chan) → Verdict s (accept_out_of_order env m s)
  unfolding accept_out_of_order
  out_of_order-Verdict m s =
      let bad = fail-Verdict misused_schema s in
      either_branch (Verdict s) (ltb (id_or_none m) s.rcv_msg_next_id) bad (
        either_branch (Verdict s) (not (has_2_pipes env.pipes)) bad (
          either_branch (Verdict s) (not (is_logged_in s.phase)) bad (
            either_branch (Verdict s) (is_some (find (id_or_none m) s.rcv_reassembly_q)) bad
              (accepted (Accepts-alike _ (Accepts-refl s) refl refl refl refl refl)))))

  by_id-Verdict :
      (m : MsgIn) (s : Chan) → s.proto_neg_err_code_or_ok ≡ none → Verdict s (accept_by_id env m s)
  unfolding accept_by_id
  by_id-Verdict m s p = either_branch (Verdict s) (id_or_none m == 0) (internal-Verdict m s) (
      either_branch (Verdict s) (not (id_or_none m == s.rcv_msg_next_id)) (out_of_order-Verdict m s)
        (either_branch (Verdict s) (ltb 1 s.rcv_msg_next_id && not (is_logged_in s.phase))
          (fail-Verdict misused_schema s) (in_order-Verdict m s p)))

  authenticate-Verdict :
      (m : MsgIn) (s : Chan) → s.proto_neg_err_code_or_ok ≡ none → Verdict s (authenticate env m s)
  unfolding authenticate
  authenticate-Verdict m s p = elim (Option-cases (token_error env m s)) [
    | inl e ↦ rw (e, authenticate) (by_id-Verdict m s p)
    | inr (c, e) ↦ rw (e, authenticate) (fail-Verdict c s)
  ]

  body_then-Verdict :
      (r : MsgIn × Option ErrorCode) (s : Chan)
      → s.proto_neg_err_code_or_ok ≡ none
      → Verdict s (body_then env r s)
  body_then-Verdict (m, some e) s p = hosed e (Accepts-refl s)
  body_then-Verdict (m, none) s p = authenticate-Verdict m s p

  -- Unless the negotiation message could not be sent, a structured in-message is taken, which sets no
  -- error and posts no report of one, or it hoses the channel, with one report posted last; the
  -- Boolean returned tells which.
  pub new_msg_in-Verdict :
      (m : MsgIn) (s : Chan) → s.proto_neg_err_code_or_ok ≡ none → Verdict s (new_msg_in env m s)
  unfolding new_msg_in
  new_msg_in-Verdict m s p =
      either_branch (Verdict s) (id_or_none m == 0) (authenticate-Verdict m s p)
        (body_then-Verdict (deserialize_body env.reader m) s p)
