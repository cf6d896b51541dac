-- ===== src/Chan/LogIn.antt =====
-- The log-in phase over the operations of the channel: what may happen in it and what follows it.
pub mod Whole
pub mod Reads
pub mod Runs
pub mod Handshake
use ipc_transport_structured.Prelude.{
  ℕ, ◌+◌, ◌≤◌, ◌≡◌, refl, ◌∙◌, Bool, true, false, not, ◌&&◌, inl, inr, Option, none, some, List, [],
  ◌∷◌, arith, ◌==◌, ltb, length, is_empty, is_some, Bool-cases, Option-cases, either_branch,
  if◌then◌else◌,
}
use ipc_transport_structured.Prelude.Map.{Map, find}
use ipc_transport_structured.Error.{NonzeroCode, ErrorCode}
use ipc_transport_structured.Msg.Mdt.{StructuredMessage, is_nil}
use ipc_transport_structured.Msg.MsgIn.{
  MsgIn, id_or_none, originating_msg_id_or_none, deserialize_body,
}
use ipc_transport_structured.Chan.State.{
  Phase, logged_in, srv_log_in, cli_log_in, is_logged_in, MsgOut, Env, Chan, has_2_pipes, increment,
  Task,
}
use ipc_transport_structured.Chan.Handlers.{
  handlers_post, run_task, run_tasks, handlers_poll, handle_new_error,
}
use ipc_transport_structured.Chan.Send.{conclude_send, send_core}
use ipc_transport_structured.Chan.Dispatch.{
  unexpected_response_mdt, inform_of_unexpected_response, next_response, next_unsolicited,
  is_next_expected,
}
use ipc_transport_structured.Chan.Receive.{
  fail, new_internal_msg_in, new_msg_in_during_log_in_as_cli, new_msg_in_during_log_in_as_srv,
  drain_reassembly_q, accept_in_order, accept_out_of_order, accept_by_id, token_error, authenticate,
  body_then, new_msg_in, first_key,
}
use ipc_transport_structured.Chan.Frame.{is_next_expected-SameBase}

-- From `s` to `t` the log-in is not undone, the token of a finished log-in stays, and while the
-- log-in lasts no side gets past its one message.
pub record Logs (s t : Chan) : Type 0 where
  pub stays : is_logged_in s.phase ≡ true → is_logged_in t.phase ≡ true
  pub token : is_logged_in s.phase ≡ true → t.session_token ≡ s.session_token
  pub snd : is_logged_in t.phase ≡ false → s.snd_msg_next_id ≤ 2 → t.snd_msg_next_id ≤ 2
  pub rcv : is_logged_in t.phase ≡ false → s.rcv_msg_next_id ≤ 2 → t.rcv_msg_next_id ≤ 2

pub Logs-trans : (s t u : Chan) → Logs s t → Logs t u → Logs s u
Logs-trans s t u a b = record {
  stays = λ h. b.stays (a.stays h);
  token = λ h. b.token (a.stays h) ∙ a.token h;
  snd = λ h k. elim (Bool-cases (is_logged_in t.phase)) [
    | inl l ↦ absurd (ground (arith, b.stays l))
    | inr l ↦ b.snd h (a.snd l k)
  ];
  rcv = λ h k. elim (Bool-cases (is_logged_in t.phase)) [
    | inl l ↦ absurd (ground (arith, b.stays l))
    | inr l ↦ b.rcv h (a.rcv l k)
  ];
}

-- Nothing of the log-in is touched.
pub Logs-same :
    (s t : Chan)
    → t.phase ≡ s.phase
    → t.session_token ≡ s.session_token
    → t.snd_msg_next_id ≡ s.snd_msg_next_id
    → t.rcv_msg_next_id ≡ s.rcv_msg_next_id
    → Logs s t
Logs-same s t p k i j = record {
  stays = λ h. ground arith;
  token = λ h. k;
  snd = λ h b. omega (arith, i, b);
  rcv = λ h b. omega (arith, j, b);
}

pub Logs-alike :
    (s t : Chan)
    → (t.phase ≡ s.phase)
      × (t.session_token ≡ s.session_token)
      × (t.snd_msg_next_id ≡ s.snd_msg_next_id)
      × (t.rcv_msg_next_id ≡ s.rcv_msg_next_id)
    → Logs s t
Logs-alike s t (p, k, i, j) = Logs-same s t p k i j

-- The message that opens the in-pipe may come while the log-in lasts.
pub counted-Logs :
    (s : Chan)
    → ltb 1 s.rcv_msg_next_id && not (is_logged_in s.phase) ≡ false
    → Logs s (record s { rcv_msg_next_id = increment s.rcv_msg_next_id })
counted-Logs s g = record {
  stays = λ h. h;
  token = λ h. refl;
  snd = λ h b. b;
  rcv = λ h b. ground arith;
}

pub hosed-Logs : (e : Option ErrorCode) (s : Chan) → Logs s (handle_new_error e s)
unfolding handle_new_error handlers_post
hosed-Logs e s = Logs-same s (handle_new_error e s) refl refl refl refl

module _ (env : Env) where
  core_stays :
      (mdt : StructuredMessage) (s : Chan)
      → is_logged_in s.phase ≡ true
      → is_logged_in (send_core env mdt none true s).chan.phase ≡ true
  unfolding send_core conclude_send
  core_stays mdt s h = ground arith

  inform_stays :
      (m : MsgIn) (s : Chan)
      → is_logged_in s.phase ≡ true
      → is_logged_in (inform_of_unexpected_response env m s).phase ≡ true
  unfolding inform_of_unexpected_response handlers_post
  inform_stays m s h = ground (arith, core_stays (unexpected_response_mdt env s m) s h)

  pub next_stays :
      (m : MsgIn) (s : Chan)
      → is_logged_in s.phase ≡ true
      → is_logged_in (is_next_expected env m s).phase ≡ true
  unfolding is_next_expected next_unsolicited next_response handlers_post
  next_stays m s h = ground (arith, inform_stays m s h)

  pub next-Logs : (m : MsgIn) (s : Chan) → Logs s (is_next_expected env m s)
  next-Logs m s =
      let same = is_next_expected-SameBase env m s in
      record {
        stays = next_stays m s;
        token = λ h. same.token;
        snd = λ h b. omega (arith, same.snd_next, b);
        rcv = λ h b. omega (arith, same.rcv_next, b);
      }

  pub internal-Logs : (m : MsgIn) (s : Chan) → Logs s (new_internal_msg_in m s).0
  unfolding new_internal_msg_in handle_new_error handlers_post
  internal-Logs m s = Logs-alike s (new_internal_msg_in m s).0 (ground arith)

  pub out_of_order-Logs : (m : MsgIn) (s : Chan) → Logs s (accept_out_of_order env m s).0
  unfolding accept_out_of_order handle_new_error handlers_post
  out_of_order-Logs m s = Logs-alike s (accept_out_of_order env m s).0 (ground arith)

  pub drain-Logs :
      (q : Map MsgIn) (s : Chan) → is_logged_in s.phase ≡ true → Logs s (drain_reassembly_q env q s)
  unfolding drain_reassembly_q
  drain-Logs [] s l = Logs-same s s refl refl refl refl
  drain-Logs ((id, m) ∷ q) s l =
      let t : Chan = record s {
        rcv_reassembly_q = q;
        rcv_msg_next_id = increment s.rcv_msg_next_id;
      } in
      let u = is_next_expected env m t in
      let counted : Logs s t = record {
        stays = λ h. h;
        token = λ h. refl;
        snd = λ h b. b;
        rcv = λ h b. absurd (ground arith);
      } in
      elim (Bool-cases (id == s.rcv_msg_next_id)) [
        | inl hit ↦
            rw (hit, drain_reassembly_q)
              (Logs-trans s t (drain_reassembly_q env q u) counted (
                Logs-trans t u (drain_reassembly_q env q u) (next-Logs m t)
                  (drain-Logs q u (next_stays m t l))))
        | inr miss ↦ rw (miss, drain_reassembly_q) (Logs-same s s refl refl refl refl)
      ]
