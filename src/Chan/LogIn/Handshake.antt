-- ===== src/Chan/LogIn/Handshake.antt =====
-- The two messages of the log-in, as the two sides handle them.
use ipc_transport_structured.Prelude.{
  ℕ, ◌≡◌, ◌<◌, ap, ◌∙◌, true, false, Option, none, some, [], ◌∷◌, ◌++◌, arith,
}
use ipc_transport_structured.Prelude.Map.{find}
use ipc_transport_structured.Error.{ok}
use ipc_transport_structured.Msg.Mdt.{is_nil, StructuredMessage}
use ipc_transport_structured.Msg.MsgIn.{
  MsgIn, id_or_none, originating_msg_id_or_none, deserialize_body, segments_so_far,
}
use ipc_transport_structured.Chan.State.{
  logged_in, srv_log_in, cli_log_in, MsgOut, Env, Expecting, Chan, deliver, id_mod,
}
use ipc_transport_structured.Chan.Handlers.{handlers_post}
use ipc_transport_structured.Chan.Send.{Outcome, send_core, send_impl, checked_send}
use ipc_transport_structured.Chan.Dispatch.{is_next_expected, next_response, next_unsolicited}
use ipc_transport_structured.Chan.Receive.{
  new_msg_in, authenticate, token_error, accept_by_id, accept_in_order,
  new_msg_in_during_log_in_as_cli, new_msg_in_during_log_in_as_srv,
}
use ipc_transport_structured.Chan.Order.{opened}
use ipc_transport_structured.Chan.Frame.{send_core-SameBase}
use ipc_transport_structured.Chan.Sending.Ids.{
  Sending, refused, peer_done, hosing, sent, checked_send-Sending,
}

-- A first message of the other side whose body can be read, in answer to `originating` or to none.
pub record IsFirst (env : Env) (originating : ℕ) (m : MsgIn) : Type 0 where
  pub id : id_or_none m ≡ 1
  pub answers : originating_msg_id_or_none m ≡ originating
  pub which : ℕ
  pub readable : env.reader.deserialize_which (segments_so_far m.body_reader) ≡ ok which

-- A send does not touch the session token.
module _ (env : Env) where
  core_token :
      (mdt : StructuredMessage) (msg : Option MsgOut) (s : Chan)
      → (send_core env mdt msg false s).chan.session_token ≡ s.session_token
  core_token mdt msg s = (send_core-SameBase env mdt msg false s).token

  sends_token :
      (msg : MsgOut) (originating : Option MsgIn) (on_rsp : Option Expecting) (s : Chan)
      → (checked_send env msg originating on_rsp s).chan.session_token ≡ s.session_token
  unfolding send_impl
  sends_token msg originating on_rsp s = grind (arith, core_token)

-- A send that succeeds ends the server's log-in.
Sending-logged_in :
    (s : Chan) (o : Outcome)
    → Sending s o
    → s.phase ≡ srv_log_in
    → o.returned ≡ true
    → o.err_code ≡ none
    → o.chan.phase ≡ logged_in
Sending-logged_in s o (refused t a b c d) l r e = absurd (ground arith)
Sending-logged_in s o (peer_done t a b c) l r e = absurd (ground arith)
Sending-logged_in s o (hosing t c a b d) l r e = absurd (ground arith)
Sending-logged_in s o (sent t a b c) l r e = ground arith

-- A side of the log-in that has taken in nothing yet.
module _ (env : Env) (m : MsgIn) (s : Chan) (at_start : s.rcv_msg_next_id ≡ 1) where
  cli_takes :
      (e : Expecting)
      → IsFirst env 1 m
      → s.phase ≡ cli_log_in
      → is_nil m.session_token ≡ false
      → s.rcv_expecting_response_map ≡ (1, e) ∷ []
      → let r = new_msg_in env m s in
        (r.1 ≡ true)
        × (r.0.phase ≡ logged_in)
        × (r.0.session_token ≡ m.session_token)
        × (r.0.sync_io_handlers ≡ s.sync_io_handlers ++ deliver e.on_msg_func (opened env m) ∷ [])
  unfolding new_msg_in authenticate token_error accept_by_id accept_in_order
      new_msg_in_during_log_in_as_cli is_next_expected next_response handlers_post deserialize_body
      id_or_none originating_msg_id_or_none find
  cli_takes e f l t w = ground (arith, f.id, f.answers, f.readable, at_start)

  srv_takes :
      (e : Expecting)
      → (f : IsFirst env 0 m) → s.phase ≡ srv_log_in
      → is_nil m.session_token ≡ true
      → s.rcv_expecting_msg_map ≡ (f.which, e) ∷ []
      → let r = new_msg_in env m s in
        (r.1 ≡ true)
        × (r.0.phase ≡ srv_log_in)
        × (r.0.session_token ≡ s.session_token)
        × (r.0.sync_io_handlers ≡ s.sync_io_handlers ++ deliver e.on_msg_func (opened env m) ∷ [])
  unfolding new_msg_in authenticate token_error accept_by_id accept_in_order
      new_msg_in_during_log_in_as_srv is_next_expected next_unsolicited handlers_post
      deserialize_body id_or_none originating_msg_id_or_none find
  srv_takes e f l t w = ground (arith, f.id, f.answers, f.readable, at_start)

-- A server that awaits a log-in request of the kind of `request`, and the client that sent it and
-- awaits the answer: neither has taken in anything yet.
pub record LogInPair (server_env client_env : Env) (server client : Chan) (request : MsgIn)
    : Type 0 where
  pub first : IsFirst server_env 0 request
  pub unproven : is_nil request.session_token ≡ true
  pub server_phase : server.phase ≡ srv_log_in
  pub server_start : server.rcv_msg_next_id ≡ 1
  pub handler : Expecting
  pub awaited : server.rcv_expecting_msg_map ≡ (first.which, handler) ∷ []
  pub drawn : is_nil server.session_token ≡ false
  pub client_phase : client.phase ≡ cli_log_in
  pub client_start : client.rcv_msg_next_id ≡ 1
  pub on_answer : Expecting
  pub asked : client.rcv_expecting_response_map ≡ (1, on_answer) ∷ []

-- The log-in exchange: when the server has taken the request and its answer was sent without an
-- error, and the answer, with the server's session token, has come in at the client, then no side has
-- refused anything, both are logged in, and they hold the same session token, the server's.
pub log_in-handshake :
    (server_env client_env : Env) (server client : Chan) (request answer : MsgIn) (msg : MsgOut)
    (on_rsp : Option Expecting)
    → LogInPair server_env client_env server client request
    → let taken = new_msg_in server_env request server in
      let o = checked_send server_env msg (some (opened server_env request)) on_rsp taken.0 in
      taken.0.snd_msg_next_id < id_mod
      → o.returned ≡ true
      → o.err_code ≡ none
      → IsFirst client_env 1 answer
      → answer.session_token ≡ taken.0.session_token
      → let got = new_msg_in client_env answer client in
        (taken.1 ≡ true)
        × (got.1 ≡ true)
        × (o.chan.phase ≡ logged_in)
        × (got.0.phase ≡ logged_in)
        × (o.chan.session_token ≡ server.session_token)
        × (got.0.session_token ≡ server.session_token)
log_in-handshake server_env client_env server client request answer msg on_rsp p room r e f t =
    let taken = new_msg_in server_env request server in
    let (ok_server, phase, token, posted) =
      srv_takes server_env request server p.server_start p.handler p.first p.server_phase p.unproven
        p.awaited in
    let proven : is_nil answer.session_token ≡ false = ap is_nil (t ∙ token) ∙ p.drawn in
    let (ok_client, logged, same, told) =
      cli_takes client_env answer client p.client_start p.on_answer f p.client_phase proven
        p.asked in
    let o = checked_send server_env msg (some (opened server_env request)) on_rsp taken.0 in
    (
      ok_server,
      ok_client,
      Sending-logged_in taken.0 o
          (checked_send-Sending server_env msg (some (opened server_env request)) on_rsp taken.0
            room)
          phase r e,
      logged,
      sends_token server_env msg (some (opened server_env request)) on_rsp taken.0 ∙ token,
      same ∙ t ∙ token,
    )
