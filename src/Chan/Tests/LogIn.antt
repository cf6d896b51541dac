-- ===== src/Chan/Tests/LogIn.antt =====
-- A server and a client that log in.
use ipc_transport_structured.Prelude.{ℕ, ◌<◌, ◌≡◌, refl, true, false, none, some, [], ◌∷◌, arith}
use ipc_transport_structured.Prelude.Map.{find, erase}
use ipc_transport_structured.Msg.Mdt.{is_nil, nil_token, mdt_out, originating_or_none}
use ipc_transport_structured.Msg.MsgIn.{
  MsgIn, id_or_none, originating_msg_id_or_none, deserialize_body,
}
use ipc_transport_structured.Chan.State.{logged_in, MsgOut, Expecting, Chan, id_mod}
use ipc_transport_structured.Chan.Handlers.{handlers_post}
use ipc_transport_structured.Chan.Init.{new_log_in}
use ipc_transport_structured.Chan.Send.{
  checked_send, send_impl, send_core, conclude_send, serialize, send_payloads, by_pipes, send_blobs,
}
use ipc_transport_structured.Chan.Dispatch.{is_next_expected, next_unsolicited}
use ipc_transport_structured.Chan.Receive.{
  new_msg_in, authenticate, token_error, accept_by_id, accept_in_order,
  new_msg_in_during_log_in_as_srv,
}
use ipc_transport_structured.Chan.Order.{opened}
use ipc_transport_structured.Chan.LogIn.Handshake.{IsFirst, LogInPair, log_in-handshake}
use ipc_transport_structured.Chan.Tests.{env, token, message}

abbrev handler : ℕ → Expecting
handler h = record { one_expected = true; on_msg_func = h }

abbrev server : Chan
server = record (new_log_in true token) {
  started_ops = true;
  rcv_expecting_msg_map = (5, handler 3) ∷ [];
}

abbrev client : Chan
client = record (new_log_in false token) {
  started_ops = true;
  snd_msg_next_id = 2;
  rcv_expecting_response_map = (1, handler 4) ∷ [];
}

abbrev request : MsgIn
request = record (message 1 none 5) { session_token = nil_token }

abbrev answer : MsgIn
answer = message 1 (some 1) 6

abbrev reply : MsgOut
reply = record { segments = (6 ∷ []) ∷ []; hndl_or_null = none }

pair : LogInPair env env server client request
unfolding new_log_in is_nil id_or_none originating_msg_id_or_none originating_or_none
pair = record {
  first = record { id = refl; answers = refl; which = 5; readable = refl };
  unproven = refl;
  server_phase = refl;
  server_start = refl;
  handler = handler 3;
  awaited = refl;
  drawn = refl;
  client_phase = refl;
  client_start = refl;
  on_answer = handler 4;
  asked = refl;
}

answer-IsFirst : IsFirst env 1 answer
unfolding id_or_none originating_msg_id_or_none originating_or_none
answer-IsFirst = record { id = refl; answers = refl; which = 6; readable = refl }

abbrev taken : Chan
taken = (new_msg_in env request server).0

run :
    (taken.snd_msg_next_id < id_mod)
    × ((checked_send env reply (some (opened env request)) none taken).returned ≡ true)
    × ((checked_send env reply (some (opened env request)) none taken).err_code ≡ none)
    × (answer.session_token ≡ taken.session_token)
unfolding new_log_in new_msg_in authenticate token_error accept_by_id accept_in_order
    new_msg_in_during_log_in_as_srv is_next_expected next_unsolicited handlers_post deserialize_body
    id_or_none originating_msg_id_or_none originating_or_none is_nil find erase send_impl send_core
    conclude_send serialize send_payloads by_pipes send_blobs mdt_out
run = (omega arith, refl, refl, refl)

log_in-handshake_example :
    let o = checked_send env reply (some (opened env request)) none taken in
    let got = new_msg_in env answer client in
    ((new_msg_in env request server).1 ≡ true)
    × (got.1 ≡ true)
    × (o.chan.phase ≡ logged_in)
    × (got.0.phase ≡ logged_in)
    × (o.chan.session_token ≡ server.session_token)
    × (got.0.session_token ≡ server.session_token)
log_in-handshake_example =
    log_in-handshake env env server client request answer reply none pair run.0 run.1 run.2
      answer-IsFirst run.3
