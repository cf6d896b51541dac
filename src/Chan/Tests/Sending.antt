-- ===== src/Chan/Tests/Sending.antt =====
-- Messages that go out.
use ipc_transport_structured.Prelude.{
  ℕ, ◌≡◌, refl, true, false, none, some, List, [], ◌∷◌, ◌++◌, ltb, length, if◌then◌else◌,
}
use ipc_transport_structured.Prelude.Map.{find}
use ipc_transport_structured.Error.{lower, ok}
use ipc_transport_structured.Msg.MsgIn.{Payload}
use ipc_transport_structured.Chan.State.{two_pipes, srv_log_in, MsgOut, Env, Chan, Expecting}
use ipc_transport_structured.Chan.Init.{new_logged_in, new_log_in}
use ipc_transport_structured.Chan.Send.{
  send_payloads, send_core, conclude_send, serialize, by_pipes, send_meta_blobs, send_impl,
}
use ipc_transport_structured.Chan.Sending.Wire.{Went, framed, send_payloads-Went, send_core-sent}
use ipc_transport_structured.Chan.Sending.Ids.{Sending}
use ipc_transport_structured.Chan.Sending.Stale.{send_impl-stale}
use ipc_transport_structured.Chan.Tests.{env, env_over, token, user_mdt, message}

abbrev up : Chan
up = record (new_logged_in token) { started_ops = true }

-- An out-message of two segments with a handle.
abbrev letter : MsgOut
letter = record { segments = (5 ∷ 6 ∷ []) ∷ (8 ∷ []) ∷ []; hndl_or_null = some 11 }

-- A peer that takes two messages and then fails.
abbrev failing : Env
failing = env_over two_pipes (λ sent x. if ltb (length sent) 2 then none else some (lower 1))

send_payloads-Went_example :
    Went
      (framed failing.pipes (some 11) ((1 ∷ []) ∷ (2 ∷ []) ∷ (3 ∷ []) ∷ []))
      []
      (send_payloads failing (some 11) [] ((1 ∷ []) ∷ (2 ∷ []) ∷ (3 ∷ []) ∷ []))
send_payloads-Went_example =
    send_payloads-Went failing (some 11) [] ((1 ∷ []) ∷ (2 ∷ []) ∷ (3 ∷ []) ∷ [])

letter_sent : (send_core env (user_mdt 1 none 2) (some letter) false up).err_code ≡ none
unfolding send_core conclude_send serialize send_payloads by_pipes send_meta_blobs new_logged_in
letter_sent = refl

send_core-sent_example :
    (p : Payload) × (ps : List Payload) × (env.emit_mdt (user_mdt 1 none 2) ≡ ok p)
    × (env.emit_body letter.segments ≡ ok ps)
    × ((send_core env (user_mdt 1 none 2) (some letter) false up).chan.sent
        ≡ up.sent ++ framed env.pipes letter.hndl_or_null (p ∷ ps))
send_core-sent_example = send_core-sent env (user_mdt 1 none 2) letter false up letter_sent

-- A server in its log-in.
abbrev server : Chan
server = record (new_log_in true token) { started_ops = true }

abbrev handler : ℕ → Expecting
handler h = record { one_expected = true; on_msg_func = h }

server-log_in :
    (server.phase ≡ srv_log_in)
    × (server.snd_msg_next_id ≡ 1)
    × (find 1 server.rcv_expecting_response_map ≡ none)
unfolding new_log_in find
server-log_in = (refl, refl, refl)

send_impl-stale_example :
    let r = send_impl env letter none (some (handler 3)) server in
    (r.returned ≡ false)
    × (r.chan.snd_msg_next_id ≡ 1)
    × (find 1
          (send_impl env letter
            (some (message 1 none 5))
            (some (handler 4))
            r.chan).chan.rcv_expecting_response_map
        ≡ some (handler 3))
send_impl-stale_example =
    send_impl-stale env letter letter (message 1 none 5) (handler 3) (handler 4) server
      server-log_in.0 server-log_in.1 server-log_in.2
