-- ===== src/Chan/Tests/Streaming.antt =====
-- Two messages in a row, each with a handle, from one channel to another.
use ipc_transport_structured.Prelude.{refl, true, false, some, [], ◌∷◌, arith, ◌<◌, ◌+◌}
use ipc_transport_structured.Prelude.Map.{find}
use ipc_transport_structured.Msg.Mdt.{mdt_out}
use ipc_transport_structured.Chan.State.{MsgOut, Chan, id_mod}
use ipc_transport_structured.Chan.Init.{new_logged_in}
use ipc_transport_structured.Chan.Send.{
  send, send_impl, send_core, conclude_send, serialize, send_payloads, by_pipes, send_meta_blobs,
}
use ipc_transport_structured.Chan.Pipe.{rcv_with_hndl_else_error}
use ipc_transport_structured.Chan.Stream.Sender.{AllSent}
use ipc_transport_structured.Chan.Stream.Link.{Sendable, Linked}
use ipc_transport_structured.Chan.Stream.Heard.{Heard, send_each-Heard}
use ipc_transport_structured.Chan.Tests.{token}
use ipc_transport_structured.Chan.Tests.Transferring.{env, up, letter, in_pipe}

abbrev pub sender : Chan
sender = record up { started_ops = true }

-- The kind 5 is awaited by the handler 4.
abbrev pub listener : Chan
listener = record up {
  rcv_expecting_msg_map = (5, record { one_expected = false; on_msg_func = 4 }) ∷ [];
}

abbrev note : MsgOut
note = record { segments = (5 ∷ []) ∷ []; hndl_or_null = some 12 }

pub linked : Linked 4 5 token sender listener
unfolding new_logged_in find
linked = record {
  up = refl;
  own = refl;
  theirs = refl;
  ids = refl;
  user = λ e. omega (arith, e);
  listens = record {
    phase = refl;
    idle = record { handlers = refl; err = refl };
    nothing_queued = refl;
    awaited = refl;
  };
}

letter-Sendable : Sendable env token 5 rcv_with_hndl_else_error letter
unfolding mdt_out
letter-Sendable = record {
  some_body = λ e. omega (arith, e);
  carried = refl;
  serializes = λ id n. record {
    mdt_filled = λ p e. ground arith;
    mdt_back = λ p e. ground arith;
    body_filled = λ ps e. ground arith;
    body_length = λ ps e. ground arith;
  };
  kind = λ ps e. ground arith;
}

note-Sendable : Sendable env token 5 rcv_with_hndl_else_error note
unfolding mdt_out
note-Sendable = record {
  some_body = λ e. omega (arith, e);
  carried = refl;
  serializes = λ id n. record {
    mdt_filled = λ p e. ground arith;
    mdt_back = λ p e. ground arith;
    body_filled = λ ps e. ground arith;
    body_length = λ ps e. ground arith;
  };
  kind = λ ps e. ground arith;
}

both_sent : AllSent env (letter ∷ note ∷ []) sender
unfolding send send_impl send_core conclude_send serialize send_payloads by_pipes send_meta_blobs
    new_logged_in
both_sent = (refl, refl, (refl, refl, tt))

two_ids : sender.snd_msg_next_id + 2 < id_mod
unfolding new_logged_in
two_ids = omega arith

send_each-Heard_example : Heard env 4 5 token (letter ∷ note ∷ []) sender listener in_pipe
send_each-Heard_example =
    send_each-Heard env (λ sz segs. refl) 4 5 token (letter ∷ note ∷ []) sender listener in_pipe
      linked (letter-Sendable, (note-Sendable, tt)) both_sent two_ids
