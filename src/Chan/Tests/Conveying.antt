-- ===== src/Chan/Tests/Conveying.antt =====
-- A message with a handle and one without, from the calls of `send` over two pipes to the handler.
use ipc_transport_structured.Prelude.{
  ◌+◌, ◌<◌, ◌≡◌, refl, none, some, List, [], ◌∷◌, ◌++◌, arith, All,
}
use ipc_transport_structured.Msg.Mdt.{mdt_out}
use ipc_transport_structured.Chan.State.{MsgOut, Sent, blob, meta_blob, id_mod}
use ipc_transport_structured.Chan.Init.{new_logged_in}
use ipc_transport_structured.Chan.Send.{
  send, send_impl, send_core, conclude_send, serialize, send_payloads, by_pipes, send_meta_blobs,
  send_blobs,
}
use ipc_transport_structured.Chan.Pipe.{rcv_sans_hndl_only, read_lead_msg}
use ipc_transport_structured.Chan.Stream.{waiting}
use ipc_transport_structured.Chan.Stream.Link.{Sendable}
use ipc_transport_structured.Chan.Stream.Sender.{send_each, AllSent}
use ipc_transport_structured.Chan.Weave.Pipes.{both, read_both}
use ipc_transport_structured.Chan.Weave.EndToEnd.{Conveyed, send_each-Conveyed}
use ipc_transport_structured.Chan.Tests.{token}
use ipc_transport_structured.Chan.Tests.Transferring.{env, letter, in_pipe}
use ipc_transport_structured.Chan.Tests.Streaming.{sender, listener, linked}
use ipc_transport_structured.Chan.Tests.Weaving.{mixed, blobs_pipe}

abbrev postcard : MsgOut
postcard = record { segments = (5 ∷ []) ∷ []; hndl_or_null = none }

abbrev wire : List Sent
wire =
    meta_blob (some 11) (7 ∷ 9 ∷ 1 ∷ 0 ∷ 2 ∷ [])
    ∷ meta_blob none (5 ∷ 6 ∷ [])
    ∷ meta_blob none (8 ∷ [])
    ∷ blob (7 ∷ 9 ∷ 2 ∷ 0 ∷ 1 ∷ [])
    ∷ blob (5 ∷ [])
    ∷ []

both-Sendable : All (Sendable env token 5 rcv_sans_hndl_only) (letter ∷ postcard ∷ [])
unfolding mdt_out
both-Sendable = (
  record {
    some_body = λ e. omega (arith, e);
    carried = refl;
    serializes = λ id n. record {
      mdt_filled = λ p e. ground arith;
      mdt_back = λ p e. ground arith;
      body_filled = λ ps e. ground arith;
      body_length = λ ps e. ground arith;
    };
    kind = λ ps e. ground arith;
  },
  (
    record {
      some_body = λ e. omega (arith, e);
      carried = refl;
      serializes = λ id n. record {
        mdt_filled = λ p e. ground arith;
        mdt_back = λ p e. ground arith;
        body_filled = λ ps e. ground arith;
        body_length = λ ps e. ground arith;
      };
      kind = λ ps e. ground arith;
    },
    tt,
  ),
)

both_sent : AllSent env (letter ∷ postcard ∷ []) sender
unfolding send send_impl send_core conclude_send serialize send_payloads by_pipes send_meta_blobs
    send_blobs new_logged_in
both_sent = (refl, refl, (refl, refl, tt))

on_wire : (send_each env (letter ∷ postcard ∷ []) sender).sent ≡ sender.sent ++ wire
unfolding send_each send send_impl send_core conclude_send serialize send_payloads by_pipes
    send_meta_blobs send_blobs new_logged_in mdt_out
on_wire = refl

ids_left : sender.snd_msg_next_id + 1 + 2 < id_mod
unfolding new_logged_in
ids_left = omega arith

negotiated : listener.proto_neg_err_code_or_ok ≡ none
unfolding new_logged_in
negotiated = refl

send_each-Conveyed_example :
    Conveyed env 4 5 token
      (letter ∷ postcard ∷ [])
      listener
      (read_both env mixed
        (both listener (waiting blobs_pipe) read_lead_msg (waiting in_pipe) read_lead_msg)).chan
send_each-Conveyed_example =
    send_each-Conveyed env (λ sz segs. refl) 4 5 token refl sender listener linked negotiated
      (letter ∷ postcard ∷ []) wire mixed blobs_pipe in_pipe both-Sendable both_sent ids_left
      on_wire refl refl refl refl
