-- ===== src/Chan/Tests/Transferring.antt =====
-- A message with a handle that goes from one channel to another.
use ipc_transport_structured.Prelude.{◌≡◌, refl, false, none, some, [], ◌∷◌, arith}
use ipc_transport_structured.Error.{ok}
use ipc_transport_structured.Msg.Mdt.{StructuredMessage, mdt_out, segments_of}
use ipc_transport_structured.Msg.MsgIn.{new_msg_in}
use ipc_transport_structured.Chan.State.{two_pipes, MsgOut, Env, Chan}
use ipc_transport_structured.Chan.Init.{new_logged_in}
use ipc_transport_structured.Chan.Send.{
  send_core, conclude_send, serialize, send_payloads, by_pipes, send_meta_blobs,
}
use ipc_transport_structured.Chan.Pipe.{rcv_with_hndl_else_error, MsgInPipe}
use ipc_transport_structured.Chan.Framing.{IsIdle}
use ipc_transport_structured.Chan.Transfer.{Serializes, Transfers, send_core-Transfers}
use ipc_transport_structured.Chan.Tests.{env_over, token}

abbrev pub env : Env
env = record (env_over two_pipes (λ sent x. none)) {
  emit_mdt = λ mdt. ok (7 ∷ 9 ∷ mdt.id ∷ 0 ∷ segments_of mdt.body ∷ []);
}

abbrev pub up : Chan
up = new_logged_in token

abbrev pub letter : MsgOut
letter = record { segments = (5 ∷ 6 ∷ []) ∷ (8 ∷ []) ∷ []; hndl_or_null = some 11 }

abbrev letter_mdt : StructuredMessage
letter_mdt = mdt_out env.order token 0 1 2

abbrev pub in_pipe : MsgInPipe
in_pipe = record {
  lead_msg_mode = rcv_with_hndl_else_error;
  n_segs_left_after_this_read = 0;
  incomplete_msg = record new_msg_in { mdt_reader = some ([] ∷ []) };
}

letter-Serializes : Serializes env letter_mdt letter
unfolding mdt_out
letter-Serializes = record {
  mdt_filled = λ p e. ground arith;
  mdt_back = λ p e. ground arith;
  body_filled = λ ps e. ground arith;
  body_length = λ ps e. ground arith;
}

letter_sent : (send_core env letter_mdt (some letter) false up).err_code ≡ none
unfolding send_core conclude_send serialize send_payloads by_pipes send_meta_blobs new_logged_in
letter_sent = refl

pub up-IsIdle : IsIdle up
unfolding new_logged_in
up-IsIdle = record { handlers = refl; err = refl }

send_core-Transfers_example : Transfers env letter_mdt letter up up in_pipe token 0 1
send_core-Transfers_example =
    send_core-Transfers env (λ sz segs. refl) token 0 1 letter up up in_pipe (λ e. omega (arith, e))
      (λ e. omega (arith, e)) letter-Serializes letter_sent refl refl up-IsIdle
