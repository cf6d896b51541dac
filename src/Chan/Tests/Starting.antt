-- ===== src/Chan/Tests/Starting.antt =====
-- Channels that start, with versions negotiated to what the other side sent unless that is 0.
use ipc_transport_structured.Prelude.{
  ℕ, ◌≡◌, ◌≢◌, refl, true, none, some, [], ◌∷◌, arith, ◌==◌, if◌then◌else◌,
}
use ipc_transport_structured.Error.{lower, Result, ok, err}
use ipc_transport_structured.Msg.MsgIn.{Payload, new_msg_in}
use ipc_transport_structured.Chan.State.{two_pipes, MsgOut, Env, Chan}
use ipc_transport_structured.Chan.Handlers.{handle_async_err_code}
use ipc_transport_structured.Chan.Init.{new_logged_in}
use ipc_transport_structured.Chan.Pipe.{
  rcv_sans_hndl_only, MsgInPipe, read_lead_msg, stop, Read, progress,
}
use ipc_transport_structured.Chan.Errors.Steps.Chains.{Told, Healthy}
use ipc_transport_structured.Chan.Start.{
  Negotiators, Negotiated, negotiate, on_async_read_proto_neg_msg,
}
use ipc_transport_structured.Chan.Start.Negotiation.{
  on_async_read_proto_neg_msg-Told, on_async_read_proto_neg_msg-once,
}
use ipc_transport_structured.Chan.Tests.{env_over, token}

abbrev known_only : ℕ → Result ℕ
known_only v = if v == 0 then err (lower 5) else ok v

abbrev first_number : Payload → ℕ × ℕ
first_number [] = (0, 0)
first_number (v ∷ rest) = (v, v)

abbrev negotiators : Negotiators
negotiators = record {
  ver_unknown = 0;
  local_max_proto_ver = 1;
  local_max_proto_ver_aux = 1;
  emit_negotiation = λ v w. v ∷ w ∷ [];
  read_negotiation = first_number;
  compute_negotiated_proto_ver = known_only;
  compute_negotiated_proto_ver_aux = known_only;
}

known : (v w : ℕ) → negotiators.compute_negotiated_proto_ver v ≡ ok w → w ≢ negotiators.ver_unknown
known v w e u = ground arith

abbrev nothing_yet : Negotiated
nothing_yet = record { ver = 0; ver_aux = 0 }

abbrev in_pipe : MsgInPipe
in_pipe = record {
  lead_msg_mode = rcv_sans_hndl_only;
  n_segs_left_after_this_read = 0;
  incomplete_msg = new_msg_in;
}

abbrev arrived : Payload → Read
arrived p = record { err_code = none; hndl = none; bytes = p }

abbrev up : Chan
up = record (new_logged_in token) { started_ops = true; on_err_func = some 3 }

up-Healthy : Healthy 3 up
unfolding new_logged_in
up-Healthy = record { quiet = refl; err = refl; on_err = refl; proto = refl }

outcomes :
    ((on_async_read_proto_neg_msg negotiators (arrived (0 ∷ [])) in_pipe (nothing_yet, up)).1.next
      ≡ stop)
    × ((on_async_read_proto_neg_msg negotiators (arrived (2 ∷ [])) in_pipe (nothing_yet, up)).1.next
        ≡ read_lead_msg)
    × ((on_async_read_proto_neg_msg negotiators
          (arrived (2 ∷ []))
          in_pipe
          (nothing_yet, up)).1.chan.channel_err_code_or_ok
        ≡ none)
unfolding on_async_read_proto_neg_msg handle_async_err_code negotiate new_logged_in
outcomes = (refl, refl, refl)

on_async_read_proto_neg_msg-Told_example :
    Told 3 true
      (on_async_read_proto_neg_msg negotiators (arrived (0 ∷ [])) in_pipe (nothing_yet, up)).1.chan
on_async_read_proto_neg_msg-Told_example =
    on_async_read_proto_neg_msg-Told negotiators 3 (arrived (0 ∷ [])) in_pipe nothing_yet up
      up-Healthy outcomes.0

on_async_read_proto_neg_msg-once_example :
    let q = on_async_read_proto_neg_msg negotiators (arrived (2 ∷ [])) in_pipe (nothing_yet, up) in
    on_async_read_proto_neg_msg negotiators (arrived (0 ∷ [])) in_pipe (q.0, q.1.chan)
    ≡ (q.0, progress q.1.chan in_pipe read_lead_msg)
on_async_read_proto_neg_msg-once_example =
    on_async_read_proto_neg_msg-once negotiators (arrived (2 ∷ [])) (arrived (0 ∷ [])) in_pipe
      in_pipe nothing_yet up known refl outcomes.1 outcomes.2

-- A channel whose peer takes nothing.
abbrev deaf : Env
deaf = env_over two_pipes (λ sent x. some (lower 1))

abbrev fresh : Chan
fresh = new_logged_in token

abbrev letter : MsgOut
letter = record { segments = (6 ∷ []) ∷ []; hndl_or_null = none }
