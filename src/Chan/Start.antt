-- ===== src/Chan/Start.antt =====
-- Starting the operations, and the negotiation of the protocol version that precedes all other
-- messages on each pipe.
pub mod Negotiation
use ipc_transport_structured.Prelude.{
  ℕ, Bool, true, false, not, Option, none, some, List, [], ◌∷◌, ◌++◌, ◌==◌, if◌then◌else◌, is_some,
}
use ipc_transport_structured.Error.{
  ErrorCode, struc, deserialize_target_alloc_failed, Result, ok, err,
}
use ipc_transport_structured.Msg.MsgIn.{Payload, MsgIn, new_msg_in, add_serialization_segment}
use ipc_transport_structured.Chan.State.{
  Pipes, blob_pipe_only, native_handle_pipe_only, two_pipes, Sent, blob, meta_blob, Env, Chan,
}
use ipc_transport_structured.Chan.Handlers.{handlers_poll, handle_new_error, handle_async_err_code}
use ipc_transport_structured.Chan.Pipe.{
  LeadMsgMode, rcv_with_or_sans_hndl_demux, rcv_with_hndl_else_error, rcv_sans_hndl_only, MsgInPipe,
  RcvNextStep, read_lead_msg, stop, Read, Progress, progress, rcv_blob_max_size,
}

-- `Protocol_negotiator` of the layer below, for the version proper and the auxiliary one, and the
-- message that carries both. A version is a 16-bit word; `ver_unknown` is `S_VER_UNKNOWN`.
pub record Negotiators : Type 0 where
  pub ver_unknown : ℕ
  pub local_max_proto_ver : ℕ
  pub local_max_proto_ver_aux : ℕ
  pub emit_negotiation : ℕ → ℕ → Payload
  pub read_negotiation : Payload → ℕ × ℕ
  pub compute_negotiated_proto_ver : ℕ → Result ℕ
  pub compute_negotiated_proto_ver_aux : ℕ → Result ℕ

-- What was negotiated, `ver_unknown` before that.
pub record Negotiated : Type 0 where
  pub ver : ℕ
  pub ver_aux : ℕ

-- Sends that stop at the first error, which goes to `m_proto_neg_err_code_or_ok`.
unfoldable pub send_all :
    (List Sent → Sent → Option ErrorCode) → List Sent → List Sent → List Sent × Option ErrorCode
send_all transmit sent [] = (sent, none)
send_all transmit sent (x ∷ xs) =
    let rest = send_all transmit (sent ++ x ∷ []) xs in
    elim (transmit sent x) [ some e ↦ (sent, some e) | none ↦ rest ]

abbrev proto_neg_blobs : Pipes → Payload → List Sent
proto_neg_blobs blob_pipe_only p = blob p ∷ []
proto_neg_blobs native_handle_pipe_only p = meta_blob none p ∷ []
proto_neg_blobs two_pipes p = meta_blob none p ∷ blob p ∷ []

-- What a started channel is, whether the call is accepted, and the pipes whose first read, of the
-- negotiation message, begins.
pub record Started : Type 0 where
  pub chan : Chan
  pub returned : Bool
  pub pipes : List MsgInPipe

abbrev started : Chan → Bool → List MsgInPipe → Started
started s b pipes = record { chan = s; returned = b; pipes = pipes }

module _ (env : Env) (neg : Negotiators) where
  unfoldable pub send_proto_neg : Chan → Chan
  send_proto_neg s =
      let r = send_all env.transmit s.sent (
        proto_neg_blobs env.pipes
          (neg.emit_negotiation neg.local_max_proto_ver neg.local_max_proto_ver_aux)) in
      record s { sent = r.0; proto_neg_err_code_or_ok = r.1 }

  unfoldable pub start_ops : Chan → Chan × Bool
  start_ops s =
      if s.started_ops then (s, false) else (send_proto_neg (record s { started_ops = true }), true)

module _ (env : Env) where
  -- A pipe with its first target blob, and whether there was memory for it.
  unfoldable pub new_pipe : LeadMsgMode → MsgInPipe × Bool
  new_pipe mode =
      let r = add_serialization_segment env.reader (rcv_blob_max_size env mode) new_msg_in in
      (record { lead_msg_mode = mode; n_segs_left_after_this_read = 0; incomplete_msg = r.0 }, r.1)

  abbrev pub modes : List LeadMsgMode
  modes = elim env.pipes [
    | blob_pipe_only ↦ rcv_sans_hndl_only ∷ []
    | native_handle_pipe_only ↦ rcv_with_or_sans_hndl_demux ∷ []
    | two_pipes ↦ rcv_with_hndl_else_error ∷ rcv_sans_hndl_only ∷ []
  ]

  -- The pipes in order, until one has no target blob.
  unfoldable pub new_pipes : List LeadMsgMode → Option (List MsgInPipe)
  new_pipes [] = some []
  new_pipes (mode ∷ rest) =
      let others = new_pipes rest in
      if (new_pipe mode).1
      then elim others [ none ↦ none | some pipes ↦ some ((new_pipe mode).0 ∷ pipes) ]
      else none

  unfoldable pub start_and_poll : ℕ → Chan → Started
  start_and_poll h s =
      if not s.started_ops
      then started s false []
      else if is_some s.on_err_func
      then started s false []
      else if is_some s.channel_err_code_or_ok
      then started s false []
      else let s1 : Chan = record s { on_err_func = some h } in
        elim s.proto_neg_err_code_or_ok [
          | some e ↦ started (handle_new_error (some e) s1) true []
          | none ↦ elim (new_pipes modes) [
            | none ↦
                started (handle_new_error (some (struc deserialize_target_alloc_failed)) s1) true []
            | some pipes ↦ started s1 true pipes
          ]
        ]

-- The versions that the other side sent. A handle with the message makes them unknown.
abbrev pub received : Negotiators → Read → ℕ × ℕ
received neg r =
    if is_some r.hndl then (neg.ver_unknown, neg.ver_unknown) else neg.read_negotiation r.bytes

-- The two computations; the second is not tried after an error of the first, and an error leaves the
-- version as it was.
unfoldable pub negotiate : Negotiators → ℕ × ℕ → Negotiated → Negotiated × Option ErrorCode
negotiate neg (ver, ver_aux) g = elim (neg.compute_negotiated_proto_ver ver) [
  | err e ↦ (g, some e)
  | ok v ↦ elim (neg.compute_negotiated_proto_ver_aux ver_aux) [
    | err e ↦ (record g { ver = v }, some e)
    | ok w ↦ (record { ver = v; ver_aux = w }, none)
  ]
]

-- `rcv_on_async_read_proto_neg_msg`, up to the read of the first lead message.
unfoldable pub on_async_read_proto_neg_msg :
    Negotiators → Read → MsgInPipe → Negotiated × Chan → Negotiated × Progress
on_async_read_proto_neg_msg neg r pipe (g, s) =
    let (s', hosed) = handle_async_err_code r.err_code s in
    if hosed
    then (g, progress (handlers_poll s') pipe stop)
    else if not (g.ver == neg.ver_unknown)
    then (g, progress s' pipe read_lead_msg)
    else let (g', result) = negotiate neg (received neg r) g in
      elim result [
        | some e ↦ (g', progress (handlers_poll (handle_new_error (some e) s')) pipe stop)
        | none ↦ (g', progress s' pipe read_lead_msg)
      ]
