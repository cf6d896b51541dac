-- ===== src/Chan/Pipe.antt =====
-- The read chain of one in-pipe: `Msg_in_pipe`, `rcv_on_async_read_lead_msg`,
-- `rcv_on_async_read_continuation_msg` and the loop around them.
use ipc_transport_structured.Prelude.{
  some, ℕ, ◌-◌, Bool, true, false, not, ◌&&◌, Option, List, [], ◌∷◌, ◌==◌, is_empty, if◌then◌else◌,
  is_some,
}
use ipc_transport_structured.Error.{
  NonzeroCode, ErrorCode, struc, mismatch_got_no_hndl, make_error_code, mismatch_got_no_blob,
  mismatch_got_hndl, deserialize_target_alloc_failed, ok, err,
}
use ipc_transport_structured.Msg.MsgIn.{
  Payload, MsgIn, new_msg_in, store_native_handle_or_null, fill_target, add_serialization_segment,
  deserialize_mdt,
}
use ipc_transport_structured.Chan.State.{Env, Chan}
use ipc_transport_structured.Chan.Handlers.{handlers_poll, handle_new_error, handle_async_err_code}
use ipc_transport_structured.Chan.Receive.{new_msg_in as rcv_struct_new_msg_in}

-- `m_lead_msg_mode`.
pub data LeadMsgMode : Type 0 where
  rcv_with_or_sans_hndl_demux rcv_with_hndl_else_error rcv_sans_hndl_only : LeadMsgMode

abbrev pub wants_hndl : LeadMsgMode → Bool
wants_hndl rcv_with_hndl_else_error = true
wants_hndl _ = false

-- The target blob is the last segment of the incomplete message.
pub record MsgInPipe : Type 0 where
  pub lead_msg_mode : LeadMsgMode
  pub n_segs_left_after_this_read : ℕ
  pub incomplete_msg : MsgIn

pub data RcvNextStep : Type 0 where
  read_lead_msg read_cont_msg stop : RcvNextStep

-- What the owned channel's receive yields: an error, or the bytes with the handle if there is one.
pub record Read : Type 0 where
  pub err_code : Option ErrorCode
  pub hndl : Option ℕ
  pub bytes : Payload

pub record Progress : Type 0 where
  pub chan : Chan
  pub pipe : MsgInPipe
  pub next : RcvNextStep

abbrev pub progress : Chan → MsgInPipe → RcvNextStep → Progress
progress s pipe next = record { chan = s; pipe = pipe; next = next }

abbrev pub stop_with : NonzeroCode → MsgInPipe → Chan → Progress
stop_with c pipe s = progress (handle_new_error (some (struc c)) s) pipe stop

module _ (env : Env) where
  unfoldable pub rcv_blob_max_size : LeadMsgMode → ℕ
  rcv_blob_max_size rcv_sans_hndl_only = env.receive_blob_max_size
  rcv_blob_max_size _ = env.receive_meta_blob_max_size

  -- The next target blob for the message `m`, or the error that there is none.
  unfoldable pub next_target : RcvNextStep → MsgIn → MsgInPipe → Chan → Progress
  next_target next m pipe s =
      let (m', given) =
        add_serialization_segment env.reader (rcv_blob_max_size pipe.lead_msg_mode) m in
      let pipe' : MsgInPipe = record pipe { incomplete_msg = m' } in
      if given then progress s pipe' next else stop_with deserialize_target_alloc_failed pipe' s

  abbrev pub fed : MsgInPipe → Chan × Bool → Progress
  fed pipe (s, true) = next_target read_lead_msg new_msg_in pipe s
  fed pipe (s, false) = progress s pipe stop

  -- All segments are there: feed the message on and begin a new one.
  unfoldable pub complete_msg : MsgIn → MsgInPipe → Chan → Progress
  complete_msg m pipe s = fed pipe (rcv_struct_new_msg_in env m s)

  -- Segments are still to come: make room for the next.
  unfoldable pub continue_msg : ℕ → MsgIn → MsgInPipe → Chan → Progress
  continue_msg left m pipe s =
      next_target read_cont_msg m (record pipe { n_segs_left_after_this_read = left - 1 }) s

  unfoldable pub on_lead_payload : Read → MsgInPipe → Chan → Progress
  on_lead_payload r pipe s =
      let (m, result) =
        deserialize_mdt env.reader env.order
          (store_native_handle_or_null r.hndl (fill_target r.bytes pipe.incomplete_msg)) in
      elim result [
        | err e ↦ progress (handle_new_error (some e) s) (record pipe { incomplete_msg = m }) stop
        | ok n ↦
            if n == 0
            then complete_msg m (record pipe { n_segs_left_after_this_read = 0 }) s
            else continue_msg n m pipe s
      ]

  unfoldable pub on_async_read_lead_msg : Read → MsgInPipe → Chan → Progress
  on_async_read_lead_msg r pipe s =
      let (s', hosed) = handle_async_err_code r.err_code s in
      if hosed
      then progress s' pipe stop
      else if wants_hndl pipe.lead_msg_mode && not (is_some r.hndl)
      then progress (handle_new_error (make_error_code mismatch_got_no_hndl) s') pipe stop
      else if is_empty r.bytes
      then stop_with mismatch_got_no_blob pipe s'
      else on_lead_payload r pipe s'

  unfoldable pub on_async_read_continuation_msg : Read → MsgInPipe → Chan → Progress
  on_async_read_continuation_msg r pipe s =
      let (s', hosed) = handle_async_err_code r.err_code s in
      let m = fill_target r.bytes pipe.incomplete_msg in
      if hosed
      then progress s' pipe stop
      else if is_some r.hndl
      then stop_with mismatch_got_hndl pipe s'
      else if is_empty r.bytes
      then stop_with mismatch_got_no_blob pipe s'
      else if pipe.n_segs_left_after_this_read == 0
      then complete_msg m pipe s'
      else continue_msg pipe.n_segs_left_after_this_read m pipe s'

  -- The loop over the reads that the pipe has to give, synchronously or in completion handlers; at
  -- the end of the list the pipe would block. Handlers run after each read.
  unfoldable pub read_chain : List Read → Progress → Progress
  read_chain [] p = p
  read_chain (r ∷ rs) p = elim p.next [
    | stop ↦ p
    | read_lead_msg ↦
        let q = on_async_read_lead_msg r p.pipe p.chan in
        read_chain rs (progress (handlers_poll q.chan) q.pipe q.next)
    | read_cont_msg ↦
        let q = on_async_read_continuation_msg r p.pipe p.chan in
        read_chain rs (progress (handlers_poll q.chan) q.pipe q.next)
  ]
