-- ===== src/Chan/LogIn/Reads.antt =====
-- The log-in phase over one read of an in-pipe and the handlers that run after it.
use ipc_transport_structured.Prelude.{
  ℕ, refl, Bool, true, false, not, ◌&&◌, Option, List, [], ◌∷◌, arith, ◌==◌, is_empty, is_some,
  either_branch, if◌then◌else◌,
}
use ipc_transport_structured.Error.{
  ErrorCode, struc, make_error_code, mismatch_got_no_hndl, mismatch_got_no_blob, mismatch_got_hndl,
  deserialize_target_alloc_failed, Result, ok, err,
}
use ipc_transport_structured.Msg.MsgIn.{
  MsgIn, new_msg_in, store_native_handle_or_null, fill_target, add_serialization_segment,
  deserialize_mdt,
}
use ipc_transport_structured.Chan.State.{Env, Chan, Task}
use ipc_transport_structured.Chan.Handlers.{
  handlers_post, run_task, run_tasks, handlers_poll, handle_new_error, handle_async_err_code,
}
use ipc_transport_structured.Chan.Receive.{new_msg_in as rcv_struct_new_msg_in}
use ipc_transport_structured.Chan.Pipe.{
  wants_hndl, MsgInPipe, RcvNextStep, read_lead_msg, read_cont_msg, stop, Read, Progress, progress,
  rcv_blob_max_size, next_target, fed, complete_msg, continue_msg, on_lead_payload,
  on_async_read_lead_msg, on_async_read_continuation_msg,
}
use ipc_transport_structured.Chan.LogIn.{some, Logs, Logs-trans, Logs-same, Logs-alike, hosed-Logs}
use ipc_transport_structured.Chan.LogIn.Whole.{new_msg_in-Logs}

-- Running tasks calls handlers and touches nothing of the log-in.
run_tasks-Logs : (ts : List Task) (s : Chan) → Logs s (run_tasks ts s)
unfolding run_tasks run_task
run_tasks-Logs [] s = Logs-same s s refl refl refl refl
run_tasks-Logs (t ∷ ts) s =
    Logs-trans s (run_task t s) (run_tasks ts (run_task t s))
      (Logs-alike s (run_task t s) (ground arith)) (run_tasks-Logs ts (run_task t s))

pub polled-Logs : (s t : Chan) → Logs s t → Logs s (handlers_poll t)
unfolding handlers_poll
polled-Logs s t a =
    let cleared : Chan = record t { sync_io_handlers = [] } in
    Logs-trans s t (handlers_poll t) a (
      Logs-trans t cleared (run_tasks t.sync_io_handlers cleared)
        (Logs-same t cleared refl refl refl refl) (run_tasks-Logs t.sync_io_handlers cleared))

abbrev Stage : Chan → Progress → Type 0
Stage s q = Logs s q.chan

module _ (env : Env) where
  target-Logs :
      (next : RcvNextStep) (m : MsgIn) (pipe : MsgInPipe) (s t : Chan)
      → Logs s t
      → Logs s (next_target env next m pipe t).chan
  unfolding next_target
  target-Logs next m pipe s t a =
      let r = add_serialization_segment env.reader (rcv_blob_max_size env pipe.lead_msg_mode) m in
      either_branch (Stage s) r.1 a
        (Logs-trans s t _ a (hosed-Logs (some (struc deserialize_target_alloc_failed)) t))

  fed-Logs :
      (pipe : MsgInPipe) (s : Chan) (r : Chan × Bool) → Logs s r.0 → Logs s (fed env pipe r).chan
  fed-Logs pipe s (t, true) a = target-Logs read_lead_msg new_msg_in pipe s t a
  fed-Logs pipe s (t, false) a = a

  complete-Logs :
      (m : MsgIn) (pipe : MsgInPipe) (s : Chan) → Logs s (complete_msg env m pipe s).chan
  unfolding complete_msg
  complete-Logs m pipe s = fed-Logs pipe s (rcv_struct_new_msg_in env m s) (new_msg_in-Logs env m s)

  continue-Logs :
      (left : ℕ) (m : MsgIn) (pipe : MsgInPipe) (s : Chan)
      → Logs s (continue_msg env left m pipe s).chan
  unfolding continue_msg
  continue-Logs left m pipe s =
      target-Logs read_cont_msg m _ s s (Logs-same s s refl refl refl refl)

  lead_payload-Logs :
      (r : Read) (pipe : MsgInPipe) (s : Chan) → Logs s (on_lead_payload env r pipe s).chan
  unfolding on_lead_payload
  lead_payload-Logs r pipe s =
      let m0 = store_native_handle_or_null r.hndl (fill_target r.bytes pipe.incomplete_msg) in
      let d = deserialize_mdt env.reader env.order m0 in go d.0 d.1
    where
      go :
          (m : MsgIn) (result : Result ℕ)
          → Stage s (elim result [
            | err e ↦
                progress (handle_new_error (some e) s) (record pipe { incomplete_msg = m }) stop
            | ok n ↦
                if n == 0
                then complete_msg env m (record pipe { n_segs_left_after_this_read = 0 }) s
                else continue_msg env n m pipe s
          ])
      go m (err e) = hosed-Logs (some e) s
      go m (ok n) =
          either_branch (Stage s) (n == 0)
            (complete-Logs m (record pipe { n_segs_left_after_this_read = 0 }) s)
            (continue-Logs n m pipe s)

  async_err-Logs : (c : Option ErrorCode) (s : Chan) → Logs s (handle_async_err_code c s).0
  unfolding handle_async_err_code handle_new_error handlers_post
  async_err-Logs c s = Logs-alike s (handle_async_err_code c s).0 (ground arith)

  pub lead-Logs :
      (r : Read) (pipe : MsgInPipe) (s : Chan) → Logs s (on_async_read_lead_msg env r pipe s).chan
  unfolding on_async_read_lead_msg
  lead-Logs r pipe s =
      let t = (handle_async_err_code r.err_code s).0 in
      let a = async_err-Logs r.err_code s in
      either_branch (Stage s) (handle_async_err_code r.err_code s).1 a (
        either_branch (Stage s) (wants_hndl pipe.lead_msg_mode && not (is_some r.hndl))
          (Logs-trans s t _ a (hosed-Logs (make_error_code mismatch_got_no_hndl) t))
          (either_branch (Stage s) (is_empty r.bytes)
            (Logs-trans s t _ a (hosed-Logs (some (struc mismatch_got_no_blob)) t))
            (Logs-trans s t _ a (lead_payload-Logs r pipe t))))

  pub cont-Logs :
      (r : Read) (pipe : MsgInPipe) (s : Chan)
      → Logs s (on_async_read_continuation_msg env r pipe s).chan
  unfolding on_async_read_continuation_msg
  cont-Logs r pipe s =
      let t = (handle_async_err_code r.err_code s).0 in
      let a = async_err-Logs r.err_code s in
      let m = fill_target r.bytes pipe.incomplete_msg in
      either_branch (Stage s) (handle_async_err_code r.err_code s).1 a (
        either_branch (Stage s) (is_some r.hndl)
          (Logs-trans s t _ a (hosed-Logs (some (struc mismatch_got_hndl)) t))
          (either_branch (Stage s) (is_empty r.bytes)
            (Logs-trans s t _ a (hosed-Logs (some (struc mismatch_got_no_blob)) t))
            (either_branch (Stage s) (pipe.n_segs_left_after_this_read == 0)
              (Logs-trans s t _ a (complete-Logs m pipe t))
              (Logs-trans s t _ a (continue-Logs pipe.n_segs_left_after_this_read m pipe t)))))
