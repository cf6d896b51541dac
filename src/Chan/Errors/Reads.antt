-- ===== src/Chan/Errors/Reads.antt =====
-- How one read of an in-pipe can end, and what a read chain that stops has told the user.
use ipc_transport_structured.Prelude.{
  [], ◌||◌, ◌∷◌, List, ℕ, ◌-◌, ◌≡◌, ◌≢◌, Bool, true, false, not, ◌&&◌, inl, inr, Option, none, some,
  arith, ◌==◌, is_empty, is_some, Option-cases, if◌then◌else◌, either_branch,
}
use ipc_transport_structured.Error.{
  NonzeroCode, ErrorCode, struc, make_error_code, mismatch_got_no_blob, mismatch_got_hndl,
  deserialize_target_alloc_failed, Result, ok, err,
}
use ipc_transport_structured.Msg.MsgIn.{
  MsgIn, new_msg_in, store_native_handle_or_null, fill_target, add_serialization_segment,
  deserialize_mdt,
}
use ipc_transport_structured.Chan.State.{Env, Chan}
use ipc_transport_structured.Chan.Handlers.{handlers_poll, handle_new_error, handle_async_err_code}
use ipc_transport_structured.Chan.Receive.{new_msg_in as rcv_struct_new_msg_in}
use ipc_transport_structured.Chan.Pipe.{
  wants_hndl, MsgInPipe, RcvNextStep, read_lead_msg, read_cont_msg, stop, Read, Progress, progress,
  stop_with, rcv_blob_max_size, next_target, fed, complete_msg, continue_msg, on_lead_payload,
  on_async_read_lead_msg, on_async_read_continuation_msg,
}
use ipc_transport_structured.Chan.Verdict.{Accepts, Accepts-refl, Verdict, accepted, hosed}
use ipc_transport_structured.Chan.Verdict.Stages.{new_msg_in-Verdict}

-- A read of a lead message without its handle, from a pipe for messages with one, on a channel
-- without an error. Its code is the falsy one.
unfoldable pub misread : Read → MsgInPipe → Chan → Bool
misread r pipe s =
    not (is_some s.channel_err_code_or_ok)
    && (not (is_some r.err_code) && (wants_hndl pipe.lead_msg_mode && not (is_some r.hndl)))

-- Whether a chain comes to such a read.
unfoldable pub misreads : Env → List Read → Progress → Bool
misreads env [] p = false
misreads env (r ∷ rs) p = elim p.next [
  | stop ↦ false
  | read_lead_msg ↦
      let q = on_async_read_lead_msg env r p.pipe p.chan in
      misread r p.pipe p.chan || misreads env rs (progress (handlers_poll q.chan) q.pipe q.next)
  | read_cont_msg ↦
      let q = on_async_read_continuation_msg env r p.pipe p.chan in
      misreads env rs (progress (handlers_poll q.chan) q.pipe q.next)
]

-- The read took its payload and goes on, or it hosed the channel and stops.
pub data Went (s : Chan) : Progress → Type 0 where
  goes_on :
      {t : Chan} (pipe : MsgInPipe) {next : RcvNextStep}
      → Accepts s t
      → next ≢ stop
      → Went s (progress t pipe next)
  stops :
      {u : Chan} (pipe : MsgInPipe) (e : ErrorCode)
      → Accepts s u
      → Went s (progress (handle_new_error (some e) u) pipe stop)

pub handle_async-clear :
    (c : Option ErrorCode) (s : Chan)
    → c ≡ none
    → s.channel_err_code_or_ok ≡ none
    → handle_async_err_code c s ≡ (s, false)
unfolding handle_async_err_code
handle_async-clear c s f g = ground arith

pub handle_async-new :
    (c : Option ErrorCode) (e : ErrorCode) (s : Chan)
    → c ≡ some e
    → s.channel_err_code_or_ok ≡ none
    → handle_async_err_code c s ≡ (handle_new_error (some e) s, true)
unfolding handle_async_err_code
handle_async-new c e s f g = ground arith

module _ (env : Env) where
  next_target-Went :
      (next : RcvNextStep) (m : MsgIn) (pipe : MsgInPipe) (s t : Chan)
      → Accepts s t
      → next ≢ stop
      → Went s (next_target env next m pipe t)
  unfolding next_target
  next_target-Went next m pipe s t a n =
      let r = add_serialization_segment env.reader (rcv_blob_max_size env pipe.lead_msg_mode) m in
      let pipe' : MsgInPipe = record pipe { incomplete_msg = r.0 } in
      either_branch (Went s) r.1 (goes_on pipe' a n)
        (stops pipe' (struc deserialize_target_alloc_failed) a)

  fed-Went : (pipe : MsgInPipe) (s : Chan) (r : Chan × Bool) → Verdict s r → Went s (fed env pipe r)
  fed-Went pipe s r (accepted {t} a) =
      next_target-Went read_lead_msg new_msg_in pipe s t a (λ e. cc)
  fed-Went pipe s r (hosed e a) = stops pipe e a

  complete-Went :
      (m : MsgIn) (pipe : MsgInPipe) (s : Chan)
      → s.proto_neg_err_code_or_ok ≡ none
      → Went s (complete_msg env m pipe s)
  unfolding complete_msg
  complete-Went m pipe s p =
      fed-Went pipe s (rcv_struct_new_msg_in env m s) (new_msg_in-Verdict env m s p)

  continue-Went :
      (left : ℕ) (m : MsgIn) (pipe : MsgInPipe) (s : Chan) → Went s (continue_msg env left m pipe s)
  unfolding continue_msg
  continue-Went left m pipe s =
      next_target-Went read_cont_msg m (record pipe { n_segs_left_after_this_read = left - 1 }) s s
        (Accepts-refl s) (λ e. cc)

  lead_payload-Went :
      (r : Read) (pipe : MsgInPipe) (s : Chan)
      → s.proto_neg_err_code_or_ok ≡ none
      → Went s (on_lead_payload env r pipe s)
  unfolding on_lead_payload
  lead_payload-Went r pipe s p =
      let d =
        deserialize_mdt env.reader env.order
          (store_native_handle_or_null r.hndl (fill_target r.bytes pipe.incomplete_msg)) in
      read d.0 d.1
    where
      read :
          (m : MsgIn) (result : Result ℕ)
          → Went s (elim result [
            | err e ↦
                progress (handle_new_error (some e) s) (record pipe { incomplete_msg = m }) stop
            | ok n ↦
                if n == 0
                then complete_msg env m (record pipe { n_segs_left_after_this_read = 0 }) s
                else continue_msg env n m pipe s
          ])
      read m (err e) = stops (record pipe { incomplete_msg = m }) e (Accepts-refl s)
      read m (ok n) =
          either_branch (Went s) (n == 0)
            (complete-Went m (record pipe { n_segs_left_after_this_read = 0 }) s p)
            (continue-Went n m pipe s)

  stop_with-Went : (c : NonzeroCode) (pipe : MsgInPipe) (s : Chan) → Went s (stop_with c pipe s)
  stop_with-Went c pipe s = stops pipe (struc c) (Accepts-refl s)

  pub lead-misread :
      (r : Read) (pipe : MsgInPipe) (s : Chan)
      → misread r pipe s ≡ true
      → on_async_read_lead_msg env r pipe s ≡ progress (handle_new_error none s) pipe stop
  unfolding on_async_read_lead_msg misread handle_async_err_code make_error_code
  lead-misread r pipe s l = ground arith

  pub lead-Went :
      (r : Read) (pipe : MsgInPipe) (s : Chan)
      → misread r pipe s ≡ false
      → s.proto_neg_err_code_or_ok ≡ none
      → s.channel_err_code_or_ok ≡ none
      → Went s (on_async_read_lead_msg env r pipe s)
  unfolding on_async_read_lead_msg misread
  lead-Went r pipe s l p c = elim (Option-cases r.err_code) [
    | inr (e, f) ↦ rw (handle_async-new r.err_code e s f c) (stops pipe e (Accepts-refl s))
    | inl f ↦
        let given : (wants_hndl pipe.lead_msg_mode && not (is_some r.hndl)) ≡ false =
          ground (arith, l, f, c) in
        rw (handle_async-clear r.err_code s f c, given)
          (either_branch (Went s) (is_empty r.bytes) (stop_with-Went mismatch_got_no_blob pipe s)
            (lead_payload-Went r pipe s p))
  ]

  pub cont-Went :
      (r : Read) (pipe : MsgInPipe) (s : Chan)
      → s.proto_neg_err_code_or_ok ≡ none
      → s.channel_err_code_or_ok ≡ none
      → Went s (on_async_read_continuation_msg env r pipe s)
  unfolding on_async_read_continuation_msg
  cont-Went r pipe s p c =
      let m = fill_target r.bytes pipe.incomplete_msg in
      elim (Option-cases r.err_code) [
        | inr (e, f) ↦ rw (handle_async-new r.err_code e s f c) (stops pipe e (Accepts-refl s))
        | inl f ↦ rw (handle_async-clear r.err_code s f c) (
            either_branch (Went s) (is_some r.hndl) (stop_with-Went mismatch_got_hndl pipe s) (
              either_branch (Went s) (is_empty r.bytes) (stop_with-Went mismatch_got_no_blob pipe s)
                (either_branch (Went s) (pipe.n_segs_left_after_this_read == 0)
                  (complete-Went m pipe s p)
                  (continue-Went pipe.n_segs_left_after_this_read m pipe s))))
      ]
