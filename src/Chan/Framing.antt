-- ===== src/Chan/Framing.antt =====
-- The payloads of one in-pipe put together: a metadata payload and the body segments that it
-- announces make one structured message.
pub mod Message
use mathlib.Core.List.{append-nil, append_assoc}
use ipc_transport_structured.Prelude.{
  ℕ, zero, suc, ◌+◌, ◌-◌, ◌≡◌, ◌≢◌, refl, sym, ap, ◌∙◌, Bool, true, false, not, ◌&&◌, inl, inr,
  Option, none, some, List, [], ◌∷◌, ◌++◌, arith, ◌==◌, All, map, length, is_empty, is_some,
  Bool-cases, Option-cases,
}
use ipc_transport_structured.Error.{ErrorCode, ok, err}
use ipc_transport_structured.Msg.MsgIn.{
  Payload, MsgIn, new_msg_in, store_native_handle_or_null, set_last, fill_target, segments_so_far,
  add_serialization_segment, deserialize_mdt,
}
use ipc_transport_structured.Chan.State.{Env, Chan}
use ipc_transport_structured.Chan.Handlers.{run_tasks, handlers_poll, handle_async_err_code}
use ipc_transport_structured.Chan.Pipe.{
  LeadMsgMode, wants_hndl, MsgInPipe, RcvNextStep, read_lead_msg, read_cont_msg, Read, Progress,
  progress, next_target, complete_msg, continue_msg, on_lead_payload, on_async_read_lead_msg,
  on_async_read_continuation_msg, read_chain, rcv_blob_max_size,
}

-- A payload that arrived whole, without a handle.
pub record IsSegment (r : Read) : Type 0 where
  pub err : r.err_code ≡ none
  pub hndl : r.hndl ≡ none
  pub filled : is_empty r.bytes ≡ false

-- The reading goes on with the handlers run.
abbrev pub after : Env → List Read → Progress → Progress
after env rs q = read_chain env rs (progress (handlers_poll q.chan) q.pipe q.next)

-- A state between reads: no handler waits and there is no error.
pub record IsIdle (s : Chan) : Type 0 where
  pub handlers : s.sync_io_handlers ≡ []
  pub err : s.channel_err_code_or_ok ≡ none

pub poll_idle : (s : Chan) → IsIdle s → handlers_poll s ≡ s
unfolding handlers_poll run_tasks
poll_idle s i = ground (arith, i.handlers)

pub set_last-append : (p x : Payload) (xs : List Payload) → set_last p (xs ++ x ∷ []) ≡ xs ++ p ∷ []
unfolding set_last
set_last-append p x [] = refl
set_last-append p x (y ∷ []) = refl
set_last-append p x (y ∷ z ∷ xs) = ap (λ ys. y ∷ ys) (set_last-append p x (z ∷ xs))

abbrev pub with_body : List Payload → MsgIn → MsgIn
with_body segs m = record m { body_reader = some segs }

module _ (env : Env)
    (roomy : (sz : ℕ) (segs : List Payload) → env.reader.alloc sz segs ≡ true) where
  -- A segment that is not the last.
  pub cont_more :
      (r : Read) (left : ℕ) (xs : List Payload) (m : MsgIn) (pipe : MsgInPipe) (s : Chan)
      → IsSegment r
      → IsIdle s
      → m.mdt_reader ≢ none
      → pipe.incomplete_msg ≡ with_body (xs ++ [] ∷ []) m
      → pipe.n_segs_left_after_this_read ≡ suc left
      → on_async_read_continuation_msg env r pipe s
        ≡ progress s
            (record pipe {
              n_segs_left_after_this_read = left;
              incomplete_msg = with_body ((xs ++ r.bytes ∷ []) ++ [] ∷ []) m;
            })
            read_cont_msg
  unfolding on_async_read_continuation_msg handle_async_err_code continue_msg next_target
      add_serialization_segment fill_target
  cont_more r left xs m pipe s g i h e n = ground (
    arith,
    g.err,
    g.hndl,
    g.filled,
    i.err,
    set_last-append r.bytes [] xs,
    roomy (rcv_blob_max_size env pipe.lead_msg_mode) (xs ++ r.bytes ∷ []),
  )

  pub cont_last :
      (r : Read) (xs : List Payload) (m : MsgIn) (pipe : MsgInPipe) (s : Chan)
      → IsSegment r
      → IsIdle s
      → pipe.incomplete_msg ≡ with_body (xs ++ [] ∷ []) m
      → pipe.n_segs_left_after_this_read ≡ 0
      → on_async_read_continuation_msg env r pipe s
        ≡ complete_msg env (with_body (xs ++ r.bytes ∷ []) m) pipe s
  unfolding on_async_read_continuation_msg handle_async_err_code fill_target
  cont_last r xs m pipe s g i e n =
      ground (arith, g.err, g.hndl, g.filled, i.err, set_last-append r.bytes [] xs)
