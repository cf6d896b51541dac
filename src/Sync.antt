-- ===== src/Sync.antt =====
-- channel.hpp, the channel with a thread of its own: the blocking request, `sync_request`, with the
-- two handlers that can end its wait.
pub mod Race
mod Tests
use ipc_transport_structured.Prelude.{
  ℕ, ◌+◌, ◌%◌, ◌^◌, Bool, true, false, not, ◌||◌, Option, none, some, List, [], ◌∷◌, ◌++◌, ◌==◌,
  if◌then◌else◌, is_some,
}
use ipc_transport_structured.Error.{ErrorCode, timeout}
use ipc_transport_structured.Msg.MsgIn.{MsgIn}
use ipc_transport_structured.Chan.State as Core
use ipc_transport_structured.Chan.State.{MsgOut, Env, Expecting, Chan}
use ipc_transport_structured.Chan.Send.{Outcome, async_request}
use ipc_transport_structured.Async.State.{
  ResultIfAny, nothing, failed, request_result, SyncOpState, handler, Wrapper, call,
}

abbrev pub is_failed : ResultIfAny → Bool
is_failed (failed e) = true
is_failed _ = false

-- The handler of the response, which captures the id of its request.
unfoldable pub on_response : ℕ → MsgIn → Wrapper → Wrapper
on_response id m w = elim w.sync_op_state [
  | none ↦ w
  | some op ↦
      if not (op.id == id) || is_failed op.result_if_any
      then w
      else record w { sync_op_state = some (record op { result_if_any = request_result m }) }
]

abbrev tell : ℕ → Option ErrorCode → Wrapper → Wrapper
tell h e w = call (handler (Core.on_error h e)) w

-- What the error handler that `start` gives to the channel below posts to the thread.
unfoldable pub on_error : ℕ → Option ErrorCode → Wrapper → Wrapper
unfolding call
on_error h e w = elim w.sync_op_state [
  | none ↦ tell h e w
  | some op ↦ elim op.result_if_any [
    | nothing ↦ record w { sync_op_state = some (record op { result_if_any = failed e }) }
    | _ ↦ tell h e w
  ]
]

-- What can happen while the request waits with the mutex unlocked.
pub data Event : Type 0 where
  responds : ℕ → MsgIn → Event
  fails : ℕ → Option ErrorCode → Event
  moves : Chan → Event  -- any other call or read of the channel below

unfoldable pub happens : Event → Wrapper → Wrapper
happens (responds id m) w = on_response id m w
happens (fails h e) w = on_error h e w
happens (moves s) w = record w { sync_io = s }

unfoldable pub all_happen : List Event → Wrapper → Wrapper
all_happen [] w = w
all_happen (x ∷ xs) w = all_happen xs (happens x w)

-- `sync_request` up to the wait: the wrapper, whether it waits, and `*err_code`. `closure` numbers the
-- response handlers by the ids that they capture.
pub record Begun : Type 0 where
  pub wrapper : Wrapper
  pub waits : Bool
  pub err_code : Option ErrorCode

module _ (env : Env) (closure : ℕ → ℕ) where
  unfoldable pub begin_request : MsgOut → Option MsgIn → Wrapper → Begun
  begin_request msg originating w =
      let id = w.sync_op_state_id in
      let o =
        async_request env msg originating (record { one_expected = true; on_msg_func = closure id })
          w.sync_io in
      let w1 : Wrapper = record w { sync_io = o.chan; sync_op_state_id = (id + 1) % 2 ^ 32 } in
      if not o.returned || is_some o.err_code
      then record {
        wrapper = record w1 { sync_op_state = none };
        waits = false;
        err_code = if o.returned then o.err_code else none;
      }
      else record {
        wrapper = record w1 { sync_op_state = some (record { id = id; result_if_any = nothing }) };
        waits = true;
        err_code = none;
      }

-- The response and `*err_code`.
abbrev pub answer_of : ResultIfAny → Option MsgIn × Option ErrorCode
answer_of nothing = (none, some timeout)
answer_of (failed e) = (none, e)
answer_of (request_result m) = (some m, none)

-- `sync_request` after the wait. The state is there, by an assertion of the source.
unfoldable pub end_request : Wrapper → Wrapper × Option MsgIn × Option ErrorCode
end_request w = elim w.sync_op_state [
  | none ↦ (w, none, none)
  | some op ↦ (
    record w { sync_op_state = none },
    (answer_of op.result_if_any).0,
    (answer_of op.result_if_any).1,
  )
]

-- The whole of `sync_request`, with what happens while it waits.
unfoldable pub sync_request :
    Env
    → (ℕ → ℕ)
    → MsgOut
    → Option MsgIn
    → List Event
    → Wrapper
    → Wrapper × Option MsgIn × Option ErrorCode
sync_request env closure msg originating xs w =
    let b = begin_request env closure msg originating w in
    if b.waits then end_request (all_happen xs b.wrapper) else (b.wrapper, none, b.err_code)
