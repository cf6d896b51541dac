-- ===== src/Async/State.antt =====
-- channel.hpp: the data members of `struc::Channel`, what is posted to its thread W, and the calls
-- that the thread makes.
use ipc_transport_structured.Prelude.{
  ℕ, ◌+◌, ◌*◌, ◌/◌, ◌%◌, Option, List, [], ◌∷◌, ◌++◌, ◌==◌, if◌then◌else◌,
}
use ipc_transport_structured.Error.{ErrorCode}
use ipc_transport_structured.Msg.MsgIn.{MsgIn}
use ipc_transport_structured.Chan.State as Core

-- `m_result_if_any`: nothing, an error, or the response.
pub data ResultIfAny : Type 0 where
  nothing : ResultIfAny
  failed : Option ErrorCode → ResultIfAny
  request_result : MsgIn → ResultIfAny

-- `Sync_op_state`; the promise only wakes the waiting thread up.
pub record SyncOpState : Type 0 where
  pub id : ℕ
  pub result_if_any : ResultIfAny

-- The closures that `m_worker.post` is given, with what they capture.
pub data Posted : Type 0 where
  invoke : ℕ → MsgIn → Posted
  invoke_all : ℕ → List MsgIn → Posted
  invoke_unexpected : ℕ → MsgIn → Posted
  invoke_remote_unexpected : ℕ → ℕ → List ℕ → Posted
  invoke_error : ℕ → Option ErrorCode → Posted
  invoke_end_sending : Option ErrorCode → Posted

-- A call of a handler of the user.
pub data Call : Type 0 where
  handler : Core.Event → Call
  end_sending_done : ℕ → Option ErrorCode → Call

-- The members. The mutexes are held for the whole of each operation, so an operation is one step.
pub record Wrapper : Type 0 where
  pub sync_io : Core.Chan
  pub sync_op_state : Option SyncOpState
  pub sync_op_state_id : ℕ
  pub snd_end_sending_on_done_func_or_empty : Option ℕ
  pub worker : List Posted
  pub calls : List Call  -- the calls made of the user's handlers, in order

-- The closures given to the channel below as handlers of messages. A handler is a number there: an
-- even one stands for the closure around a handler of the user, an odd one for the response handler
-- of a blocking request, with the id that it captures.
pub data Closure : Type 0 where
  around : ℕ → Closure
  of_request : ℕ → Closure

abbrev pub encode : Closure → ℕ
encode (around h) = 2 * h
encode (of_request id) = 2 * id + 1

abbrev pub decode : ℕ → Closure
decode n = if n % 2 == 0 then around (n / 2) else of_request (n / 2)

unfoldable pub post : Posted → Wrapper → Wrapper
post p w = record w { worker = w.worker ++ p ∷ [] }

unfoldable pub call : Call → Wrapper → Wrapper
call c w = record w { calls = w.calls ++ c ∷ [] }
