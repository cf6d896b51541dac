-- ===== src/Async/Actions.antt =====
-- channel.hpp: everything that can happen to the channel, one operation at a time. The mutex makes
-- each an atomic step, whichever threads the user calls from and whatever thread W does in between.
use ipc_transport_structured.Chan.Start.{Negotiators, Negotiated}
use ipc_transport_structured.Prelude.{ℕ, Bool, Option, List, [], ◌∷◌}
use ipc_transport_structured.Error.{ErrorCode}
use ipc_transport_structured.Msg.MsgIn.{MsgIn}
use ipc_transport_structured.Chan.State.{MsgOut, Env}
use ipc_transport_structured.Chan.Pipe.{MsgInPipe, Read, Progress}
use ipc_transport_structured.Async.State.{Wrapper}
use ipc_transport_structured.Async.Worker.{run_next}
use ipc_transport_structured.Async.Calls
use ipc_transport_structured.Async.Calls.{EndAnswer}
use ipc_transport_structured.Sync.{end_request}

pub data Action : Type 0 where
  starts : ℕ → Action
  sends : MsgOut → Option MsgIn → Action
  requests : MsgOut → Option MsgIn → Bool → ℕ → Action
  begins_request : MsgOut → Option MsgIn → Action
  ends_request : Action
  expects_one : Bool → ℕ → ℕ → Action
  expects : ℕ → ℕ → Action
  forgets_msgs : ℕ → Action
  forgets_responses : ℕ → Action
  sets_unexpected : ℕ → Action
  unsets_unexpected : Action
  sets_remote : ℕ → Action
  unsets_remote : Action
  ends_sending : EndAnswer → ℕ → Action
  sending_ended : Option ErrorCode → Action
  becomes_active : List Read → Progress → Action
  reads_negotiation : Negotiators → Read → MsgInPipe → Negotiated → Action
  runs_next : Action  -- of thread W

module _ (env : Env) where
  unfoldable pub perform : Action → Wrapper → Wrapper
  perform (starts h) w = (Calls.start env h w).0
  perform (sends msg originating) w = (Calls.send env msg originating w).0
  perform (requests msg originating one_off h) w =
      (Calls.async_request env msg originating one_off h w).0
  perform (begins_request msg originating) w =
      (Calls.begin_sync_request env msg originating w).wrapper
  perform ends_request w = (end_request w).0
  perform (expects_one msg_else_log_in which h) w =
      (Calls.expect_msg_impl msg_else_log_in which h w).0
  perform (expects which h) w = (Calls.expect_msgs which h w).0
  perform (forgets_msgs which) w = (Calls.undo_expect_msgs which w).0
  perform (forgets_responses id) w = (Calls.undo_expect_responses id w).0
  perform (sets_unexpected h) w = (Calls.set_unexpected_response_handler h w).0
  perform unsets_unexpected w = (Calls.unset_unexpected_response_handler w).0
  perform (sets_remote h) w = (Calls.set_remote_unexpected_response_handler h w).0
  perform unsets_remote w = (Calls.unset_remote_unexpected_response_handler w).0
  perform (ends_sending answer h) w = (Calls.async_end_sending answer h w).0
  perform (sending_ended e) w = Calls.on_end_sending e w
  perform (becomes_active reads p) w = (Calls.on_active_ev env reads p w).0
  perform (reads_negotiation neg r pipe g) w = (Calls.on_active_ev_proto_neg neg r pipe g w).0
  perform runs_next w = run_next w

  unfoldable pub perform_all : List Action → Wrapper → Wrapper
  perform_all [] w = w
  perform_all (a ∷ rest) w = perform_all rest (perform a w)
