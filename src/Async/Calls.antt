-- ===== src/Async/Calls.antt =====
-- channel.hpp: the constructor and the calls of the user, each with the mutex locked, and the reads
-- that thread W makes when the channel below becomes active.
use ipc_transport_structured.Chan.Start.{Negotiators, Negotiated, on_async_read_proto_neg_msg}
use ipc_transport_structured.Prelude.{
  ℕ, Bool, true, false, Option, none, some, List, [], ◌∷◌, if◌then◌else◌,
}
use ipc_transport_structured.Error.{ErrorCode}
use ipc_transport_structured.Msg.Mdt.{SessionToken}
use ipc_transport_structured.Msg.MsgIn.{MsgIn}
use ipc_transport_structured.Chan.State.{MsgOut, Env, Chan}
use ipc_transport_structured.Chan.Send as CoreSend
use ipc_transport_structured.Chan.Expect as CoreExpect
use ipc_transport_structured.Chan.Start as CoreStart
use ipc_transport_structured.Chan.Pipe.{MsgInPipe, Read, Progress, read_chain}
use ipc_transport_structured.Async.State.{
  invoke, invoke_all, invoke_end_sending, Wrapper, around, of_request, encode, post,
}
use ipc_transport_structured.Async.Worker.{settle}
use ipc_transport_structured.Sync.{Begun, begin_request}

-- The state and the Boolean that is returned.
abbrev returning : Wrapper → Chan × Bool → Wrapper × Bool
returning w (s, b) = (settle s w, b)

-- The constructor, over a channel below that is just constructed; thread W has nothing to do yet.
unfoldable pub new_channel : Env → CoreStart.Negotiators → Chan → Wrapper
new_channel env neg s = record {
  sync_io = (CoreStart.start_ops env neg s).0;
  sync_op_state = none;
  sync_op_state_id = 0;
  snd_end_sending_on_done_func_or_empty = none;
  worker = [];
  calls = [];
}

unfoldable pub start : Env → ℕ → Wrapper → Wrapper × Bool
start env h w = let r = CoreStart.start_and_poll env h w.sync_io in returning w (r.chan, r.returned)

unfoldable pub send : Env → MsgOut → Option MsgIn → Wrapper → Wrapper × Bool × Option ErrorCode
send env msg originating w =
    let o = CoreSend.send env msg originating w.sync_io in (settle o.chan w, o.returned, o.err_code)

unfoldable pub async_request :
    Env → MsgOut → Option MsgIn → Bool → ℕ → Wrapper → Wrapper × Bool × Option ErrorCode
async_request env msg originating one_off h w =
    let o =
      CoreSend.async_request env msg originating
        (record { one_expected = one_off; on_msg_func = encode (around h) }) w.sync_io in
    (settle o.chan w, o.returned, o.err_code)

-- `sync_request` up to its wait.
unfoldable pub begin_sync_request : Env → MsgOut → Option MsgIn → Wrapper → Begun
begin_sync_request env msg originating w =
    begin_request env (λ id. encode (of_request id)) msg originating w

-- After an expectation of one message: one that is there already is posted.
abbrev pub one_expected : ℕ → Wrapper → Chan × Bool × Option MsgIn → Wrapper × Bool
one_expected h w (s, false, qd_msg) = (settle s w, false)
one_expected h w (s, true, none) = (settle s w, true)
one_expected h w (s, true, some m) = (post (invoke h m) (settle s w), true)

-- `expect_msg_impl`, for the two calls that expect one message.
unfoldable pub expect_msg_impl : Bool → ℕ → ℕ → Wrapper → Wrapper × Bool
expect_msg_impl msg_else_log_in which h w = one_expected h w (
    if msg_else_log_in
    then CoreExpect.expect_msg which (encode (around h)) none w.sync_io
    else CoreExpect.expect_log_in_request which (encode (around h)) none w.sync_io)

-- All that are there already are posted together.
abbrev pub many_expected : ℕ → Wrapper → Bool → List MsgIn → Wrapper × Bool
many_expected h w false qd_msgs = (w, false)
many_expected h w true [] = (w, true)
many_expected h w true (m ∷ ms) = (post (invoke_all h (m ∷ ms)) w, true)

unfoldable pub expect_msgs : ℕ → ℕ → Wrapper → Wrapper × Bool
expect_msgs which h w =
    let r = CoreExpect.expect_msgs which (encode (around h)) [] w.sync_io in
    many_expected h (settle r.chan w) r.returned r.qd_msgs

unfoldable pub undo_expect_msgs : ℕ → Wrapper → Wrapper × Bool
undo_expect_msgs which w = returning w (CoreExpect.undo_expect_msgs which w.sync_io)

unfoldable pub undo_expect_responses : ℕ → Wrapper → Wrapper × Bool
undo_expect_responses id w = returning w (CoreExpect.undo_expect_responses id w.sync_io)

unfoldable pub set_unexpected_response_handler : ℕ → Wrapper → Wrapper × Bool
set_unexpected_response_handler h w =
    returning w (CoreExpect.set_unexpected_response_handler h w.sync_io)

unfoldable pub unset_unexpected_response_handler : Wrapper → Wrapper × Bool
unset_unexpected_response_handler w =
    returning w (CoreExpect.unset_unexpected_response_handler w.sync_io)

unfoldable pub set_remote_unexpected_response_handler : ℕ → Wrapper → Wrapper × Bool
set_remote_unexpected_response_handler h w =
    returning w (CoreExpect.set_remote_unexpected_response_handler h w.sync_io)

unfoldable pub unset_remote_unexpected_response_handler : Wrapper → Wrapper × Bool
unset_remote_unexpected_response_handler w =
    returning w (CoreExpect.unset_remote_unexpected_response_handler w.sync_io)

unfoldable pub session_token : Wrapper → SessionToken
session_token w = CoreExpect.session_token w.sync_io

-- The answer of the owned channel to `async_end_sending`: it refuses a second call, it will complete
-- later, or it is done, with an error or none.
pub data EndAnswer : Type 0 where
  refused would_block : EndAnswer
  completed : Option ErrorCode → EndAnswer

-- The channel below refuses the call before `start_ops`, and forwards it afterwards.
unfoldable pub core_end_sending : EndAnswer → Chan → EndAnswer
core_end_sending answer s = if s.started_ops then answer else refused

-- What the call does with the answer of the channel below.
abbrev pub conclude_end_sending : EndAnswer → Wrapper → Wrapper × Bool
conclude_end_sending refused w = (record w { snd_end_sending_on_done_func_or_empty = none }, false)
conclude_end_sending would_block w = (w, true)
conclude_end_sending (completed e) w = (post (invoke_end_sending e) w, true)

-- A completion handler that is saved already makes it a second call.
abbrev pub begin_end_sending : Option ℕ → EndAnswer → ℕ → Wrapper → Wrapper × Bool
begin_end_sending (some _) answer h w = (w, false)
begin_end_sending none answer h w =
    conclude_end_sending (core_end_sending answer w.sync_io)
      (record w { snd_end_sending_on_done_func_or_empty = some h })

unfoldable pub async_end_sending : EndAnswer → ℕ → Wrapper → Wrapper × Bool
async_end_sending answer h w = begin_end_sending w.snd_end_sending_on_done_func_or_empty answer h w

-- The owned channel completes the end of sending that would have blocked.
unfoldable pub on_end_sending : Option ErrorCode → Wrapper → Wrapper
on_end_sending e w = post (invoke_end_sending e) w

-- A pipe becomes readable, with what its receives then yield: `(*on_active_ev_func)()`. The pipe's
-- own state goes on from there.
unfoldable pub on_active_ev : Env → List Read → Progress → Wrapper → Wrapper × Progress
on_active_ev env reads p w =
    let q = read_chain env reads (record p { chan = w.sync_io }) in (settle q.chan w, q)

-- The same for a pipe whose next message is that of the negotiation.
unfoldable pub on_active_ev_proto_neg :
    Negotiators → Read → MsgInPipe → Negotiated → Wrapper → Wrapper × Negotiated × Progress
on_active_ev_proto_neg neg r pipe g w =
    let (g', q) = on_async_read_proto_neg_msg neg r pipe (g, w.sync_io) in (settle q.chan w, g', q)
