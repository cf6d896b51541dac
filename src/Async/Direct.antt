-- ===== src/Async/Direct.antt =====
-- What the channel of channel.hpp promises on the handlers of messages: they are called as if there
-- were no thread, at once, whenever the channel below calls for them or hands over a message.
pub mod Thread
pub mod Refines
use ipc_transport_structured.Chan.Start.{Negotiators, Negotiated, on_async_read_proto_neg_msg}
use ipc_transport_structured.Prelude.{
  ℕ, ◌+◌, ◌%◌, ◌^◌, Bool, true, false, Option, none, some, List, [], ◌∷◌, ◌++◌, map, if◌then◌else◌,
}
use ipc_transport_structured.Msg.MsgIn.{MsgIn}
use ipc_transport_structured.Chan.State.{
  Env, Chan, Event, on_msg, on_unexpected_response, on_remote_unexpected_response, on_error,
}
use ipc_transport_structured.Chan.Send as Send
use ipc_transport_structured.Chan.Expect as Expect
use ipc_transport_structured.Chan.Start as Start
use ipc_transport_structured.Chan.Pipe.{read_chain}
use ipc_transport_structured.Async.State.{Closure, around, of_request, encode, decode}
use ipc_transport_structured.Async.Actions.{
  Action, starts, sends, requests, begins_request, ends_request, expects_one, expects, forgets_msgs,
  forgets_responses, sets_unexpected, unsets_unexpected, sets_remote, unsets_remote, ends_sending,
  sending_ended, becomes_active, reads_negotiation, runs_next,
}

-- The channel below, the id of the next blocking request, and the calls of the handlers of messages.
pub record Direct : Type 0 where
  pub core : Chan
  pub next_request : ℕ
  pub heard : List Event

-- Of the messages that the channel below delivers, the user's handlers get all but the responses to
-- blocking requests.
abbrev pub heard_by : Closure → MsgIn → List Event
heard_by (around h) m = on_msg h m ∷ []
heard_by (of_request id) m = []

-- Errors are not messages, and are left out.
unfoldable pub hear : List Event → List Event
hear [] = []
hear (on_msg n m ∷ es) = heard_by (decode n) m ++ hear es
hear (on_unexpected_response h m ∷ es) = on_unexpected_response h m ∷ hear es
hear (on_remote_unexpected_response h id text ∷ es) =
    on_remote_unexpected_response h id text ∷ hear es
hear (on_error h e ∷ es) = hear es

unfoldable pub becomes : Chan → Direct → Direct
becomes s d = record d { core = record s { events = [] }; heard = d.heard ++ hear s.events }

unfoldable pub given : ℕ → List MsgIn → Direct → Direct
given h ms d = record d { heard = d.heard ++ map (on_msg h) ms }

abbrev pub given_one : ℕ → Chan × Bool × Option MsgIn → Direct → Direct
given_one h (s, false, qd_msg) d = becomes s d
given_one h (s, true, none) d = becomes s d
given_one h (s, true, some m) d = given h (m ∷ []) (becomes s d)

abbrev pub given_many : ℕ → Bool → List MsgIn → Direct → Direct
given_many h false ms d = d
given_many h true ms d = given h ms d

module _ (env : Env) where
  unfoldable pub direct : Action → Direct → Direct
  direct (starts h) d = becomes (Start.start_and_poll env h d.core).chan d
  direct (sends msg originating) d = becomes (Send.send env msg originating d.core).chan d
  direct (requests msg originating one_off h) d =
      becomes
        (Send.async_request env msg originating
          (record { one_expected = one_off; on_msg_func = encode (around h) }) d.core).chan
        d
  direct (begins_request msg originating) d = record d {
    core =
        (Send.async_request env msg originating
          (record { one_expected = true; on_msg_func = encode (of_request d.next_request) })
          d.core).chan;
    next_request = (d.next_request + 1) % 2 ^ 32;
  }
  direct ends_request d = d
  direct (expects_one msg_else_log_in which h) d =
      given_one h
        (if msg_else_log_in
          then Expect.expect_msg which (encode (around h)) none d.core
          else Expect.expect_log_in_request which (encode (around h)) none d.core)
        d
  direct (expects which h) d =
      let r = Expect.expect_msgs which (encode (around h)) [] d.core in
      given_many h r.returned r.qd_msgs (becomes r.chan d)
  direct (forgets_msgs which) d = becomes (Expect.undo_expect_msgs which d.core).0 d
  direct (forgets_responses id) d = becomes (Expect.undo_expect_responses id d.core).0 d
  direct (sets_unexpected h) d = becomes (Expect.set_unexpected_response_handler h d.core).0 d
  direct unsets_unexpected d = becomes (Expect.unset_unexpected_response_handler d.core).0 d
  direct (sets_remote h) d = becomes (Expect.set_remote_unexpected_response_handler h d.core).0 d
  direct unsets_remote d = becomes (Expect.unset_remote_unexpected_response_handler d.core).0 d
  direct (ends_sending answer h) d = d
  direct (sending_ended e) d = d
  direct (becomes_active reads p) d =
      becomes (read_chain env reads (record p { chan = d.core })).chan d
  direct (reads_negotiation neg r pipe g) d =
      becomes (on_async_read_proto_neg_msg neg r pipe (g, d.core)).1.chan d
  direct runs_next d = d

  unfoldable pub direct_all : List Action → Direct → Direct
  direct_all [] d = d
  direct_all (a ∷ rest) d = direct_all rest (direct a d)
