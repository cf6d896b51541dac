-- ===== src/Chan/Tests/Cached.antt =====
-- Unsolicited messages at a logged-in channel, with and without an expectation.
use ipc_transport_structured.Prelude.{◌≡◌, refl, inl, true, none, List, [], ◌∷◌, All}
use ipc_transport_structured.Prelude.Map.{find}
use ipc_transport_structured.Msg.Mdt.{originating_or_none}
use ipc_transport_structured.Msg.MsgIn.{MsgIn, originating_msg_id_or_none}
use ipc_transport_structured.Chan.State.{Chan}
use ipc_transport_structured.Chan.Init.{new_logged_in}
use ipc_transport_structured.Chan.Dispatch.{is_next_expected}
use ipc_transport_structured.Chan.Receive.{new_msg_in}
use ipc_transport_structured.Chan.Expect.{expect_msgs, expect_msgs_impl}
use ipc_transport_structured.Chan.Order.{dispatch_all}
use ipc_transport_structured.Chan.Pending.{
  Exclusive, IsUnsolicited, is_next_expected-Exclusive, expect_msgs_impl-Exclusive,
}
use ipc_transport_structured.Chan.Pending.Delivery.{IsUp, expect_msgs-dispatch_all}
use ipc_transport_structured.Chan.Verdict.{Verdict}
use ipc_transport_structured.Chan.Verdict.Stages.{new_msg_in-Verdict}
use ipc_transport_structured.Chan.Tests.{env, token, message}

abbrev up : Chan
up = new_logged_in token

abbrev two_messages : List MsgIn
two_messages = message 1 none 5 ∷ message 2 none 5 ∷ []

up-IsUp : IsUp up
unfolding new_logged_in
up-IsUp = record { phase = refl; err = refl; proto = refl }

up-empty : (find 5 up.rcv_expecting_msg_map ≡ none) × (find 5 up.rcv_pending_msgs ≡ none)
unfolding new_logged_in find
up-empty = (refl, refl)

unsolicited : All (IsUnsolicited 5) two_messages
unfolding originating_msg_id_or_none originating_or_none
unsolicited = (record { plain = refl; kind = refl }, (record { plain = refl; kind = refl }, tt))

up-Exclusive : Exclusive up
unfolding new_logged_in find
up-Exclusive = record { apart = λ k. inl refl; filled = λ k e. cc }

expect_msgs-dispatch_all_example :
    let r = expect_msgs 5 4 [] (dispatch_all env two_messages up) in
    (r.returned ≡ true) × (r.qd_msgs ≡ two_messages) × (find 5 r.chan.rcv_pending_msgs ≡ none)
expect_msgs-dispatch_all_example =
    expect_msgs-dispatch_all env 5 4 two_messages up up-IsUp up-empty.0 up-empty.1 unsolicited

is_next_expected-Exclusive_example : Exclusive (is_next_expected env (message 1 none 5) up)
is_next_expected-Exclusive_example =
    is_next_expected-Exclusive env (message 1 none 5) up up-Exclusive

expect_msgs_impl-Exclusive_example :
    Exclusive (expect_msgs_impl true 5 4 [] (is_next_expected env (message 1 none 5) up)).chan
expect_msgs_impl-Exclusive_example =
    expect_msgs_impl-Exclusive true 5 4 [] (is_next_expected env (message 1 none 5) up)
      is_next_expected-Exclusive_example

new_msg_in-Verdict_example : Verdict up (new_msg_in env (message 1 none 5) up)
new_msg_in-Verdict_example = new_msg_in-Verdict env (message 1 none 5) up up-IsUp.proto
