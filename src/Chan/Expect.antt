-- ===== src/Chan/Expect.antt =====
-- Expectations: `expect_msg`, `expect_msgs`, `expect_log_in_request`, their undoing, the handlers of
-- unexpected responses, and the session token.
use ipc_transport_structured.Prelude.{
  ℕ, Bool, true, false, not, ◌&&◌, ◌||◌, Option, none, some, List, [], ◌∷◌, is_empty, if◌then◌else◌,
  is_some,
}
use ipc_transport_structured.Prelude.Map.{find, erase, emplace, assign}
use ipc_transport_structured.Error.{struc, got_unexpected_log_in_request}
use ipc_transport_structured.Msg.Mdt.{SessionToken, nil_token}
use ipc_transport_structured.Msg.MsgIn.{MsgIn}
use ipc_transport_structured.Chan.State.{
  Phase, logged_in, srv_log_in, cli_log_in, is_logged_in, is_srv_log_in, Chan,
}
use ipc_transport_structured.Chan.Handlers.{handle_new_error}

-- The state, the Boolean returned, and `*qd_msgs` afterwards.
pub record Expected : Type 0 where
  pub chan : Chan
  pub returned : Bool
  pub qd_msgs : List MsgIn

abbrev pub expected : Chan → Bool → List MsgIn → Expected
expected s b qd = record { chan = s; returned = b; qd_msgs = qd }

-- The messages cached under `which` meet the new expectation. An empty queue is never cached.
unfoldable pub take_pending : Bool → ℕ → List MsgIn → Chan → Expected
take_pending true which [] s = expected s true []
take_pending true which (m ∷ []) s =
    expected
      (record s {
        rcv_pending_msgs = erase which s.rcv_pending_msgs;
        rcv_expecting_msg_map = erase which s.rcv_expecting_msg_map;
      })
      true (m ∷ [])
take_pending true which (m ∷ n ∷ rest) s =
    expected
      (record s {
        rcv_pending_msgs = assign which (n ∷ rest) s.rcv_pending_msgs;
        rcv_expecting_msg_map = erase which s.rcv_expecting_msg_map;
      })
      true (m ∷ [])
take_pending false which q s =
    expected (record s { rcv_pending_msgs = erase which s.rcv_pending_msgs }) true q

unfoldable pub expect_msgs_impl : Bool → ℕ → ℕ → List MsgIn → Chan → Expected
expect_msgs_impl one_off which h qd s =
    if is_some (find which s.rcv_expecting_msg_map)
    then expected s false qd
    else let s1 : Chan = record s {
      rcv_expecting_msg_map =
          emplace which (record { one_expected = one_off; on_msg_func = h })
            s.rcv_expecting_msg_map;
    } in
      elim (find which s.rcv_pending_msgs) [
        | none ↦
            if not (is_logged_in s.phase) && not (is_empty s.rcv_pending_msgs)
            then expected (handle_new_error (some (struc got_unexpected_log_in_request)) s1) false
                qd
            else expected s1 true qd
        | some q ↦ take_pending one_off which q s1
      ]

abbrev pub same_phase : Phase → Phase → Bool
same_phase logged_in p = is_logged_in p
same_phase srv_log_in p = is_srv_log_in p
same_phase cli_log_in p = not (is_logged_in p) && not (is_srv_log_in p)

-- `true` means that the call is refused.
unfoldable pub check_phase_and_prior_error : Phase → Chan → Bool
check_phase_and_prior_error required s =
    is_some s.channel_err_code_or_ok || not (same_phase required s.phase)

-- `*qd_msg` after a call that expects one message.
abbrev first_ready : Bool → List MsgIn → Option MsgIn
first_ready true (m ∷ ms) = some m
first_ready _ _ = none

-- The third part is `*qd_msg`; a refused call leaves it as the caller had it.
abbrev pub one_msg : Expected → Chan × Bool × Option MsgIn
one_msg r = (r.chan, r.returned, first_ready r.returned r.qd_msgs)

unfoldable pub expect_msg : ℕ → ℕ → Option MsgIn → Chan → Chan × Bool × Option MsgIn
expect_msg which h qd s =
    if check_phase_and_prior_error logged_in s
    then (s, false, qd)
    else one_msg (expect_msgs_impl true which h [] s)

unfoldable pub expect_msgs : ℕ → ℕ → List MsgIn → Chan → Expected
expect_msgs which h qd s =
    if check_phase_and_prior_error logged_in s
    then expected s false qd
    else expect_msgs_impl false which h qd s

unfoldable pub expect_log_in_request : ℕ → ℕ → Option MsgIn → Chan → Chan × Bool × Option MsgIn
expect_log_in_request which h qd s =
    if check_phase_and_prior_error srv_log_in s
    then (s, false, qd)
    else if s.phase_log_in_started
    then (s, false, qd)
    else one_msg (expect_msgs_impl true which h [] (record s { phase_log_in_started = true }))

unfoldable pub undo_expect_msgs : ℕ → Chan → Chan × Bool
undo_expect_msgs which s = if check_phase_and_prior_error logged_in s then (s, false) else (
  record s { rcv_expecting_msg_map = erase which s.rcv_expecting_msg_map },
  is_some (find which s.rcv_expecting_msg_map),
)

unfoldable pub undo_expect_responses : ℕ → Chan → Chan × Bool
undo_expect_responses id s = if check_phase_and_prior_error logged_in s then (s, false) else (
  record s { rcv_expecting_response_map = erase id s.rcv_expecting_response_map },
  is_some (find id s.rcv_expecting_response_map),
)

unfoldable pub set_unexpected_response_handler : ℕ → Chan → Chan × Bool
set_unexpected_response_handler h s = elim s.on_unexpected_response_func [
  | some _ ↦ (s, false)
  | none ↦ (record s { on_unexpected_response_func = some h }, true)
]

unfoldable pub unset_unexpected_response_handler : Chan → Chan × Bool
unset_unexpected_response_handler s = elim s.on_unexpected_response_func [
  | none ↦ (s, false)
  | some _ ↦ (record s { on_unexpected_response_func = none }, true)
]

unfoldable pub set_remote_unexpected_response_handler : ℕ → Chan → Chan × Bool
set_remote_unexpected_response_handler h s = elim s.on_remote_unexpected_response_func [
  | some _ ↦ (s, false)
  | none ↦ (record s { on_remote_unexpected_response_func = some h }, true)
]

unfoldable pub unset_remote_unexpected_response_handler : Chan → Chan × Bool
unset_remote_unexpected_response_handler s = elim s.on_remote_unexpected_response_func [
  | none ↦ (s, false)
  | some _ ↦ (record s { on_remote_unexpected_response_func = none }, true)
]

unfoldable pub session_token : Chan → SessionToken
session_token s = if check_phase_and_prior_error logged_in s then nil_token else s.session_token
