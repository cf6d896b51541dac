-- ===== src/Chan/Dispatch.antt =====
-- An in-message that is next in sequence: `rcv_struct_new_msg_in_is_next_expected` and the notice of
-- an unexpected response.
use ipc_transport_structured.Prelude.{
  ℕ, true, Option, none, some, List, [], ◌∷◌, ◌++◌, ◌==◌, if◌then◌else◌, is_some,
}
use ipc_transport_structured.Prelude.Map.{Map, find, erase, assign}
use ipc_transport_structured.Msg.Mdt.{StructuredMessage, mdt_out, set_unexpected_response}
use ipc_transport_structured.Msg.MsgIn.{MsgIn, id_or_none, originating_msg_id_or_none}
use ipc_transport_structured.Chan.State.{Env, deliver, unexpected_response, Chan}
use ipc_transport_structured.Chan.Handlers.{handlers_post}
use ipc_transport_structured.Chan.Send.{send_core}

abbrev pub queue_of : Option (List MsgIn) → List MsgIn
queue_of none = []
queue_of (some q) = q

module _ (env : Env) where
  -- The notice for the other side, in answer to the message `m`.
  unfoldable pub unexpected_response_mdt : Chan → MsgIn → StructuredMessage
  unexpected_response_mdt s m =
      set_unexpected_response (env.mdt_text m.body_which m.mdt_root)
        (mdt_out env.order s.session_token (id_or_none m) 0 0)

  -- Errors of this send are ignored, and it is not tried on a hosed channel.
  unfoldable pub inform_of_unexpected_response : MsgIn → Chan → Chan
  inform_of_unexpected_response m s = handlers_post (unexpected_response m) (
      if is_some s.channel_err_code_or_ok
      then s
      else (send_core env (unexpected_response_mdt s m) none true s).chan)

  unfoldable pub next_response : ℕ → MsgIn → Chan → Chan
  next_response originating m s = elim (find originating s.rcv_expecting_response_map) [
    | none ↦ inform_of_unexpected_response m s
    | some e ↦
        let s' = handlers_post (deliver e.on_msg_func m) s in
        if e.one_expected
        then record s' {
          rcv_expecting_response_map = erase originating s.rcv_expecting_response_map;
        }
        else s'
  ]

  -- Queue the message that nobody expects yet.
  abbrev pub pend : ℕ → MsgIn → Map (List MsgIn) → Map (List MsgIn)
  pend which m pending = assign which (queue_of (find which pending) ++ m ∷ []) pending

  unfoldable pub next_unsolicited : ℕ → MsgIn → Chan → Chan
  next_unsolicited which m s = elim (find which s.rcv_expecting_msg_map) [
    | none ↦ record s { rcv_pending_msgs = pend which m s.rcv_pending_msgs }
    | some e ↦
        let s' = handlers_post (deliver e.on_msg_func m) s in
        if e.one_expected
        then record s' { rcv_expecting_msg_map = erase which s.rcv_expecting_msg_map }
        else s'
  ]

  -- The source returns `true` on every path, so the Boolean is left out.
  unfoldable pub is_next_expected : MsgIn → Chan → Chan
  is_next_expected m s =
      if originating_msg_id_or_none m == 0
      then next_unsolicited m.body_which m s
      else next_response (originating_msg_id_or_none m) m s
