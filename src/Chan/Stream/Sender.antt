-- ===== src/Chan/Stream/Sender.antt =====
-- Calls of `send` in a row, on a channel that is logged in.
use ipc_transport_structured.Prelude.{
  ◌≡◌, true, false, Option, none, some, List, [], ◌∷◌, arith, length,
}
use ipc_transport_structured.Msg.Mdt.{StructuredMessage, mdt_out}
use ipc_transport_structured.Chan.State.{MsgOut, Env, Chan, increment, logged_in}
use ipc_transport_structured.Chan.Send.{send, send_impl, send_core, conclude_send}

-- The channel when it gave the next id to a message.
abbrev pub numbered : Chan → Chan
numbered s = record s { snd_msg_next_id = increment s.snd_msg_next_id }

module _ (env : Env) where
  -- The messages sent one after another, whatever each call returns.
  unfoldable pub send_each : List MsgOut → Chan → Chan
  send_each [] s = s
  send_each (msg ∷ msgs) s = send_each msgs (send env msg none s).chan

  -- Every call sends its message without an error.
  abbrev pub AllSent : List MsgOut → Chan → Type 0
  AllSent [] s = Unit {0}
  AllSent (msg ∷ msgs) s =
      let r = send env msg none s in (r.returned ≡ true) × (r.err_code ≡ none) × AllSent msgs r.chan

  -- The metadata of a message that answers none.
  abbrev pub plain_mdt : MsgOut → Chan → StructuredMessage
  plain_mdt msg s = mdt_out env.order s.session_token 0 s.snd_msg_next_id (length msg.segments)

  -- A call that sends its message comes as far as `send_core`.
  pub send-send_core :
      (msg : MsgOut) (s : Chan)
      → s.phase ≡ logged_in
      → (send env msg none s).returned ≡ true
      → send env msg none s ≡ send_core env (plain_mdt msg s) (some msg) false (numbered s)
  unfolding send send_impl
  send-send_core msg s l r = ground arith

  pub core-phase :
      (mdt : StructuredMessage) (msg : Option MsgOut) (s : Chan)
      → s.phase ≡ logged_in
      → (send_core env mdt msg false s).chan.phase ≡ logged_in
  unfolding send_core conclude_send
  core-phase mdt msg s l = ground arith
