-- ===== src/Chan/Sending/Stale.antt =====
-- What a refusal in the log-in phase leaves in the table of expected responses.
use ipc_transport_structured.Prelude.{ap, length, ◌≡◌, ◌∙◌, Bool, false, Option, none, some, arith}
use ipc_transport_structured.Prelude.Map.{find, emplace, find-emplace}
use ipc_transport_structured.Msg.Mdt.{StructuredMessage, mdt_out}
use ipc_transport_structured.Msg.MsgIn.{MsgIn, id_or_none}
use ipc_transport_structured.Chan.State.{MsgOut, Env, Expecting, Chan, srv_log_in, increment}
use ipc_transport_structured.Chan.Send.{send_core, conclude_send, send_impl, register}

module _ (env : Env) where
  core_map :
      (mdt : StructuredMessage) (msg : Option MsgOut) (ignore : Bool) (s : Chan)
      → (send_core env mdt msg ignore s).chan.rcv_expecting_response_map
        ≡ s.rcv_expecting_response_map
  unfolding send_core conclude_send
  core_map mdt msg ignore s = ground arith

  impl_map :
      (msg : MsgOut) (originating : MsgIn) (on_rsp : Expecting) (s : Chan)
      → s.phase ≡ srv_log_in
      → s.snd_msg_next_id ≡ 1
      → (send_impl env msg (some originating) (some on_rsp) s).chan.rcv_expecting_response_map
        ≡ emplace 1 on_rsp s.rcv_expecting_response_map
  unfolding send_impl
  impl_map msg originating on_rsp s p i = ground (
    arith,
    p,
    i,
    core_map
        (mdt_out env.order s.session_token (id_or_none originating) s.snd_msg_next_id
          (length msg.segments))
        (some msg) false
        (register s.snd_msg_next_id (some on_rsp)
          (record s { snd_msg_next_id = increment s.snd_msg_next_id })),
  )

  impl_refused :
      (msg : MsgOut) (on_rsp : Expecting) (s : Chan)
      → s.phase ≡ srv_log_in
      → s.snd_msg_next_id ≡ 1
      → let r = send_impl env msg none (some on_rsp) s in
        (r.returned ≡ false)
        × (r.chan.snd_msg_next_id ≡ 1)
        × (r.chan.phase ≡ srv_log_in)
        × (r.chan.rcv_expecting_response_map ≡ emplace 1 on_rsp s.rcv_expecting_response_map)
  unfolding send_impl
  impl_refused msg on_rsp s p i = ground (arith, p, i)

  -- A server that in its log-in asks for a response to a message that answers none is refused, yet
  -- the handler stays registered under the id that the next message gets: the retry that answers the
  -- log-in request goes out with a handler of its own, and the one that awaits the response is the
  -- handler of the refused call.
  pub send_impl-stale :
      (msg retry : MsgOut) (originating : MsgIn) (h g : Expecting) (s : Chan)
      → s.phase ≡ srv_log_in
      → s.snd_msg_next_id ≡ 1
      → find 1 s.rcv_expecting_response_map ≡ none
      → let r = send_impl env msg none (some h) s in
        (r.returned ≡ false)
        × (r.chan.snd_msg_next_id ≡ 1)
        × (find 1
              (send_impl env retry
                (some originating)
                (some g)
                r.chan).chan.rcv_expecting_response_map
            ≡ some h)
  send_impl-stale msg retry originating h g s p i f =
      let r = send_impl env msg none (some h) s in
      let (refused, same, phase, left) = impl_refused msg h s p i in
      let once = find-emplace 1 1 h s.rcv_expecting_response_map in
      let twice = find-emplace 1 1 g r.chan.rcv_expecting_response_map in
      (
        refused,
        same,
        ap (find 1) (impl_map retry originating g r.chan phase same)
            ∙ ground (arith, once, twice, left, f),
      )
