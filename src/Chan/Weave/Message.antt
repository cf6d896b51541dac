-- ===== src/Chan/Weave/Message.antt =====
-- The payloads of one message, among the reads of a pipe.
use ipc_transport_structured.Prelude.{
  ℕ, ◌≡◌, ◌≢◌, refl, ap, ◌∙◌, Bool, true, false, none, some, List, [], ◌∷◌, ◌++◌, arith, All, map,
  length, subst,
}
use ipc_transport_structured.Error.{ok}
use ipc_transport_structured.Msg.MsgIn.{Payload, MsgIn, new_msg_in, deserialize_mdt}
use ipc_transport_structured.Chan.State.{Env, Chan}
use ipc_transport_structured.Chan.Handlers.{handlers_poll}
use ipc_transport_structured.Chan.Receive.{new_msg_in as rcv_struct_new_msg_in}
use ipc_transport_structured.Chan.Pipe.{
  MsgInPipe, read_lead_msg, read_cont_msg, Read, progress, complete_msg, fed, read_chain,
}
use ipc_transport_structured.Chan.Framing.{
  IsSegment, after, poll_idle, with_body, cont_more, cont_last,
}
use ipc_transport_structured.Chan.Framing.Message.{
  IsLead, head_of, completed, bytes_of, lead_more, lead_whole, mdt_keeps,
}
use ipc_transport_structured.Chan.Stream.{waiting, next_target-waiting}
use ipc_transport_structured.Chan.Weave.Pipes.{Feeds, part, whole}
use mathlib.Core.List.{append_assoc}

module _ (env : Env)
    (roomy : (sz : ℕ) (segs : List Payload) → env.reader.alloc sz segs ≡ true) where
  fed-true :
      (pipe : MsgInPipe) (v : Chan × Bool)
      → v.1 ≡ true
      → after env [] (fed env pipe v) ≡ progress (handlers_poll v.0) (waiting pipe) read_lead_msg
  unfolding read_chain
  fed-true pipe (s, true) e = ap (after env []) (next_target-waiting env 0 0 roomy pipe s)
  fed-true pipe (s, false) e = absurd (ground arith)

  complete_msg-waiting :
      (m : MsgIn) (pipe : MsgInPipe) (s : Chan)
      → (rcv_struct_new_msg_in env m s).1 ≡ true
      → after env [] (complete_msg env m pipe s)
        ≡ progress (handlers_poll (rcv_struct_new_msg_in env m s).0) (waiting pipe) read_lead_msg
  unfolding complete_msg
  complete_msg-waiting m pipe s e = fed-true pipe (rcv_struct_new_msg_in env m s) e

  conts-Feeds :
      (r : Read) (rs more : List Read) (xs : List Payload) (m : MsgIn) (pipe : MsgInPipe)
      (ms : List MsgIn)
      → All IsSegment (r ∷ rs)
      → m.mdt_reader ≢ none
      → pipe.incomplete_msg ≡ with_body (xs ++ [] ∷ []) m
      → pipe.n_segs_left_after_this_read ≡ length rs
      → ((last : MsgInPipe)
          → last.lead_msg_mode ≡ pipe.lead_msg_mode
          → Feeds env (waiting last) read_lead_msg more ms)
      → Feeds env pipe read_cont_msg
          ((r ∷ rs) ++ more)
          (with_body (xs ++ map bytes_of (r ∷ rs)) m ∷ ms)
  unfolding read_chain
  conts-Feeds r [] more xs m pipe ms g h e n f =
      whole (with_body (xs ++ r.bytes ∷ []) m) ms pipe
        (λ s i a.
          ap (after env []) (cont_last env roomy r xs m pipe s g.0 i e n)
          ∙ complete_msg-waiting (with_body (xs ++ r.bytes ∷ []) m) pipe s a)
        (f pipe refl)
  conts-Feeds r (r' ∷ rs) more xs m pipe ms g h e n f =
      let pipe' : MsgInPipe = record pipe {
        n_segs_left_after_this_read = length rs;
        incomplete_msg = with_body ((xs ++ r.bytes ∷ []) ++ [] ∷ []) m;
      } in
      let rest = conts-Feeds r' rs more (xs ++ r.bytes ∷ []) m pipe' ms g.1 h refl refl f in
      subst (λ ys. Feeds env pipe read_cont_msg ((r ∷ r' ∷ rs) ++ more) (with_body ys m ∷ ms))
        (append_assoc xs (r.bytes ∷ []) (map bytes_of (r' ∷ rs)))
        (part pipe' read_cont_msg
          (λ s i.
            ap (after env []) (cont_more env roomy r (length rs) xs m pipe s g.0 i h e n)
            ∙ ap (λ t. progress t pipe' read_cont_msg) (poll_idle s i))
          rest)

  -- A metadata payload and the segments that it announces feed one message to the channel.
  pub message-Feeds :
      (lead : Read) (rs more : List Read) (m : MsgIn) (pipe : MsgInPipe) (ms : List MsgIn)
      → IsLead lead pipe
      → All IsSegment rs
      → deserialize_mdt env.reader env.order (head_of lead) ≡ (m, ok (length rs))
      → ((last : MsgInPipe)
          → last.lead_msg_mode ≡ pipe.lead_msg_mode
          → Feeds env (waiting last) read_lead_msg more ms)
      → Feeds env pipe read_lead_msg ((lead ∷ rs) ++ more) (completed rs m ∷ ms)
  unfolding read_chain new_msg_in
  message-Feeds lead [] more m pipe ms g gs d f =
      let last : MsgInPipe = record pipe { n_segs_left_after_this_read = 0 } in
      whole m ms last
        (λ s i a.
          ap (after env []) (lead_whole env roomy lead m pipe s g i d)
          ∙ complete_msg-waiting m last s a)
        (f last refl)
  message-Feeds lead (r ∷ rs) more m pipe ms g gs d f =
      let kept = mdt_keeps env roomy (head_of lead) in
      let here : m.mdt_reader ≡ some (lead.bytes ∷ []) = ground (arith, d, kept) in
      let none_yet : m.body_reader ≡ none = ground (arith, d, kept) in
      let some_mdt : m.mdt_reader ≢ none = λ e. ground (arith, here, e) in
      let pipe' : MsgInPipe = record pipe {
        n_segs_left_after_this_read = length rs;
        incomplete_msg = with_body ([] ∷ []) m;
      } in
      part pipe' read_cont_msg
        (λ s i.
          ap (after env []) (lead_more env roomy lead (length rs) m pipe s g i d some_mdt none_yet)
          ∙ ap (λ t. progress t pipe' read_cont_msg) (poll_idle s i))
        (conts-Feeds r rs more [] m pipe' ms gs some_mdt refl refl f)
