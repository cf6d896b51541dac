-- ===== src/Chan/Errors/Steps/Once.antt =====
-- What a sending call tells its caller of an error, what a whole read chain makes due, and that the
-- outcome of the protocol negotiation stays.
use ipc_transport_structured.Prelude.{
  ℕ, ◌+◌, ◌≤◌, ◌≡◌, refl, ap, ◌∙◌, true, false, not, ◌&&◌, ◌==◌, inl, inr, Option, none, some, List,
  [], ◌∷◌, arith, Option-cases, is_some, either_branch,
}
use ipc_transport_structured.Error.{ErrorCode, sends_finished_cannot_send}
use ipc_transport_structured.Msg.Mdt.{StructuredMessage}
use ipc_transport_structured.Msg.MsgIn.{MsgIn}
use ipc_transport_structured.Chan.State.{
  MsgOut, Sent, Env, Expecting, Chan, increment, is_logged_in, is_srv_log_in, is_cli_log_in,
}
use ipc_transport_structured.Chan.Handlers.{handlers_post, handlers_poll, handle_new_error}
use ipc_transport_structured.Chan.Send.{
  Outcome, conclude_send, send_core, send_impl, checked_send, send, async_request, refuse, register,
  serialize, send_payloads, handle_of,
}
use ipc_transport_structured.Chan.Expect.{
  take_pending, expect_msgs_impl, expect_msg, expect_msgs, expect_log_in_request, undo_expect_msgs,
  undo_expect_responses, set_unexpected_response_handler, unset_unexpected_response_handler,
  set_remote_unexpected_response_handler, unset_remote_unexpected_response_handler,
}
use ipc_transport_structured.Chan.Sending.Wire.{Result-cases, send_core-opens}
use ipc_transport_structured.Chan.Start.{start_and_poll}
use ipc_transport_structured.Chan.Pipe.{
  RcvNextStep, read_lead_msg, read_cont_msg, MsgInPipe, stop, Read, Progress, progress, read_chain,
}
use ipc_transport_structured.Chan.Frame.{send_core-SameBase}
use ipc_transport_structured.Chan.Errors.{due, allowed, handlers_poll-SamePart}
use ipc_transport_structured.Chan.Errors.Reads.{
  misread, misreads, Went, goes_on, stops, lead-Went, cont-Went,
}
use ipc_transport_structured.Chan.Errors.Steps.{
  Step, sends, requests, expects_one, expects, expects_log_in, forgets_msgs, forgets_responses,
  sets_unexpected, unsets_unexpected, sets_remote, unsets_remote, starts, reads_lead, reads_cont,
  lead_hosed, cont_hosed, is_misread,
}
use ipc_transport_structured.Chan.Errors.Steps.Calls.{impl_quiet}
use ipc_transport_structured.Chan.Errors.Steps.Runs.{Step-Advances, Negotiates-Advances, neither}
use ipc_transport_structured.Chan.Errors.Steps.Negotiates.{Negotiates, untouched, polls, hosed}

-- An error that a sending call gives to its caller and that hoses the channel.
abbrev pub fatal : Option ErrorCode → ℕ
fatal none = 0
fatal (some sends_finished_cannot_send) = 0
fatal (some _) = 1

fatal-le : (c : Option ErrorCode) → fatal c ≤ 1
fatal-le none = omega arith
fatal-le (some sends_finished_cannot_send) = omega arith
fatal-le (some e) = omega arith

conclude-fatal :
    (r : List Sent × Option ErrorCode) (s : Chan)
    → fatal (conclude_send false r s).err_code ≤ allowed (conclude_send false r s).chan
unfolding conclude_send
conclude-fatal (xs, none) s = omega arith
conclude-fatal (xs, some sends_finished_cannot_send) s = omega arith
conclude-fatal (xs, some e) s = ground arith

-- The bound that every operation keeps, `n` being what was told before.
pub record Within (n : ℕ) (s : Chan) : Type 0 where
  pub bound : n + due s ≤ allowed s
  pub proto : s.proto_neg_err_code_or_ok ≡ none

Went-proto :
    (s : Chan) (q : Progress)
    → Went s q
    → q.chan.proto_neg_err_code_or_ok ≡ s.proto_neg_err_code_or_ok
unfolding handle_new_error handlers_post
Went-proto s q (goes_on pipe a m) = a.proto
Went-proto s q (stops pipe e a) = a.proto

Negotiates-proto :
    (s t : Chan) → Negotiates s t → t.proto_neg_err_code_or_ok ≡ s.proto_neg_err_code_or_ok
unfolding handle_new_error handlers_post
Negotiates-proto s t untouched = refl
Negotiates-proto s t polls = (handlers_poll-SamePart s).1
Negotiates-proto s t (hosed e c) = (handlers_poll-SamePart (handle_new_error (some e) s)).1

pub Negotiates-Within : (n : ℕ) (s t : Chan) → Negotiates s t → Within n s → Within n t
Negotiates-Within n s t x w = record {
  bound = (Negotiates-Advances s t x).one refl n w.bound;
  proto = Negotiates-proto s t x ∙ w.proto;
}

module _ (env : Env) where
  core-fatal :
      (mdt : StructuredMessage) (msg : Option MsgOut) (s : Chan)
      → let o = send_core env mdt msg false s in fatal o.err_code ≤ allowed o.chan
  unfolding send_core
  core-fatal mdt msg s = elim (Option-cases s.proto_neg_err_code_or_ok) [
    | inr (c, f) ↦ rw (f, send_core) (fatal-le (some c))
    | inl f ↦ elim (Result-cases (serialize env mdt msg)) [
      | inr (c, g) ↦ rw (f, g, send_core) (fatal-le (some c))
      | inl (ps, g) ↦
          rw (send_core-opens env mdt msg false s ps f g)
            (conclude-fatal (send_payloads env (handle_of msg) s.sent ps) s)
    ]
  ]

  refuse-fatal : (t : Chan) → fatal (refuse t).err_code ≤ allowed (refuse t).chan
  refuse-fatal t = omega arith

  impl-fatal :
      (msg : MsgOut) (originating : Option MsgIn) (on_rsp : Option Expecting) (s : Chan)
      → let o = send_impl env msg originating on_rsp s in fatal o.err_code ≤ allowed o.chan
  unfolding send_impl
  impl-fatal msg originating on_rsp s =
      let id = s.snd_msg_next_id in
      let s1 : Chan = record s { snd_msg_next_id = increment id } in
      let s2 = register id on_rsp s1 in
      let P : Outcome → Type 0 = λ o. fatal o.err_code ≤ allowed o.chan in
      either_branch P (not (id == 1) && not (is_logged_in s.phase)) (refuse-fatal s1) (
        either_branch P (not (is_some on_rsp) && is_cli_log_in s.phase) (refuse-fatal s1) (
          either_branch P (not (is_some originating) && is_srv_log_in s.phase) (refuse-fatal s2) (
            either_branch P (is_some originating && is_cli_log_in s.phase) (refuse-fatal s2)
              (core-fatal _ (some msg) s2))))

  -- A call that gives an error to its caller is the first to do so, and posts no report.
  pub sending-due :
      (n : ℕ) (msg : MsgOut) (originating : Option MsgIn) (on_rsp : Option Expecting) (s : Chan)
      → n + due s ≤ allowed s
      → let o = checked_send env msg originating on_rsp s in
        n + fatal o.err_code + due o.chan ≤ allowed o.chan
  sending-due n msg originating on_rsp s b =
      let quiet = impl_quiet env msg originating on_rsp s in
      let first = impl-fatal msg originating on_rsp s in ground (arith, quiet, first)

  -- The outcome of the negotiation stays.
  pub sending-proto :
      (msg : MsgOut) (originating : Option MsgIn) (on_rsp : Option Expecting) (s : Chan)
      → (checked_send env msg originating on_rsp s).chan.proto_neg_err_code_or_ok
        ≡ s.proto_neg_err_code_or_ok
  unfolding send_impl
  sending-proto msg originating on_rsp s = grind (arith, send_core-SameBase)

  read-proto :
      (s : Chan) (q : Progress) (pipe : MsgInPipe)
      → (s.channel_err_code_or_ok ≡ none → Went s q)
      → (is_some s.channel_err_code_or_ok ≡ true → q ≡ progress s pipe stop)
      → (handlers_poll q.chan).proto_neg_err_code_or_ok ≡ s.proto_neg_err_code_or_ok
  read-proto s q pipe went shut =
      (handlers_poll-SamePart q.chan).1 ∙ elim (Option-cases s.channel_err_code_or_ok) [
        | inl c ↦ Went-proto s q (went c)
        | inr (e, c) ↦ ap (λ (p : Progress). p.chan.proto_neg_err_code_or_ok) (shut (ap is_some c))
      ]

  Step-proto :
      (s t : Chan) (x : Step env s t)
      → is_misread env x ≡ false
      → t.proto_neg_err_code_or_ok ≡ s.proto_neg_err_code_or_ok
  unfolding send async_request expect_msg expect_msgs expect_log_in_request undo_expect_msgs
      undo_expect_responses set_unexpected_response_handler unset_unexpected_response_handler
      set_remote_unexpected_response_handler unset_remote_unexpected_response_handler
      expect_msgs_impl take_pending start_and_poll handle_new_error handlers_post
  Step-proto s t (sends msg originating) m = sending-proto msg originating none s
  Step-proto s t (requests msg originating on_rsp) m = sending-proto msg originating (some on_rsp) s
  Step-proto s t (reads_lead r pipe p) m =
      read-proto s _ pipe (lead-Went env r pipe s m p) (lead_hosed env r pipe s)
  Step-proto s t (reads_cont r pipe p) m =
      read-proto s _ pipe (cont-Went env r pipe s p) (cont_hosed env r pipe s)
  Step-proto s t (expects_one which h qd) m = ground arith
  Step-proto s t (expects which h qd) m = ground arith
  Step-proto s t (expects_log_in which h qd) m = ground arith
  Step-proto s t (forgets_msgs which) m = ground arith
  Step-proto s t (forgets_responses id) m = ground arith
  Step-proto s t (sets_unexpected h) m = ground arith
  Step-proto s t unsets_unexpected m = ground arith
  Step-proto s t (sets_remote h) m = ground arith
  Step-proto s t unsets_remote m = ground arith
  Step-proto s t (starts h) m = ground arith

  pub Step-Within :
      (n : ℕ) (s t : Chan) (x : Step env s t) → is_misread env x ≡ false → Within n s → Within n t
  Step-Within n s t x m w = record {
    bound = (Step-Advances env s t x).one m n w.bound;
    proto = Step-proto s t x m ∙ w.proto;
  }

  chain-Within :
      (n : ℕ) (rs : List Read) (p : Progress) (next : RcvNextStep)
      → p.next ≡ next
      → misreads env rs p ≡ false
      → Within n p.chan
      → Within n (read_chain env rs p).chan
  unfolding read_chain misreads
  chain-Within n [] p next e m w = w
  chain-Within n (r ∷ rs) p stop e m w = rw e w
  chain-Within n (r ∷ rs) p read_lead_msg e m w =
      let (first, rest) = neither (misread r p.pipe p.chan) _ (rw e at m) in
      rw e (
        chain-Within n rs _ _ refl rest
          (Step-Within n p.chan _ (reads_lead r p.pipe w.proto) first w))
  chain-Within n (r ∷ rs) p read_cont_msg e m w = rw e (
      chain-Within n rs _ _ refl (rw e at m)
        (Step-Within n p.chan _ (reads_cont r p.pipe w.proto) refl w))

  pub read_chain-Within :
      (n : ℕ) (rs : List Read) (p : Progress)
      → misreads env rs p ≡ false
      → Within n p.chan
      → Within n (read_chain env rs p).chan
  read_chain-Within n rs p = chain-Within n rs p p.next refl
