-- ===== src/Chan/Errors/Steps/Runs.antt =====
-- What a run of steps does to the channel's error, and what a read chain that stops has reported.
use ipc_transport_structured.Prelude.{
  ℕ, ◌+◌, ◌≤◌, ◌≡◌, refl, sym, ap, ◌∙◌, subst, Bool, true, false, inl, inr, ◌||◌, Option, none,
  some, [], arith, Option-cases, is_some,
}
use ipc_transport_structured.Error.{ErrorCode}
use ipc_transport_structured.Msg.MsgIn.{MsgIn}
use ipc_transport_structured.Chan.State.{Env, Chan, logged_in, srv_log_in}
use ipc_transport_structured.Chan.Handlers.{handlers_poll, handle_new_error}
use ipc_transport_structured.Chan.Send.{send, async_request}
use ipc_transport_structured.Chan.Expect.{
  Expected, one_msg, expect_msgs_impl, expect_msg, expect_msgs, expect_log_in_request,
  undo_expect_msgs, undo_expect_responses, set_unexpected_response_handler,
  unset_unexpected_response_handler, set_remote_unexpected_response_handler,
  unset_remote_unexpected_response_handler, expected,
}
use ipc_transport_structured.Prelude.Map.{find, erase}
use ipc_transport_structured.Chan.Pipe.{
  MsgInPipe, stop, Progress, progress, on_async_read_lead_msg, on_async_read_continuation_msg,
}
use ipc_transport_structured.Chan.Errors.{due, allowed, handlers_poll-SamePart, handlers_poll-due}
use ipc_transport_structured.Chan.Errors.Reads.{misread, Went, lead-Went, cont-Went}
use ipc_transport_structured.Chan.Errors.Steps.{
  Step, sends, requests, expects_one, expects, expects_log_in, forgets_msgs, forgets_responses,
  sets_unexpected, unsets_unexpected, sets_remote, unsets_remote, starts, reads_lead, reads_cont,
  Steps, done, and_then, starts_ops, reads_negotiation, is_misread, some_misread, Went-due,
  lead_hosed, cont_hosed,
}
use ipc_transport_structured.Chan.Start.{Negotiators, start_ops, send_proto_neg}
use ipc_transport_structured.Chan.Errors.Steps.Negotiates.{
  Negotiates, untouched, polls, hosed, on_async_read_proto_neg_msg-Negotiates,
}
use ipc_transport_structured.Chan.Errors.Steps.Calls.{
  Called, silent, hoses, Called-due, start-Called, Called-sticky, guarded-Called, log_in-Called,
  expecting-Called, sending-Called,
}

-- What one step keeps.
pub record Advances (misreading : Bool) (s t : Chan) : Type 0 where
  pub one : misreading ≡ false → (n : ℕ) → n + due s ≤ allowed s → n + due t ≤ allowed t
  pub sticky :
      (e : ErrorCode) → s.channel_err_code_or_ok ≡ some e → t.channel_err_code_or_ok ≡ some e

Called-Advances : (s t : Chan) → Called s t → Advances false s t
Called-Advances s t c = record {
  one = λ m n. Called-due n s t c;
  sticky = λ e h. Called-sticky s t e c h;
}

-- A read of either kind, with the handlers that run after it.
read-Advances :
    (misreading : Bool) (s : Chan) (q : Progress) (pipe : MsgInPipe)
    → (misreading ≡ false → s.channel_err_code_or_ok ≡ none → Went s q)
    → (is_some s.channel_err_code_or_ok ≡ true → q ≡ progress s pipe stop)
    → Advances misreading s (handlers_poll q.chan)
read-Advances misreading s q pipe went shut =
    let polled = handlers_poll-due q.chan in
    elim (Option-cases s.channel_err_code_or_ok) [
      | inl c ↦ record {
        one = λ m n o. omega (arith, polled, Went-due n s q (went m c) c o);
        sticky = λ e h. cc;
      }
      | inr (e, c) ↦
          let same : q.chan ≡ s = ap (λ (p : Progress). p.chan) (shut (ap is_some c)) in
          record {
            one = λ m n o.
                let here : n + due q.chan ≤ allowed q.chan =
                  subst (λ (u : Chan). n + due u ≤ allowed u) (sym same) o in
                omega (arith, polled, here);
            sticky = λ d h.
                (handlers_poll-SamePart q.chan).0
                ∙ ap (λ (t : Chan). t.channel_err_code_or_ok) same
                ∙ h;
          }
    ]

pub Negotiates-Advances : (s t : Chan) → Negotiates s t → Advances false s t
Negotiates-Advances s t untouched = record { one = λ m n o. o; sticky = λ e h. h }
Negotiates-Advances s t polls =
    let polled = handlers_poll-due s in
    record {
      one = λ m n o. omega (arith, polled, o);
      sticky = λ e h. (handlers_poll-SamePart s).0 ∙ h;
    }
Negotiates-Advances s t (hosed e c) =
    let u = handle_new_error (some e) s in
    let polled = handlers_poll-due u in
    record {
      one = λ m n o. omega (arith, polled, Called-due n s u (hoses s e c refl refl refl) o);
      sticky = λ d h. cc;
    }

pub neither : (b c : Bool) → (b || c) ≡ false → (b ≡ false) × (c ≡ false)
neither b c h = ground arith

module _ (env : Env) where
  pub Step-Advances : (s t : Chan) (x : Step env s t) → Advances (is_misread env x) s t
  unfolding send async_request expect_msg expect_msgs expect_log_in_request undo_expect_msgs
      undo_expect_responses set_unexpected_response_handler unset_unexpected_response_handler
      set_remote_unexpected_response_handler unset_remote_unexpected_response_handler
  Step-Advances s t (sends msg originating) =
      Called-Advances s t (sending-Called env msg originating none s)
  Step-Advances s t (requests msg originating on_rsp) =
      Called-Advances s t (sending-Called env msg originating (some on_rsp) s)
  Step-Advances s t (expects_one which h qd) = Called-Advances s t (
      guarded-Called (λ (r : Chan × Bool × Option MsgIn). r.0) logged_in s (s, false, qd)
        (one_msg (expect_msgs_impl true which h [] s)) refl (expecting-Called true which h [] s))
  Step-Advances s t (expects which h qd) = Called-Advances s t (
      guarded-Called (λ (r : Expected). r.chan) logged_in s (expected s false qd)
        (expect_msgs_impl false which h qd s) refl (expecting-Called false which h qd s))
  Step-Advances s t (expects_log_in which h qd) = Called-Advances s t (
      guarded-Called (λ (r : Chan × Bool × Option MsgIn). r.0) srv_log_in s (s, false, qd) _ refl
        (log_in-Called which h qd s))
  Step-Advances s t (forgets_msgs which) = Called-Advances s t (
      guarded-Called (λ (r : Chan × Bool). r.0) logged_in s (s, false)
        (
          record s { rcv_expecting_msg_map = erase which s.rcv_expecting_msg_map },
          is_some (find which s.rcv_expecting_msg_map),
        )
        refl (λ c. silent refl refl (λ _. refl)))
  Step-Advances s t (forgets_responses id) = Called-Advances s t (
      guarded-Called (λ (r : Chan × Bool). r.0) logged_in s (s, false)
        (
          record s { rcv_expecting_response_map = erase id s.rcv_expecting_response_map },
          is_some (find id s.rcv_expecting_response_map),
        )
        refl (λ c. silent refl refl (λ _. refl)))
  Step-Advances s t (sets_unexpected h) =
      Called-Advances s t (silent (ground arith) (ground arith) (λ e. ground arith))
  Step-Advances s t unsets_unexpected =
      Called-Advances s t (silent (ground arith) (ground arith) (λ e. ground arith))
  Step-Advances s t (sets_remote h) =
      Called-Advances s t (silent (ground arith) (ground arith) (λ e. ground arith))
  Step-Advances s t unsets_remote =
      Called-Advances s t (silent (ground arith) (ground arith) (λ e. ground arith))
  Step-Advances s t (starts h) = Called-Advances s t (start-Called env h s)
  Step-Advances s t (reads_lead r pipe p) =
      read-Advances (misread r pipe s) s (on_async_read_lead_msg env r pipe s) pipe
        (λ m. lead-Went env r pipe s m p) (lead_hosed env r pipe s)
  Step-Advances s t (reads_cont r pipe p) =
      read-Advances false s (on_async_read_continuation_msg env r pipe s) pipe
        (λ m. cont-Went env r pipe s p) (cont_hosed env r pipe s)

  start_ops-due : (neg : Negotiators) (s : Chan) → due (start_ops env neg s).0 ≡ due s
  unfolding start_ops send_proto_neg
  start_ops-due neg s = ground arith

  start_ops-err :
      (neg : Negotiators) (s : Chan)
      → (start_ops env neg s).0.channel_err_code_or_ok ≡ s.channel_err_code_or_ok
  unfolding start_ops send_proto_neg
  start_ops-err neg s = ground arith

  start_ops-Advances : (neg : Negotiators) (s : Chan) → Advances false s (start_ops env neg s).0
  start_ops-Advances neg s =
      let same = start_ops-due neg s in
      let err = start_ops-err neg s in
      record { one = λ m n o. ground (arith, same, err, o); sticky = λ e h. err ∙ h }

  -- The first error, a truthy one, stays: no run of calls and reads, the start of the operations and
  -- the reads of negotiation messages among them, clears it or replaces it. Messages are read only of
  -- a channel that could send its own negotiation message.
  pub Steps-sticky :
      (s t : Chan) (e : ErrorCode)
      → Steps env s t
      → s.channel_err_code_or_ok ≡ some e
      → t.channel_err_code_or_ok ≡ some e
  Steps-sticky s t e done h = h
  Steps-sticky s t e (and_then {t = u} x xs) h =
      Steps-sticky u t e xs ((Step-Advances s u x).sticky e h)
  Steps-sticky s t e (starts_ops neg xs) h =
      Steps-sticky (start_ops env neg s).0 t e xs ((start_ops-Advances neg s).sticky e h)
  Steps-sticky s t e (reads_negotiation neg r pipe g xs) h =
      let n = on_async_read_proto_neg_msg-Negotiates neg r pipe g s in
      Steps-sticky _ t e xs ((Negotiates-Advances s _ n).sticky e h)

  keeps-due :
      (n : ℕ) (s t : Chan) (xs : Steps env s t)
      → some_misread env xs ≡ false
      → n + due s ≤ allowed s
      → n + due t ≤ allowed t
  keeps-due n s t done m o = o
  keeps-due n s t (and_then {t = u} x xs) m o =
      let (first, rest) = neither (is_misread env x) (some_misread env xs) m in
      keeps-due n u t xs rest ((Step-Advances s u x).one first n o)
  keeps-due n s t (starts_ops neg xs) m o =
      keeps-due n (start_ops env neg s).0 t xs m ((start_ops-Advances neg s).one refl n o)
  keeps-due n s t (reads_negotiation neg r pipe g xs) m o =
      let a = on_async_read_proto_neg_msg-Negotiates neg r pipe g s in
      keeps-due n _ t xs m ((Negotiates-Advances s _ a).one refl n o)

  -- Over any run of calls and reads, the start of the operations and the reads of negotiation
  -- messages among them, the calls of the error handler that were made and the reports that are due
  -- stay, together, at most one, and none while the channel has no error; provided that no lead
  -- message without its handle is read, on a channel without an error, from a pipe for messages with
  -- one, whose code is a falsy one. Messages are read only of a channel that could send its own
  -- negotiation message.
  pub Steps-due :
      (s t : Chan) (xs : Steps env s t)
      → some_misread env xs ≡ false
      → due s ≤ allowed s
      → due t ≤ allowed t
  Steps-due s t xs m b = omega (arith, keeps-due 0 s t xs m (omega (arith, b)))
