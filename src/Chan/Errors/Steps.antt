-- ===== src/Chan/Errors/Steps.antt =====
-- The channel as a state machine whose steps are the calls of its user and the reads of its pipes.
pub mod Negotiates
pub mod Calls
pub mod Runs
pub mod Chains
pub mod Once
use ipc_transport_structured.Prelude.{
  ℕ, ◌+◌, ◌≤◌, ◌≡◌, ◌≢◌, refl, sym, ap, ◌∙◌, Bool, true, false, inl, inr, Option, none, some, List,
  [], ◌∷◌, ◌++◌, ◌||◌, arith, Option-cases, is_some,
}
use ipc_transport_structured.Error.{ErrorCode}
use ipc_transport_structured.Msg.MsgIn.{MsgIn}
use ipc_transport_structured.Chan.State.{MsgOut, Env, Expecting, Chan, Task, on_error, Event}
use ipc_transport_structured.Chan.Handlers.{
  handlers_post, handlers_poll, handle_new_error, handle_async_err_code,
}
use ipc_transport_structured.Chan.Send.{send, async_request}
use ipc_transport_structured.Chan.Expect.{
  expect_msg, expect_msgs, expect_log_in_request, undo_expect_msgs, undo_expect_responses,
  set_unexpected_response_handler, unset_unexpected_response_handler,
  set_remote_unexpected_response_handler, unset_remote_unexpected_response_handler,
}
use ipc_transport_structured.Chan.Pipe.{
  MsgInPipe, RcvNextStep, read_lead_msg, read_cont_msg, stop, Read, Progress, progress,
  on_async_read_lead_msg, on_async_read_continuation_msg, read_chain,
}
use ipc_transport_structured.Chan.Start.{
  start_and_poll, Negotiators, Negotiated, start_ops, on_async_read_proto_neg_msg,
}
use ipc_transport_structured.Chan.Verdict.{reports, reports-append, Accepts}
use ipc_transport_structured.Chan.Errors.{
  due, allowed, errors, handlers_poll-SamePart, handlers_poll-OneReport, handlers_poll-on_err,
  hosed-reported,
}
use ipc_transport_structured.Chan.Errors.Reads.{misread, Went, goes_on, stops, lead-Went, cont-Went}

-- One call of the user, or one read with the handlers that run after it. Nothing is read of a channel
-- that could not send its negotiation message.
pub data Step (env : Env) : Chan → Chan → Type 0 where
  sends :
      (msg : MsgOut) (originating : Option MsgIn) {s : Chan}
      → Step env s (send env msg originating s).chan
  requests :
      (msg : MsgOut) (originating : Option MsgIn) (on_rsp : Expecting) {s : Chan}
      → Step env s (async_request env msg originating on_rsp s).chan
  expects_one :
      (which h : ℕ) (qd : Option MsgIn) {s : Chan} → Step env s (expect_msg which h qd s).0
  expects : (which h : ℕ) (qd : List MsgIn) {s : Chan} → Step env s (expect_msgs which h qd s).chan
  expects_log_in :
      (which h : ℕ) (qd : Option MsgIn) {s : Chan}
      → Step env s (expect_log_in_request which h qd s).0
  forgets_msgs : (which : ℕ) {s : Chan} → Step env s (undo_expect_msgs which s).0
  forgets_responses : (id : ℕ) {s : Chan} → Step env s (undo_expect_responses id s).0
  sets_unexpected : (h : ℕ) {s : Chan} → Step env s (set_unexpected_response_handler h s).0
  unsets_unexpected : {s : Chan} → Step env s (unset_unexpected_response_handler s).0
  sets_remote : (h : ℕ) {s : Chan} → Step env s (set_remote_unexpected_response_handler h s).0
  unsets_remote : {s : Chan} → Step env s (unset_remote_unexpected_response_handler s).0
  starts : (h : ℕ) {s : Chan} → Step env s (start_and_poll env h s).chan
  reads_lead :
      (r : Read) (pipe : MsgInPipe) {s : Chan}
      → s.proto_neg_err_code_or_ok ≡ none
      → Step env s (handlers_poll (on_async_read_lead_msg env r pipe s).chan)
  reads_cont :
      (r : Read) (pipe : MsgInPipe) {s : Chan}
      → s.proto_neg_err_code_or_ok ≡ none
      → Step env s (handlers_poll (on_async_read_continuation_msg env r pipe s).chan)

-- Any number of steps. The operations may start between them, and a negotiation message be read.
pub data Steps (env : Env) : Chan → Chan → Type 0 where
  done : {s : Chan} → Steps env s s
  and_then : {s t u : Chan} → Step env s t → Steps env t u → Steps env s u
  starts_ops :
      (neg : Negotiators) {s u : Chan} → Steps env (start_ops env neg s).0 u → Steps env s u
  reads_negotiation :
      (neg : Negotiators) (r : Read) (pipe : MsgInPipe) (g : Negotiated) {s u : Chan}
      → Steps env (on_async_read_proto_neg_msg neg r pipe (g, s)).1.chan u
      → Steps env s u

-- Whether a step, or one of several, is a read of a lead message without its handle from a pipe for
-- messages with one.
abbrev pub is_misread : (env : Env) {s t : Chan} → Step env s t → Bool
is_misread env (reads_lead r pipe {s} p) = misread r pipe s
is_misread env _ = false

abbrev pub some_misread : (env : Env) {s t : Chan} → Steps env s t → Bool
some_misread env done = false
some_misread env (and_then x xs) = is_misread env x || some_misread env xs
some_misread env (starts_ops neg xs) = some_misread env xs
some_misread env (reads_negotiation neg r pipe g xs) = some_misread env xs

module _ (env : Env) where
  -- A hosed channel takes nothing from a read.
  pub lead_hosed :
      (r : Read) (pipe : MsgInPipe) (s : Chan)
      → is_some s.channel_err_code_or_ok ≡ true
      → on_async_read_lead_msg env r pipe s ≡ progress s pipe stop
  unfolding on_async_read_lead_msg handle_async_err_code
  lead_hosed r pipe s h = ground arith

  pub cont_hosed :
      (r : Read) (pipe : MsgInPipe) (s : Chan)
      → is_some s.channel_err_code_or_ok ≡ true
      → on_async_read_continuation_msg env r pipe s ≡ progress s pipe stop
  unfolding on_async_read_continuation_msg handle_async_err_code
  cont_hosed r pipe s h = ground arith

-- What was reported before, what is due, and what the error code allows.
pub Went-due :
    (n : ℕ) (s : Chan) (q : Progress)
    → Went s q
    → s.channel_err_code_or_ok ≡ none
    → n + due s ≤ allowed s
    → n + due q.chan ≤ allowed q.chan
unfolding handle_new_error handlers_post
Went-due n s q (goes_on {t} pipe a m) c o =
    let more : reports t.sync_io_handlers ≡ reports s.sync_io_handlers + reports a.posted =
      ap reports a.handlers ∙ reports-append s.sync_io_handlers a.posted in
    let same = ap errors a.events in ground (arith, more, same, a.quiet, a.err)
Went-due n s q (stops {u} pipe e a) c o =
    let more : reports u.sync_io_handlers ≡ reports s.sync_io_handlers + reports a.posted =
      ap reports a.handlers ∙ reports-append s.sync_io_handlers a.posted in
    let same = ap errors a.events in
    let last = reports-append u.sync_io_handlers (Task.report_error ∷ []) in
    ground (arith, more, same, last, a.quiet)
