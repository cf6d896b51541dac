-- ===== src/Chan/Errors/Steps/Calls.antt =====
-- What each call of the user does to the channel's error.
use ipc_transport_structured.Prelude.{
  ℕ, ◌+◌, ◌≤◌, ◌≡◌, refl, sym, ap, Bool, true, false, inl, inr, Option, none, some, List, [], ◌∷◌,
  arith, Option-cases, is_some, not, ◌&&◌, is_empty, if◌then◌else◌, either_branch, subst,
}
use ipc_transport_structured.Error.{
  ErrorCode, struc, got_unexpected_log_in_request, deserialize_target_alloc_failed,
}
use ipc_transport_structured.Prelude.Map.{find, emplace}
use ipc_transport_structured.Msg.Mdt.{StructuredMessage}
use ipc_transport_structured.Msg.MsgIn.{MsgIn}
use ipc_transport_structured.Chan.State.{MsgOut, Env, Expecting, Chan, Phase, is_logged_in, Task}
use ipc_transport_structured.Chan.Handlers.{handlers_post, handle_new_error}
use ipc_transport_structured.Chan.Send.{checked_send, send_impl, send_core, conclude_send}
use ipc_transport_structured.Chan.Expect.{
  Expected, one_msg, same_phase, take_pending, expect_msgs_impl, check_phase_and_prior_error,
}
use ipc_transport_structured.Chan.Start.{Started, modes, new_pipes, start_and_poll}
use ipc_transport_structured.Chan.Verdict.{reports, reports-append}
use ipc_transport_structured.Chan.Errors.{due, allowed, errors}

-- A call that reports nothing, or reports the error that it is the first to find.
pub data Called (s t : Chan) : Type 0 where
  silent :
      t.sync_io_handlers ≡ s.sync_io_handlers
      → t.events ≡ s.events
      → (is_some s.channel_err_code_or_ok ≡ true
          → t.channel_err_code_or_ok ≡ s.channel_err_code_or_ok)
      → Called s t
  hoses :
      (u : Chan) (e : ErrorCode)
      → s.channel_err_code_or_ok ≡ none
      → u.sync_io_handlers ≡ s.sync_io_handlers
      → u.events ≡ s.events
      → t ≡ handle_new_error (some e) u
      → Called s t

pub Called-due : (n : ℕ) (s t : Chan) → Called s t → n + due s ≤ allowed s → n + due t ≤ allowed t
unfolding handle_new_error handlers_post
Called-due n s t (silent h v e) o =
    let same = ap reports h in
    let as_well = ap errors v in
    elim (Option-cases s.channel_err_code_or_ok) [
      | inl f ↦ ground (arith, same, as_well)
      | inr (c, f) ↦ ground (arith, same, as_well, e (ap is_some f))
    ]
Called-due n s t (hoses u e c h v q) o =
    let one : n + due (handle_new_error (some e) u) ≤ allowed (handle_new_error (some e) u) =
      ground (
        arith,
        ap reports h,
        ap errors v,
        reports-append u.sync_io_handlers (Task.report_error ∷ []),
      ) in
    rw q one

pub Called-sticky :
    (s t : Chan) (e : ErrorCode)
    → Called s t
    → s.channel_err_code_or_ok ≡ some e
    → t.channel_err_code_or_ok ≡ some e
Called-sticky s t e (silent h v k) c = ground arith
Called-sticky s t e (hoses u c' n h v q) c = absurd (ground arith)

module _ (env : Env) where
  core_quiet :
      (mdt : StructuredMessage) (msg : Option MsgOut) (s : Chan)
      → let t = (send_core env mdt msg false s).chan in
        (t.sync_io_handlers ≡ s.sync_io_handlers) × (t.events ≡ s.events)
  unfolding send_core conclude_send
  core_quiet mdt msg s = ground arith

  pub impl_quiet :
      (msg : MsgOut) (originating : Option MsgIn) (on_rsp : Option Expecting) (s : Chan)
      → let t = (send_impl env msg originating on_rsp s).chan in
        (t.sync_io_handlers ≡ s.sync_io_handlers) × (t.events ≡ s.events)
  unfolding send_impl
  impl_quiet msg originating on_rsp s = grind (arith, core_quiet)

  pub sending-Called :
      (msg : MsgOut) (originating : Option MsgIn) (on_rsp : Option Expecting) (s : Chan)
      → Called s (checked_send env msg originating on_rsp s).chan
  sending-Called msg originating on_rsp s =
      silent (ground (arith, impl_quiet msg originating on_rsp s))
        (ground (arith, impl_quiet msg originating on_rsp s)) (λ e. ground arith)

take_pending_quiet :
    (one_off : Bool) (which : ℕ) (q : List MsgIn) (s : Chan)
    → let t = (take_pending one_off which q s).chan in
      (t.sync_io_handlers ≡ s.sync_io_handlers)
      × (t.events ≡ s.events)
      × (t.channel_err_code_or_ok ≡ s.channel_err_code_or_ok)
unfolding take_pending
take_pending_quiet one_off which q s = ground arith

pub expecting-Called :
    (one_off : Bool) (which h : ℕ) (qd : List MsgIn) (s : Chan)
    → s.channel_err_code_or_ok ≡ none
    → Called s (expect_msgs_impl one_off which h qd s).chan
unfolding expect_msgs_impl
expecting-Called one_off which h qd s c =
    let e : Expecting = record { one_expected = one_off; on_msg_func = h } in
    let t : Chan = record s { rcv_expecting_msg_map = emplace which e s.rcv_expecting_msg_map } in
    let P : Expected → Type 0 = λ r. Called s r.chan in
    either_branch P (is_some (find which s.rcv_expecting_msg_map)) (silent refl refl (λ _. refl))
      (elim (Option-cases (find which s.rcv_pending_msgs)) [
        | inl f ↦ rw f (
            either_branch P (not (is_logged_in s.phase) && not (is_empty s.rcv_pending_msgs))
              (hoses t (struc got_unexpected_log_in_request) c refl refl refl)
              (silent refl refl (λ _. refl)))
        | inr (q, f) ↦
            let k = take_pending_quiet one_off which q t in rw f (silent k.0 k.1 (λ _. k.2))
      ])

check-none :
    (required : Phase) (s : Chan)
    → s.channel_err_code_or_ok ≡ none
    → check_phase_and_prior_error required s ≡ not (same_phase required s.phase)
unfolding check_phase_and_prior_error
check-none required s c = ground arith

check-some :
    (required : Phase) (s : Chan)
    → is_some s.channel_err_code_or_ok ≡ true
    → check_phase_and_prior_error required s ≡ true
unfolding check_phase_and_prior_error
check-some required s c = ground arith

-- A call behind the check of the phase and of a prior error.
pub guarded-Called {ℓ} :
    {A : Type ℓ} (chan_of : A → Chan) (required : Phase) (s : Chan) (x y : A)
    → chan_of x ≡ s
    → (s.channel_err_code_or_ok ≡ none → Called s (chan_of y))
    → Called s (chan_of (if check_phase_and_prior_error required s then x else y))
guarded-Called chan_of required s x y same k =
    let here : Called s (chan_of x) = subst (Called s) (sym same) (silent refl refl (λ _. refl)) in
    elim (Option-cases s.channel_err_code_or_ok) [
      | inr (e, c) ↦ rw (check-some required s (ap is_some c)) here
      | inl c ↦
          rw (check-none required s c) (
            either_branch (λ a. Called s (chan_of a)) (not (same_phase required s.phase)) here
              (k c))
    ]

pub log_in-Called :
    (which h : ℕ) (qd : Option MsgIn) (s : Chan)
    → s.channel_err_code_or_ok ≡ none
    → Called s
        (if s.phase_log_in_started
          then (s, false, qd)
          else one_msg
              (expect_msgs_impl true which h [] (record s { phase_log_in_started = true }))).0
log_in-Called which h qd s c =
    let t : Chan = record s { phase_log_in_started = true } in
    either_branch (λ (r : Chan × Bool × Option MsgIn). Called s r.0) s.phase_log_in_started
      (silent refl refl (λ _. refl)) (started (expecting-Called true which h [] t c))
  where
    started : {u : Chan} → Called (record s { phase_log_in_started = true }) u → Called s u
    started (silent a b d) = silent a b d
    started (hoses u e a b d f) = hoses u e a b d f

-- `start_and_poll` sets the handler, and reports an error that it takes over or finds.
pub start-Called : (env : Env) (h : ℕ) (s : Chan) → Called s (start_and_poll env h s).chan
unfolding start_and_poll
start-Called env h s =
    let P : Started → Type 0 = λ r. Called s r.chan in
    let no : Called s s = silent refl refl (λ _. refl) in
    let s1 : Chan = record s { on_err_func = some h } in
    either_branch P (not s.started_ops) no (
      either_branch P (is_some s.on_err_func) no (elim (Option-cases s.channel_err_code_or_ok) [
        | inr (e, c) ↦ rw (ap is_some c) no
        | inl c ↦ rw (ap is_some c) (elim (Option-cases s.proto_neg_err_code_or_ok) [
          | inr (e, p) ↦ rw p (hoses s1 e c refl refl refl)
          | inl p ↦ rw p (elim (Option-cases (new_pipes env (modes env))) [
            | inl q ↦ rw q (hoses s1 (struc deserialize_target_alloc_failed) c refl refl refl)
            | inr (pipes, q) ↦ rw q (silent refl refl (λ _. refl))
          ])
        ])
      ]))
