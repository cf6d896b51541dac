-- ===== src/Async/Errors/Sound.antt =====
-- What one action, or several, of a channel with a thread do to the bound on the errors that are told.
use ipc_transport_structured.Prelude.{
  ℕ, ◌+◌, ◌≤◌, ◌≡◌, refl, sym, ◌∙◌, subst, Bool, true, false, Option, none, some, List, [], ◌∷◌,
  ◌||◌, arith,
}
use ipc_transport_structured.Msg.MsgIn.{MsgIn}
use ipc_transport_structured.Chan.State.{MsgOut, Env, Expecting, Chan}
use ipc_transport_structured.Chan.Send as Send
use ipc_transport_structured.Chan.Expect as Expect
use ipc_transport_structured.Chan.Pipe.{Read, Progress, read_chain}
use ipc_transport_structured.Chan.Errors.Steps.Negotiates.{on_async_read_proto_neg_msg-Negotiates}
use ipc_transport_structured.Chan.Errors.Steps.Once.{Negotiates-Within}
use ipc_transport_structured.Chan.Errors.Reads.{misreads}
use ipc_transport_structured.Chan.Errors.Steps.Runs.{neither}
use ipc_transport_structured.Chan.Errors.{due, allowed}
use ipc_transport_structured.Chan.Errors.Steps.{
  Step, is_misread, expects_one as expects_one_below, expects as expects_below, expects_log_in,
  forgets_msgs as forgets_msgs_below, forgets_responses as forgets_responses_below,
  sets_unexpected as sets_unexpected_below, unsets_unexpected as unsets_unexpected_below,
  sets_remote as sets_remote_below, unsets_remote as unsets_remote_below, starts as starts_below,
}
use ipc_transport_structured.Chan.Errors.Steps.Once.{
  fatal, Within, Step-Within, read_chain-Within, sending-due, sending-proto,
}
use ipc_transport_structured.Async.State.{
  invoke, invoke_all, invoke_end_sending, Wrapper, around, of_request, encode, post,
}
use ipc_transport_structured.Async.Worker.{settle, run_next}
use ipc_transport_structured.Async.Calls
use ipc_transport_structured.Async.Calls.{
  EndAnswer, refused, would_block, completed, new_channel, one_expected, many_expected,
  conclude_end_sending, core_end_sending, begin_end_sending,
}
use ipc_transport_structured.Async.Actions.{
  Action, starts, sends, requests, begins_request, ends_request, expects_one, expects, forgets_msgs,
  forgets_responses, sets_unexpected, unsets_unexpected, sets_remote, unsets_remote, ends_sending,
  sending_ended, becomes_active, reads_negotiation, runs_next, perform, perform_all,
}
use ipc_transport_structured.Async.Errors.{
  queued-append, total, Counts, Counts-refl, post-Counts, settle-Within, take_first-Counts,
}
use ipc_transport_structured.Sync.{begin_request, end_request}
use ipc_transport_structured.Sync.Race.{held}

module _ (env : Env) where
  -- The error of the channel that an operation gives to its caller, none or one. A timeout is not
  -- one, nor that the sends were ended before.
  abbrev pub returned_by : Action → Wrapper → ℕ
  returned_by (sends msg originating) w = fatal (Calls.send env msg originating w).2
  returned_by (requests msg originating one_off h) w =
      fatal (Calls.async_request env msg originating one_off h w).2
  returned_by (begins_request msg originating) w =
      fatal (Calls.begin_sync_request env msg originating w).err_code
  returned_by ends_request w = held w.sync_op_state
  returned_by _ w = 0

  abbrev pub returned_all : List Action → Wrapper → ℕ
  returned_all [] w = 0
  returned_all (a ∷ rest) w = returned_by a w + returned_all rest (perform env a w)

-- Whether one of the actions reads a lead message without its handle from a pipe for messages with
-- one, on a channel without an error.
abbrev pub misreads_by : Env → Action → Wrapper → Bool
misreads_by env (becomes_active reads p) w = misreads env reads (record p { chan = w.sync_io })
misreads_by env _ w = false

abbrev pub misreads_all : Env → List Action → Wrapper → Bool
misreads_all env [] w = false
misreads_all env (a ∷ rest) w = misreads_by env a w || misreads_all env rest (perform env a w)

-- With what was returned to callers before, the errors told or to be told keep to the bound.
abbrev pub Sound : ℕ → Wrapper → Type 0
Sound r w = Within (r + total w) w.sync_io

Counts-Sound : (r : ℕ) (w u : Wrapper) → Counts w u 0 → Sound r w → Sound (r + 0) u
Counts-Sound r w u c k =
    subst (Within (r + 0 + total u)) (sym c.core)
      (record { bound = omega (arith, c.count, k.bound); proto = k.proto })

many_expected-Counts :
    (h : ℕ) (w : Wrapper) (b : Bool) (ms : List MsgIn) → Counts w (many_expected h w b ms).0 0
many_expected-Counts h w false ms = Counts-refl w
many_expected-Counts h w true [] = Counts-refl w
many_expected-Counts h w true (m ∷ ms) = post-Counts (invoke_all h (m ∷ ms)) w

conclude-Counts :
    (answer : EndAnswer) (func : Option ℕ) (w : Wrapper)
    → Counts w
        (conclude_end_sending answer (record w { snd_end_sending_on_done_func_or_empty = func })).0
        0
unfolding post
conclude-Counts refused func w = record { count = omega arith; core = refl }
conclude-Counts would_block func w = record { count = omega arith; core = refl }
conclude-Counts (completed e) func w = record {
  count = omega (arith, queued-append w.worker (invoke_end_sending e ∷ []));
  core = refl;
}

begin-Counts :
    (func : Option ℕ) (answer : EndAnswer) (h : ℕ) (w : Wrapper)
    → Counts w (begin_end_sending func answer h w).0 0
begin-Counts (some g) answer h w = Counts-refl w
begin-Counts none answer h w = conclude-Counts (core_end_sending answer w.sync_io) (some h) w

module _ (env : Env) where
  -- An operation of the channel below, and then the calls that it made.
  settled :
      (r : ℕ) (s : Chan) (w : Wrapper) (x : Step env w.sync_io s)
      → is_misread env x ≡ false
      → Sound r w
      → Sound r (settle s w)
  settled r s w x m k = settle-Within r s w (Step-Within env (r + total w) w.sync_io s x m k)

  step-Sound :
      (r : ℕ) (w : Wrapper) (s : Chan) (x : Step env w.sync_io s)
      → is_misread env x ≡ false
      → Sound r w
      → Sound (r + 0) (settle s w)
  step-Sound r w s x m k =
      Counts-Sound r (settle s w) (settle s w) (Counts-refl (settle s w)) (settled r s w x m k)

  active-Sound :
      (r : ℕ) (reads : List Read) (p : Progress) (w : Wrapper)
      → misreads env reads (record p { chan = w.sync_io }) ≡ false
      → Sound r w
      → Sound (r + 0) (Calls.on_active_ev env reads p w).0
  unfolding Calls.on_active_ev
  active-Sound r reads p w m k =
      let s = (read_chain env reads (record p { chan = w.sync_io })).chan in
      Counts-Sound r (settle s w) (settle s w) (Counts-refl (settle s w)) (
        settle-Within r s w
          (read_chain-Within env (r + total w) reads (record p { chan = w.sync_io }) m k))

  sending-Sound :
      (r : ℕ) (msg : MsgOut) (originating : Option MsgIn) (on_rsp : Option Expecting) (w : Wrapper)
      → Sound r w
      → let o = Send.checked_send env msg originating on_rsp w.sync_io in
        Sound (r + fatal o.err_code) (settle o.chan w)
  sending-Sound r msg originating on_rsp w k =
      let o = Send.checked_send env msg originating on_rsp w.sync_io in
      settle-Within (r + fatal o.err_code) o.chan w (record {
        bound =
            omega (arith, sending-due env (r + total w) msg originating on_rsp w.sync_io k.bound);
        proto = sending-proto env msg originating on_rsp w.sync_io ∙ k.proto;
      })

  request-due :
      (n : ℕ) (msg : MsgOut) (originating : Option MsgIn) (e : Expecting) (s : Chan)
      → n + due s ≤ allowed s
      → let o = Send.async_request env msg originating e s in
        n + fatal o.err_code + due o.chan ≤ allowed o.chan
  unfolding Send.async_request
  request-due n msg originating e s = sending-due env n msg originating (some e) s

  request-proto :
      (msg : MsgOut) (originating : Option MsgIn) (e : Expecting) (s : Chan)
      → (Send.async_request env msg originating e s).chan.proto_neg_err_code_or_ok
        ≡ s.proto_neg_err_code_or_ok
  unfolding Send.async_request
  request-proto msg originating e s = sending-proto env msg originating (some e) s

  begins-Sound :
      (r : ℕ) (msg : MsgOut) (originating : Option MsgIn) (w : Wrapper)
      → Sound r w
      → let b = Calls.begin_sync_request env msg originating w in
        Sound (r + fatal b.err_code) b.wrapper
  unfolding Calls.begin_sync_request begin_request
  begins-Sound r msg originating w k =
      let e : Expecting = record {
        one_expected = true;
        on_msg_func = encode (of_request w.sync_op_state_id);
      } in
      let sent = request-due (r + total w) msg originating e w.sync_io k.bound in
      let kept = request-proto msg originating e w.sync_io ∙ k.proto in
      record { bound = ground (arith, sent); proto = ground (arith, kept) }

  ends-Sound :
      (r : ℕ) (w : Wrapper) → Sound r w → Sound (r + held w.sync_op_state) (end_request w).0
  unfolding end_request
  ends-Sound r w k = record { bound = ground (arith, k.bound); proto = ground (arith, k.proto) }

  one_expected-Sound :
      (r h : ℕ) (w : Wrapper) (q : Chan × Bool × Option MsgIn) (x : Step env w.sync_io q.0)
      → is_misread env x ≡ false
      → Sound r w
      → Sound (r + 0) (one_expected h w q).0
  one_expected-Sound r h w (s, false, qd) x m k = step-Sound r w s x m k
  one_expected-Sound r h w (s, true, none) x m k = step-Sound r w s x m k
  one_expected-Sound r h w (s, true, some msg) x m k =
      Counts-Sound r (settle s w) _ (post-Counts (invoke h msg) (settle s w)) (settled r s w x m k)

  perform-Sound :
      (r : ℕ) (a : Action) (w : Wrapper)
      → misreads_by env a w ≡ false
      → Sound r w
      → Sound (r + returned_by env a w) (perform env a w)
  unfolding perform
  perform-Sound r (starts h) w m k = unfold Calls.start in step-Sound r w _ (starts_below h) refl k
  perform-Sound r (sends msg originating) w m k =
      unfold Calls.send in unfold Send.send in sending-Sound r msg originating none w k
  perform-Sound r (requests msg originating one_off h) w m k =
      unfold Calls.async_request in
      unfold Send.async_request in
      sending-Sound r msg originating
        (some (record { one_expected = one_off; on_msg_func = encode (around h) })) w k
  perform-Sound r (begins_request msg originating) w m k = begins-Sound r msg originating w k
  perform-Sound r ends_request w m k = ends-Sound r w k
  perform-Sound r (expects_one true which h) w m k =
      unfold Calls.expect_msg_impl in
      one_expected-Sound r h w _ (expects_one_below which (encode (around h)) none) refl k
  perform-Sound r (expects_one false which h) w m k =
      unfold Calls.expect_msg_impl in
      one_expected-Sound r h w _ (expects_log_in which (encode (around h)) none) refl k
  perform-Sound r (expects which h) w m k =
      unfold Calls.expect_msgs in
      let q = Expect.expect_msgs which (encode (around h)) [] w.sync_io in
      Counts-Sound r (settle q.chan w) _
        (many_expected-Counts h (settle q.chan w) q.returned q.qd_msgs)
        (settled r q.chan w (expects_below which (encode (around h)) []) refl k)
  perform-Sound r (forgets_msgs which) w m k =
      unfold Calls.undo_expect_msgs in step-Sound r w _ (forgets_msgs_below which) refl k
  perform-Sound r (forgets_responses id) w m k =
      unfold Calls.undo_expect_responses in step-Sound r w _ (forgets_responses_below id) refl k
  perform-Sound r (sets_unexpected h) w m k =
      unfold Calls.set_unexpected_response_handler in
      step-Sound r w _ (sets_unexpected_below h) refl k
  perform-Sound r unsets_unexpected w m k =
      unfold Calls.unset_unexpected_response_handler in
      step-Sound r w _ unsets_unexpected_below refl k
  perform-Sound r (sets_remote h) w m k =
      unfold Calls.set_remote_unexpected_response_handler in
      step-Sound r w _ (sets_remote_below h) refl k
  perform-Sound r unsets_remote w m k =
      unfold Calls.unset_remote_unexpected_response_handler in
      step-Sound r w _ unsets_remote_below refl k
  perform-Sound r (ends_sending answer h) w m k =
      unfold Calls.async_end_sending in
      Counts-Sound r w _ (begin-Counts w.snd_end_sending_on_done_func_or_empty answer h w) k
  perform-Sound r (sending_ended e) w m k =
      unfold Calls.on_end_sending in Counts-Sound r w _ (post-Counts (invoke_end_sending e) w) k
  perform-Sound r (becomes_active reads p) w m k = active-Sound r reads p w m k
  perform-Sound r (reads_negotiation neg read pipe g) w m k =
      unfold Calls.on_active_ev_proto_neg in
      let n = on_async_read_proto_neg_msg-Negotiates neg read pipe g w.sync_io in
      Counts-Sound r (settle _ w) (settle _ w) (Counts-refl (settle _ w))
        (settle-Within r _ w (Negotiates-Within (r + total w) w.sync_io _ n k))
  perform-Sound r runs_next w m k =
      unfold run_next in Counts-Sound r w _ (take_first-Counts w.worker w refl) k

  pub perform_all-Sound :
      (r : ℕ) (actions : List Action) (w : Wrapper)
      → misreads_all env actions w ≡ false
      → Sound r w
      → Sound (r + returned_all env actions w) (perform_all env actions w)
  unfolding perform_all
  perform_all-Sound r [] w m k = Counts-Sound r w w (Counts-refl w) k
  perform_all-Sound r (a ∷ rest) w m k =
      let (first, later) = neither (misreads_by env a w) _ m in
      let u = perform env a w in
      let next =
        perform_all-Sound (r + returned_by env a w) rest u later (perform-Sound r a w first k) in
      record { bound = omega (arith, next.bound); proto = next.proto }
