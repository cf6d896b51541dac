-- ===== src/Async/Direct/Refines.antt =====
-- The channel with a thread refines the direct channel, operation by operation.
use mathlib.Core.List.{append-nil}
use ipc_transport_structured.Prelude.{
  ℕ, ◌≡◌, refl, sym, ap, ◌∙◌, Bool, true, false, Option, none, some, List, [], ◌∷◌, ◌++◌, arith,
  either_branch,
}
use ipc_transport_structured.Msg.MsgIn.{MsgIn}
use ipc_transport_structured.Chan.State.{MsgOut, Env, Chan}
use ipc_transport_structured.Chan.Expect as Expect
use ipc_transport_structured.Async.State.{
  Wrapper, around, encode, invoke, invoke_all, invoke_end_sending,
}
use ipc_transport_structured.Async.Worker.{settle}
use ipc_transport_structured.Async.Calls
use ipc_transport_structured.Async.Calls.{
  EndAnswer, refused, would_block, completed, one_expected, many_expected, conclude_end_sending,
  begin_end_sending, core_end_sending,
}
use ipc_transport_structured.Async.Actions.{
  Action, starts, sends, requests, begins_request, ends_request, expects_one, expects, forgets_msgs,
  forgets_responses, sets_unexpected, unsets_unexpected, sets_remote, unsets_remote, ends_sending,
  sending_ended, becomes_active, reads_negotiation, runs_next, perform, perform_all,
}
use ipc_transport_structured.Async.Direct.{Direct, given, given_one, given_many, direct, direct_all}
use ipc_transport_structured.Async.Direct.Thread.{
  abstract, abstract-post, abstract-settle, abstract-run_next,
}
use ipc_transport_structured.Sync.{Begun, begin_request, end_request}

heard-nil : (w : Wrapper) → record (abstract w) { heard = (abstract w).heard ++ [] } ≡ abstract w
heard-nil w = ap (λ es. record (abstract w) { heard = es }) (append-nil (abstract w).heard)

expected-given :
    (h : ℕ) (w : Wrapper) (r : Chan × Bool × Option MsgIn)
    → abstract (one_expected h w r).0 ≡ given_one h r (abstract w)
unfolding given
expected-given h w (s, false, qd_msg) = abstract-settle s w
expected-given h w (s, true, none) = abstract-settle s w
expected-given h w (s, true, some m) =
    abstract-post (invoke h m) (settle s w) ∙ ap (given h (m ∷ [])) (abstract-settle s w)

many-given :
    (h : ℕ) (w : Wrapper) (b : Bool) (ms : List MsgIn)
    → abstract (many_expected h w b ms).0 ≡ given_many h b ms (abstract w)
unfolding given
many-given h w false ms = refl
many-given h w true [] = sym (heard-nil w)
many-given h w true (m ∷ ms) = abstract-post (invoke_all h (m ∷ ms)) w

silent-end :
    (answer : EndAnswer) (w : Wrapper) → abstract (conclude_end_sending answer w).0 ≡ abstract w
silent-end refused w = refl
silent-end would_block w = refl
silent-end (completed e) w = abstract-post (invoke_end_sending e) w ∙ heard-nil w

begun-end :
    (o : Option ℕ) (answer : EndAnswer) (h : ℕ) (w : Wrapper)
    → abstract (begin_end_sending o answer h w).0 ≡ abstract w
begun-end (some g) answer h w = refl
begun-end none answer h w =
    silent-end (core_end_sending answer w.sync_io)
      (record w { snd_end_sending_on_done_func_or_empty = some h })

module _ (env : Env) where
  begun-request :
      (msg : MsgOut) (originating : Option MsgIn) (w : Wrapper)
      → abstract (Calls.begin_sync_request env msg originating w).wrapper
        ≡ direct env (begins_request msg originating) (abstract w)
  unfolding direct Calls.begin_sync_request begin_request
  begun-request msg originating w =
      either_branch
        (λ (b : Begun).
          abstract b.wrapper ≡ direct env (begins_request msg originating) (abstract w))
        _ refl refl

  -- Each operation does to the direct channel what the direct channel does.
  pub perform-refines :
      (a : Action) (w : Wrapper) → abstract (perform env a w) ≡ direct env a (abstract w)
  unfolding perform direct
  perform-refines (starts h) w = unfold Calls.start in abstract-settle _ w
  perform-refines (sends msg originating) w = unfold Calls.send in abstract-settle _ w
  perform-refines (requests msg originating one_off h) w =
      unfold Calls.async_request in abstract-settle _ w
  perform-refines (begins_request msg originating) w = begun-request msg originating w
  perform-refines ends_request w = unfold end_request in ground arith
  perform-refines (expects_one msg_else_log_in which h) w =
      unfold Calls.expect_msg_impl in expected-given h w _
  perform-refines (expects which h) w =
      unfold Calls.expect_msgs in
      let r = Expect.expect_msgs which (encode (around h)) [] w.sync_io in
      many-given h (settle r.chan w) r.returned r.qd_msgs
      ∙ ap (given_many h r.returned r.qd_msgs) (abstract-settle r.chan w)
  perform-refines (forgets_msgs which) w = unfold Calls.undo_expect_msgs in abstract-settle _ w
  perform-refines (forgets_responses id) w =
      unfold Calls.undo_expect_responses in abstract-settle _ w
  perform-refines (sets_unexpected h) w =
      unfold Calls.set_unexpected_response_handler in abstract-settle _ w
  perform-refines unsets_unexpected w =
      unfold Calls.unset_unexpected_response_handler in abstract-settle _ w
  perform-refines (sets_remote h) w =
      unfold Calls.set_remote_unexpected_response_handler in abstract-settle _ w
  perform-refines unsets_remote w =
      unfold Calls.unset_remote_unexpected_response_handler in abstract-settle _ w
  perform-refines (ends_sending answer h) w =
      unfold Calls.async_end_sending in begun-end w.snd_end_sending_on_done_func_or_empty answer h w
  perform-refines (sending_ended e) w =
      unfold Calls.on_end_sending in abstract-post (invoke_end_sending e) w ∙ heard-nil w
  perform-refines (becomes_active reads p) w = unfold Calls.on_active_ev in abstract-settle _ w
  perform-refines (reads_negotiation neg r pipe g) w =
      unfold Calls.on_active_ev_proto_neg in abstract-settle _ w
  perform-refines runs_next w = abstract-run_next w

  pub perform_all-refines :
      (actions : List Action) (w : Wrapper)
      → abstract (perform_all env actions w) ≡ direct_all env actions (abstract w)
  unfolding perform_all direct_all
  perform_all-refines [] w = refl
  perform_all-refines (a ∷ rest) w =
      perform_all-refines rest (perform env a w) ∙ ap (direct_all env rest) (perform-refines a w)
