-- ===== src/Async/EndSending/Steps.antt =====
-- Each operation keeps what is owed to the caller of async_end_sending.
use mathlib.Core.List.{append-nil}
use ipc_transport_structured.Prelude.{
  ℕ, ◌≡◌, refl, sym, ap, ◌∙◌, subst, Bool, true, false, not, ◌||◌, Option, none, some, List, [],
  ◌∷◌, ◌++◌, arith, if◌then◌else◌, is_some,
}
use ipc_transport_structured.Error.{ErrorCode}
use ipc_transport_structured.Msg.MsgIn.{MsgIn}
use ipc_transport_structured.Chan.State.{on_msg, MsgOut, Env, Chan}
use ipc_transport_structured.Chan.Expect as Expect
use ipc_transport_structured.Async.State.{
  Posted, invoke, invoke_all, invoke_unexpected, invoke_remote_unexpected, invoke_error,
  invoke_end_sending, handler, end_sending_done, Wrapper, around, encode, post, call,
}
use ipc_transport_structured.Async.Worker.{
  settle, invoke_each, run_posted, end_sending, take_first, run_next,
}
use ipc_transport_structured.Async.Calls
use ipc_transport_structured.Async.Calls.{
  EndAnswer, refused, would_block, completed, new_channel, one_expected, many_expected,
  conclude_end_sending, core_end_sending, begin_end_sending,
}
use ipc_transport_structured.Async.Actions.{
  Action, starts, sends, requests, begins_request, ends_request, expects_one, expects, forgets_msgs,
  forgets_responses, sets_unexpected, unsets_unexpected, sets_remote, unsets_remote, ends_sending,
  sending_ended, becomes_active, reads_negotiation, runs_next, perform,
}
use ipc_transport_structured.Async.EndSending.{
  Asked, not_asked, waits, answered, answers, asks, accepted, ending, endings, endings-append,
  ended-append, Owes, nothing_taken, waiting, posted, told, Aside, Aside-refl, Aside-trans,
  Owes-Aside, post-Aside, settle-Aside, run_posted-Aside,
}
use ipc_transport_structured.Sync.{on_error, begin_request, end_request}

one_expected-Aside :
    (h : ℕ) (w : Wrapper) (r : Chan × Bool × Option MsgIn) → Aside w (one_expected h w r).0
one_expected-Aside h w (s, false, qd_msg) = settle-Aside s w
one_expected-Aside h w (s, true, none) = settle-Aside s w
one_expected-Aside h w (s, true, some m) =
    Aside-trans w (settle s w) _ (settle-Aside s w) (post-Aside (invoke h m) (settle s w) refl)

many_expected-Aside :
    (h : ℕ) (w : Wrapper) (b : Bool) (ms : List MsgIn) → Aside w (many_expected h w b ms).0
many_expected-Aside h w false ms = Aside-refl w
many_expected-Aside h w true [] = Aside-refl w
many_expected-Aside h w true (m ∷ ms) = post-Aside (invoke_all h (m ∷ ms)) w refl

expects-Aside : (which h : ℕ) (w : Wrapper) → Aside w (Calls.expect_msgs which h w).0
unfolding Calls.expect_msgs
expects-Aside which h w =
    let r = Expect.expect_msgs which (encode (around h)) [] w.sync_io in
    Aside-trans w (settle r.chan w) _ (settle-Aside r.chan w)
      (many_expected-Aside h (settle r.chan w) r.returned r.qd_msgs)

begins-Aside :
    (env : Env) (msg : MsgOut) (originating : Option MsgIn) (w : Wrapper)
    → Aside w (Calls.begin_sync_request env msg originating w).wrapper
unfolding Calls.begin_sync_request begin_request
begins-Aside env msg originating w = record {
  func = ground arith;
  worker = ground arith;
  calls = ground arith;
}

ends-Aside : (w : Wrapper) → Aside w (end_request w).0
unfolding end_request
ends-Aside w = record { func = ground arith; worker = ground arith; calls = ground arith }

-- Thread W runs the closure that the completion handler awaits.
end-Owes :
    (taken : List ℕ) (e : Option ErrorCode) (o : Option ℕ) (w : Wrapper) (k : Asked)
    → w.snd_end_sending_on_done_func_or_empty ≡ o
    → (rest : ℕ) → endings w.worker ≡ rest
    → Owes taken (record w { worker = invoke_end_sending e ∷ w.worker }) k
    → Owes taken (end_sending o e w) k
unfolding end_sending call
end-Owes taken e o w k q rest n (nothing_taken t c f z) = absurd (omega (arith, z))
end-Owes taken e o w k q rest n (waiting h t c f z) = absurd (omega (arith, z))
end-Owes taken e none w k q rest n (posted h t c f z) = absurd (cc)
end-Owes taken e (some g) w k q rest n (posted h t c f z) =
    let same : g ≡ h = ground (arith, f, q) in
    told h t
      (ended-append w.calls (end_sending_done g e ∷ [])
        ∙ ap (λ hs. hs ++ g ∷ []) c
        ∙ ap (λ x. x ∷ []) same)
      refl (omega (arith, z))
end-Owes taken e o w k q rest n (told h t c f z) = absurd (omega (arith, z))

other-Owes :
    (taken : List ℕ) (p : Posted) (ps : List Posted) (w : Wrapper) (k : Asked)
    → ending p ≡ 0
    → Owes taken (record w { worker = p ∷ ps }) k
    → Owes taken (run_posted p (record w { worker = ps })) k
other-Owes taken p ps w k z =
    let v : Wrapper = record w { worker = ps } in
    Owes-Aside taken (record w { worker = p ∷ ps }) (run_posted p v) k
      (Aside-trans (record w { worker = p ∷ ps }) v (run_posted p v)
        (record { func = refl; worker = omega (arith, z); calls = refl }) (run_posted-Aside p v z))

-- What is due counts the first closure; when that has been taken the rest is as it was.
pub taken-Owes :
    (taken : List ℕ) (p : Posted) (ps : List Posted) (w : Wrapper) (k : Asked)
    → Owes taken (record w { worker = p ∷ ps }) k
    → Owes taken (run_posted p (record w { worker = ps })) k
unfolding run_posted
taken-Owes taken (invoke_end_sending e) ps w k o =
    end-Owes taken e w.snd_end_sending_on_done_func_or_empty (record w { worker = ps }) k refl
      (endings ps) refl o
taken-Owes taken p ps w k o = other-Owes taken p ps w k refl o

next-Owes :
    (taken : List ℕ) (ps : List Posted) (w : Wrapper) (k : Asked)
    → w.worker ≡ ps
    → Owes taken w k
    → Owes taken (take_first ps w) k
next-Owes taken [] w k e o = o
next-Owes taken (p ∷ ps) w k e o =
    taken-Owes taken p ps w k (subst (λ qs. Owes taken (record w { worker = qs }) k) e o)

-- A closure that runs posts nothing.
invoke_each-worker :
    (h : ℕ) (ms : List MsgIn) (w : Wrapper) → (invoke_each h ms w).worker ≡ w.worker
unfolding invoke_each call
invoke_each-worker h [] w = refl
invoke_each-worker h (m ∷ ms) w = invoke_each-worker h ms (call (handler (on_msg h m)) w)

end_sending-worker :
    (o : Option ℕ) (e : Option ErrorCode) (w : Wrapper) → (end_sending o e w).worker ≡ w.worker
unfolding end_sending call
end_sending-worker none e w = refl
end_sending-worker (some h) e w = refl

pub run_posted-worker : (p : Posted) (w : Wrapper) → (run_posted p w).worker ≡ w.worker
unfolding run_posted call on_error
run_posted-worker (invoke h m) w = refl
run_posted-worker (invoke_all h ms) w = invoke_each-worker h ms w
run_posted-worker (invoke_unexpected h m) w = refl
run_posted-worker (invoke_remote_unexpected h id text) w = refl
run_posted-worker (invoke_error h e) w = ground arith
run_posted-worker (invoke_end_sending e) w =
    end_sending-worker w.snd_end_sending_on_done_func_or_empty e w

-- An operation that has nothing to do with the end of sending.
aside-Owes :
    (taken : List ℕ) (w u : Wrapper) (k k' : Asked)
    → Aside w u
    → some k ≡ some k'
    → Owes taken w k
    → Owes (taken ++ []) u k'
aside-Owes taken w u k k' a e o =
    let same : k ≡ k' = cc in
    subst (λ j. Owes (taken ++ []) u j) same
      (subst (λ ts. Owes ts u k) (sym (append-nil taken)) (Owes-Aside taken w u k a o))

conclude-Owes :
    (taken : List ℕ) (answer : EndAnswer) (h : ℕ) (w : Wrapper) (k k' : Asked)
    → w.snd_end_sending_on_done_func_or_empty ≡ none
    → answers answer k ≡ some k'
    → Owes taken w k
    → let r =
        conclude_end_sending answer (record w { snd_end_sending_on_done_func_or_empty = some h }) in
      Owes (taken ++ (if r.1 then h ∷ [] else [])) r.0 k'
unfolding post
conclude-Owes taken refused h w k k' n e o =
    aside-Owes taken w _ k k' (record { func = sym n; worker = refl; calls = refl }) e o
conclude-Owes taken would_block h w not_asked k' n e (nothing_taken t c f z) =
    subst (Owes _ _) (let same : waits ≡ k' = cc in same)
      (waiting h (ap (λ ts. ts ++ h ∷ []) t) c refl z)
conclude-Owes taken would_block h w waits k' n e o = absurd (cc)
conclude-Owes taken would_block h w answered k' n e o = absurd (cc)
conclude-Owes taken (completed c) h w not_asked k' n e (nothing_taken t d f z) =
    subst (Owes _ _) (let same : answered ≡ k' = cc in same) (
      posted h (ap (λ ts. ts ++ h ∷ []) t) d refl
        (omega (arith, endings-append w.worker (invoke_end_sending c ∷ []), z)))
conclude-Owes taken (completed c) h w waits k' n e o = absurd (cc)
conclude-Owes taken (completed c) h w answered k' n e o = absurd (cc)

begin-Owes :
    (taken : List ℕ) (func : Option ℕ) (answer : EndAnswer) (h : ℕ) (w : Wrapper) (k k' : Asked)
    → w.snd_end_sending_on_done_func_or_empty ≡ func
    → (if is_some func || not w.sync_io.started_ops then some k else answers answer k) ≡ some k'
    → Owes taken w k
    → let r = begin_end_sending func answer h w in
      Owes (taken ++ (if r.1 then h ∷ [] else [])) r.0 k'
unfolding core_end_sending
begin-Owes taken (some g) answer h w k k' f e o = aside-Owes taken w w k k' (Aside-refl w) e o
begin-Owes taken none answer h w k k' f e o =
    conclude-Owes taken (core_end_sending answer w.sync_io) h w k k' f (ground arith) o

ends-Owes :
    (taken : List ℕ) (answer : EndAnswer) (h : ℕ) (w : Wrapper) (k k' : Asked)
    → asks (ends_sending answer h) w k ≡ some k'
    → Owes taken w k
    → Owes (taken ++ accepted (ends_sending answer h) w) (Calls.async_end_sending answer h w).0 k'
unfolding Calls.async_end_sending
ends-Owes taken answer h w k k' =
    begin-Owes taken w.snd_end_sending_on_done_func_or_empty answer h w k k' refl

completes-Owes :
    (taken : List ℕ) (c : Option ErrorCode) (w : Wrapper) (k k' : Asked)
    → asks (sending_ended c) w k ≡ some k'
    → Owes taken w k
    → Owes (taken ++ []) (Calls.on_end_sending c w) k'
unfolding Calls.on_end_sending post
completes-Owes taken c w not_asked k' e o = absurd (cc)
completes-Owes taken c w answered k' e o = absurd (cc)
completes-Owes taken c w waits k' e (waiting h t d f z) =
    subst (Owes _ _) (let same : answered ≡ k' = cc in same) (
      posted h (append-nil taken ∙ t) d f
        (omega (arith, endings-append w.worker (invoke_end_sending c ∷ []), z)))

module _ (env : Env) where
  pub perform-Owes :
      (taken : List ℕ) (a : Action) (w : Wrapper) (k k' : Asked)
      → asks a w k ≡ some k'
      → Owes taken w k
      → Owes (taken ++ accepted a w) (perform env a w) k'
  unfolding perform
  perform-Owes taken (starts h) w k k' =
      unfold Calls.start in aside-Owes taken w _ k k' (settle-Aside _ w)
  perform-Owes taken (sends msg originating) w k k' =
      unfold Calls.send in aside-Owes taken w _ k k' (settle-Aside _ w)
  perform-Owes taken (requests msg originating one_off h) w k k' =
      unfold Calls.async_request in aside-Owes taken w _ k k' (settle-Aside _ w)
  perform-Owes taken (begins_request msg originating) w k k' =
      aside-Owes taken w _ k k' (begins-Aside env msg originating w)
  perform-Owes taken ends_request w k k' = aside-Owes taken w _ k k' (ends-Aside w)
  perform-Owes taken (expects_one msg_else_log_in which h) w k k' =
      unfold Calls.expect_msg_impl in aside-Owes taken w _ k k' (one_expected-Aside h w _)
  perform-Owes taken (expects which h) w k k' = aside-Owes taken w _ k k' (expects-Aside which h w)
  perform-Owes taken (forgets_msgs which) w k k' =
      unfold Calls.undo_expect_msgs in aside-Owes taken w _ k k' (settle-Aside _ w)
  perform-Owes taken (forgets_responses id) w k k' =
      unfold Calls.undo_expect_responses in aside-Owes taken w _ k k' (settle-Aside _ w)
  perform-Owes taken (sets_unexpected h) w k k' =
      unfold Calls.set_unexpected_response_handler in aside-Owes taken w _ k k' (settle-Aside _ w)
  perform-Owes taken unsets_unexpected w k k' =
      unfold Calls.unset_unexpected_response_handler in aside-Owes taken w _ k k' (settle-Aside _ w)
  perform-Owes taken (sets_remote h) w k k' =
      unfold Calls.set_remote_unexpected_response_handler in
      aside-Owes taken w _ k k' (settle-Aside _ w)
  perform-Owes taken unsets_remote w k k' =
      unfold Calls.unset_remote_unexpected_response_handler in
      aside-Owes taken w _ k k' (settle-Aside _ w)
  perform-Owes taken (ends_sending answer h) w k k' = ends-Owes taken answer h w k k'
  perform-Owes taken (sending_ended c) w k k' = completes-Owes taken c w k k'
  perform-Owes taken (becomes_active reads p) w k k' =
      unfold Calls.on_active_ev in aside-Owes taken w _ k k' (settle-Aside _ w)
  perform-Owes taken (reads_negotiation neg r pipe g) w k k' =
      unfold Calls.on_active_ev_proto_neg in aside-Owes taken w _ k k' (settle-Aside _ w)
  perform-Owes taken runs_next w k k' =
      unfold run_next in
      λ e o. subst (Owes (taken ++ []) (take_first w.worker w)) (let same : k ≡ k' = cc in same) (
        subst (λ ts. Owes ts (take_first w.worker w) k) (sym (append-nil taken))
          (next-Owes taken w.worker w k refl o))
