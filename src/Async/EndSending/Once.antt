-- ===== src/Async/EndSending/Once.antt =====
-- Every completion handler that async_end_sending takes over is called, once.
use mathlib.Core.List.{append-nil, append_assoc}
use ipc_transport_structured.Prelude.{
  ℕ, ◌≡◌, refl, sym, ap, ◌∙◌, subst, inl, inr, Option, none, some, List, [], ◌∷◌, ◌++◌, arith,
  Option-cases,
}
use ipc_transport_structured.Error.{object_shutdown_aborted_completion_handler}
use ipc_transport_structured.Chan.State.{Env, Chan}
use ipc_transport_structured.Chan.Start.{Negotiators}
use ipc_transport_structured.Async.State.{Posted, end_sending_done, Wrapper, call}
use ipc_transport_structured.Async.Worker.{run_posted, run_all_posted, abort_end_sending, destroy}
use ipc_transport_structured.Async.Calls.{new_channel}
use ipc_transport_structured.Async.Actions.{Action, perform, perform_all}
use ipc_transport_structured.Async.EndSending.{
  Asked, not_asked, asks, accepted, ended, ended-append, endings, Owes, nothing_taken, waiting,
  posted, told,
}
use ipc_transport_structured.Async.EndSending.Steps.{run_posted-worker, taken-Owes, perform-Owes}

module _ (env : Env) where
  -- What the owned channel has been asked in the end, unless it breaks its word on the way.
  abbrev pub asks_all : List Action → Wrapper → Asked → Option Asked
  asks_all [] w k = some k
  asks_all (a ∷ rest) w k =
      let next = asks_all rest (perform env a w) in
      elim (asks a w k) [ none ↦ none | some k' ↦ next k' ]

  abbrev pub accepted_all : List Action → Wrapper → List ℕ
  accepted_all [] w = []
  accepted_all (a ∷ rest) w = accepted a w ++ accepted_all rest (perform env a w)

  perform_all-Owes :
      (taken : List ℕ) (actions : List Action) (w : Wrapper) (k k' : Asked)
      → asks_all actions w k ≡ some k'
      → Owes taken w k
      → Owes (taken ++ accepted_all actions w) (perform_all env actions w) k'
  unfolding perform_all
  perform_all-Owes taken [] w k k' e o =
      let same : k ≡ k' = cc in
      subst (λ j. Owes (taken ++ []) w j) same
        (subst (λ ts. Owes ts w k) (sym (append-nil taken)) o)
  perform_all-Owes taken (a ∷ rest) w k k' e o = elim (Option-cases (asks a w k)) [
    | inl broken ↦ absurd (ground (arith, broken, e))
    | inr (j, kept) ↦
        subst (λ ts. Owes ts (perform_all env rest (perform env a w)) k')
          (append_assoc taken (accepted a w) (accepted_all rest (perform env a w)))
          (perform_all-Owes (taken ++ accepted a w) rest (perform env a w) j k'
            (rw (kept, asks_all) at e) (perform-Owes env taken a w k j kept o))
  ]

-- Nothing is posted when all has run.
run_all_posted-Owes :
    (taken : List ℕ) (ps : List Posted) (w : Wrapper) (k : Asked)
    → w.worker ≡ ps
    → Owes taken w k
    → Owes taken (run_all_posted ps w) k × ((run_all_posted ps w).worker ≡ [])
unfolding run_all_posted
run_all_posted-Owes taken [] w k e o = (o, e)
run_all_posted-Owes taken (p ∷ ps) w k e o =
    run_all_posted-Owes taken ps (run_posted p (record w { worker = ps })) k
      (run_posted-worker p (record w { worker = ps }))
      (taken-Owes taken p ps w k (subst (λ qs. Owes taken (record w { worker = qs }) k) e o))

-- With an empty queue, the abort pays what is still owed.
abort-paid :
    (taken : List ℕ) (func : Option ℕ) (w : Wrapper) (k : Asked)
    → w.snd_end_sending_on_done_func_or_empty ≡ func
    → w.worker ≡ []
    → Owes taken w k
    → ended (abort_end_sending func w).calls ≡ taken
unfolding call
abort-paid taken none w k f q (nothing_taken t e g z) = e ∙ sym t
abort-paid taken none w k f q (told h t e g z) = e ∙ sym t
abort-paid taken none w k f q (waiting h t e g z) = absurd (cc)
abort-paid taken none w k f q (posted h t e g z) = absurd (cc)
abort-paid taken (some c) w k f q (waiting h t e g z) =
    ended-append w.calls (end_sending_done c (some object_shutdown_aborted_completion_handler) ∷ [])
    ∙ ap (λ hs. hs ++ c ∷ []) e
    ∙ (let same : c ≡ h = ground (arith, f, g) in ap (λ x. x ∷ []) same)
    ∙ sym t
abort-paid taken (some c) w k f q (nothing_taken t e g z) = absurd (cc)
abort-paid taken (some c) w k f q (told h t e g z) = absurd (cc)
abort-paid taken (some c) w k f q (posted h t e g z) = absurd (omega (arith, ap endings q, z))

module _ (env : Env) where
  -- If the owned channel keeps its word, every completion handler of an end of sending that was taken
  -- over has been called exactly once when the channel has been destroyed, and no other has, whatever
  -- else was called and read and whenever thread W ran.
  pub destroy-ended :
      (neg : Negotiators) (s : Chan) (actions : List Action) (k : Asked)
      → asks_all env actions (new_channel env neg s) not_asked ≡ some k
      → let w = new_channel env neg s in
        ended (destroy (perform_all env actions w)).calls ≡ accepted_all env actions w
  unfolding destroy new_channel
  destroy-ended neg s actions k e =
      let w = new_channel env neg s in
      let t = perform_all env actions w in
      let u = run_all_posted t.worker t in
      let owed =
        perform_all-Owes env [] actions w not_asked k e (nothing_taken refl refl refl refl) in
      let (paid, empty) = run_all_posted-Owes (accepted_all env actions w) t.worker t k refl owed in
      abort-paid (accepted_all env actions w) u.snd_end_sending_on_done_func_or_empty u k refl empty
        paid
