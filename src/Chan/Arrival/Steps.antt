-- ===== src/Chan/Arrival/Steps.antt =====
-- One arrival: the message that is next, or one ahead of its turn; what it keeps of the conditions,
-- and how it goes before the arrivals that follow.
use mathlib.Core.List.{append_assoc, perm_middle, perm_append_comm}
use mathlib.Core.List.Perm
use ipc_transport_structured.Prelude.{
  ℕ, suc, ◌+◌, ◌≤◌, ◌<◌, ◌≡◌, ◌≢◌, refl, sym, ap, ◌∙◌, true, none, List, [], ◌∷◌, ◌++◌, arith,
  length, map, Perm, All, length-append, subst,
}
use ipc_transport_structured.Prelude.Map.{Map, find, insert_ordered}
use ipc_transport_structured.Msg.MsgIn.{MsgIn, id_or_none}
use ipc_transport_structured.Chan.State.{Env, Chan, id_mod}
use ipc_transport_structured.Chan.Frame.{with_queue}
use ipc_transport_structured.Chan.Reassembly.{
  run, rest, Above, queued, run-IsConsecutive, rest-Above, run-append-rest, insert_ordered-Above,
  insert_ordered-perm, run_skips, find-insert_ordered, length-insert_ordered, length-run-rest,
}
use ipc_transport_structured.Chan.Order.{
  opened, IsFine, opened_keeps, dispatch_all, new_msg_in-next, new_msg_in-ahead,
  dispatch_all-with_queue, with_queue-with_queue,
}
use ipc_transport_structured.Chan.Arrival.{
  unless_failed, arrivals, IsReassembling, CanArrive, dispatch_all-SameBase, dispatch_all-phase,
  dispatch_all-append, IsConsecutive-append, Settled,
}

-- What an id at the front of the queue's turn means for the ids still to come.
skips :
    (p : ℕ) (q : Map MsgIn) (ms : List MsgIn)
    → Above p q
    → All (λ m. p ≤ id_or_none m) ms
    → All (λ m. find (id_or_none m) q ≡ none) ms
    → All (λ m. p ≢ id_or_none m) ms
    → All (λ m. p + 1 + length (run (p + 1) q) ≤ id_or_none m) ms
      × All (λ m. find (id_or_none m) (rest (p + 1) q) ≡ none) ms
skips p q [] a g u d = (tt, tt)
skips p q (m ∷ ms) a g u d =
    let here = run_skips p (p + 1) (id_or_none m) q refl a u.0 (omega (arith, g.0, d.0)) in
    let later = skips p q ms a g.1 u.1 d.1 in ((here.0, later.0), (here.1, later.1))

unseen-insert_ordered :
    (k : ℕ) (w : MsgIn) (q : Map MsgIn) (ms : List MsgIn)
    → All (λ m. k ≢ id_or_none m) ms
    → All (λ m. find (id_or_none m) q ≡ none) ms
    → All (λ m. find (id_or_none m) (insert_ordered k w q) ≡ none) ms
unseen-insert_ordered k w q [] d u = tt
unseen-insert_ordered k w q (m ∷ ms) d u =
    (find-insert_ordered k (id_or_none m) w q d.0 u.0, unseen-insert_ordered k w q ms d.1 u.1)

dispatch_all_over :
    (env : Env) (ys : List MsgIn) (q left : Map MsgIn) (n k j : ℕ) (s : Chan)
    → k ≡ j
    → with_queue left k (dispatch_all env ys (with_queue q n s))
      ≡ with_queue left j (dispatch_all env ys s)
dispatch_all_over env ys q left n k j s e =
    rw (dispatch_all-with_queue env ys q n s, e) (with_queue-with_queue left q j n _)

dispatch_all_twice :
    (env : Env) (xs ys : List MsgIn) (q left : Map MsgIn) (n k j : ℕ) (s : Chan)
    → k ≡ j
    → with_queue left k (dispatch_all env ys (with_queue q n (dispatch_all env xs s)))
      ≡ with_queue left j (dispatch_all env (xs ++ ys) s)
dispatch_all_twice env xs ys q left n k j s e =
    dispatch_all_over env ys q left n k j (dispatch_all env xs s) e
    ∙ ap (with_queue left j) (sym (dispatch_all-append env xs ys s))

perm_swap_front {ℓ} : {A : Type ℓ} (xs ys zs : List A) → Perm (xs ++ (ys ++ zs)) (ys ++ (xs ++ zs))
perm_swap_front xs ys zs =
    rw (← append_assoc xs ys zs, ← append_assoc ys xs zs)
      (Perm.append_right zs (perm_append_comm xs ys))

module _ (env : Env) (m : MsgIn) (ms : List MsgIn) (s : Chan) (r : IsReassembling env s)
    (c : CanArrive env s (m ∷ ms)) where
  -- The state after the message that is next, and after one ahead of its turn.
  unfoldable pub next_state : Chan
  next_state =
      with_queue (rest (s.rcv_msg_next_id + 1) s.rcv_reassembly_q)
        (s.rcv_msg_next_id + 1 + length (run (s.rcv_msg_next_id + 1) s.rcv_reassembly_q))
        (dispatch_all env (opened env m ∷ run (s.rcv_msg_next_id + 1) s.rcv_reassembly_q) s)

  unfoldable pub ahead_state : Chan
  ahead_state =
      with_queue (insert_ordered (id_or_none m) (opened env m) s.rcv_reassembly_q) s.rcv_msg_next_id
        s

  pub next_state-IsReassembling : IsReassembling env next_state
  unfolding next_state with_queue
  next_state-IsReassembling = record {
    pipes = r.pipes;
    phase = dispatch_all-phase env _ s r.proto r.phase;
    proto = (dispatch_all-SameBase env _ s).proto ∙ r.proto;
    queue = rest-Above s.rcv_msg_next_id _ s.rcv_reassembly_q refl r.queue;
  }

  pub next_state-CanArrive : id_or_none m ≡ s.rcv_msg_next_id → CanArrive env next_state ms
  unfolding next_state with_queue
  next_state-CanArrive e =
      let skipped =
        skips s.rcv_msg_next_id s.rcv_reassembly_q ms r.queue c.ahead.1 c.unseen.1
          (subst (λ k. All (λ w. k ≢ id_or_none w) ms) e c.distinct.0) in
      let same =
        (dispatch_all-SameBase env (opened env m ∷ run (s.rcv_msg_next_id + 1) s.rcv_reassembly_q)
          s).token in
      record {
        fine = subst (λ k. All (IsFine env k) ms) (sym same) c.fine.1;
        ahead = skipped.0;
        unseen = skipped.1;
        distinct = c.distinct.1;
        room = omega (arith, c.room, length-run-rest (s.rcv_msg_next_id + 1) s.rcv_reassembly_q);
      }

  pub ahead_state-IsReassembling : s.rcv_msg_next_id < id_or_none m → IsReassembling env ahead_state
  unfolding ahead_state with_queue
  ahead_state-IsReassembling h = record {
    pipes = r.pipes;
    phase = r.phase;
    proto = r.proto;
    queue =
        insert_ordered-Above s.rcv_msg_next_id (id_or_none m) (opened env m) s.rcv_reassembly_q h
          (sym (opened_keeps env m).0) c.unseen.0 r.queue;
  }

  pub ahead_state-CanArrive : CanArrive env ahead_state ms
  unfolding ahead_state with_queue
  ahead_state-CanArrive = record {
    fine = c.fine.1;
    ahead = c.ahead.1;
    unseen =
        unseen-insert_ordered (id_or_none m) (opened env m) s.rcv_reassembly_q ms c.distinct.0
          c.unseen.1;
    distinct = c.distinct.1;
    room =
        omega
          (arith, c.room, length-insert_ordered (id_or_none m) (opened env m) s.rcv_reassembly_q);
  }

  pub next_state-Settled :
      id_or_none m ≡ s.rcv_msg_next_id → Settled env ms next_state → Settled env (m ∷ ms) s
  unfolding next_state arrivals
  next_state-Settled e t =
      let n = s.rcv_msg_next_id + 1 in
      let o = opened env m in
      let front = run n s.rcv_reassembly_q in
      let at : next_state.rcv_msg_next_id ≡ n + length front = unfold with_queue in refl in
      let here : next_state.rcv_reassembly_q ≡ rest n s.rcv_reassembly_q =
        unfold with_queue in refl in
      let shift : s.rcv_msg_next_id + suc (length front) ≡ next_state.rcv_msg_next_id =
        omega (arith, at) in
      let total : next_state.rcv_msg_next_id + length t.out
          ≡ s.rcv_msg_next_id + length ((o ∷ front) ++ t.out) =
        omega (arith, at, length-append (o ∷ front) t.out) in
      let room : s.rcv_msg_next_id + 1 + length s.rcv_reassembly_q < id_mod =
        omega (arith, c.room) in
      record {
        out = (o ∷ front) ++ t.out;
        left = t.left;
        outcome =
            ap (λ x. unless_failed x (arrivals env ms))
              (new_msg_in-next env m s c.fine.0 r.phase r.pipes e room)
            ∙ t.outcome
            ∙ ap (λ (u : Chan). (u, true))
                (dispatch_all_twice env (o ∷ front) t.out _ t.left _ _ _ s total);
        consecutive =
            IsConsecutive-append s.rcv_msg_next_id (o ∷ front) t.out
              ((opened_keeps env m).0 ∙ e, run-IsConsecutive n s.rcv_msg_next_id _ r.queue)
              (rw shift t.consecutive);
        beyond = subst (λ k. Above k t.left) total t.beyond;
        conserved = rw (append_assoc front t.out (queued t.left)) (
            Perm.cons o (
              Perm.trans (Perm.append_left front t.conserved) (
                rw here (
                  Perm.trans
                    (perm_swap_front front (map (opened env) ms)
                      (queued (rest n s.rcv_reassembly_q)))
                    (rw (run-append-rest n s.rcv_reassembly_q) Perm.rfl)))));
      }

  pub ahead_state-Settled :
      s.rcv_msg_next_id < id_or_none m → Settled env ms ahead_state → Settled env (m ∷ ms) s
  unfolding ahead_state arrivals
  ahead_state-Settled h t =
      let o = opened env m in
      let at : ahead_state.rcv_msg_next_id ≡ s.rcv_msg_next_id = unfold with_queue in refl in
      let here : ahead_state.rcv_reassembly_q ≡ insert_ordered (id_or_none m) o s.rcv_reassembly_q =
        unfold with_queue in refl in
      let total : ahead_state.rcv_msg_next_id + length t.out ≡ s.rcv_msg_next_id + length t.out =
        omega (arith, at) in
      record {
        out = t.out;
        left = t.left;
        outcome =
            ap (λ x. unless_failed x (arrivals env ms))
              (new_msg_in-ahead env m s c.fine.0 r.phase r.pipes h c.unseen.0)
            ∙ t.outcome
            ∙ ap (λ (u : Chan). (u, true)) (dispatch_all_over env t.out _ t.left _ _ _ s total);
        consecutive = rw (← at) t.consecutive;
        beyond = subst (λ k. Above k t.left) total t.beyond;
        conserved = Perm.trans t.conserved (
            rw here (
              Perm.trans
                (Perm.append_left (map (opened env) ms)
                  (insert_ordered-perm (id_or_none m) o s.rcv_reassembly_q))
                (perm_middle (map (opened env) ms) (queued s.rcv_reassembly_q))));
      }
