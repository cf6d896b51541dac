-- ===== src/Chan/Weave/Step.antt =====
-- One message among those that are handled with the handlers run in between.
use mathlib.Core.List.{append-nil, append_assoc, map-append}
use ipc_transport_structured.Prelude.{
  ℕ, ◌+◌, ◌<◌, ◌≡◌, refl, sym, ap, ◌∙◌, true, List, [], ◌∷◌, ◌++◌, arith, ◌==◌, length, Bool-cases,
  inl, inr, map, All, subst, ltb,
}
use ipc_transport_structured.Prelude.Map.{Map, insert_ordered}
use ipc_transport_structured.Msg.MsgIn.{MsgIn, id_or_none}
use ipc_transport_structured.Chan.State.{Env, Chan, deliver, on_msg, id_mod}
use ipc_transport_structured.Chan.Handlers.{handlers_poll}
use ipc_transport_structured.Chan.Receive.{new_msg_in}
use ipc_transport_structured.Chan.Frame.{with_queue}
use ipc_transport_structured.Chan.Reassembly.{run, rest, queued}
use ipc_transport_structured.Chan.Order.{opened, new_msg_in-next, new_msg_in-ahead}
use ipc_transport_structured.Chan.Pending.{IsUnsolicited}
use ipc_transport_structured.Chan.Arrival.{IsReassembling, CanArrive}
use ipc_transport_structured.Chan.Arrival.Steps.{
  next_state, ahead_state, next_state-IsReassembling, next_state-CanArrive,
  ahead_state-IsReassembling, ahead_state-CanArrive,
}
use ipc_transport_structured.Chan.Weave.Poll.{
  told, Expects, handlers_poll-told, dispatch_all-posted,
}

-- The next state without the handlers run, `t`, and the messages that are posted there.
pub record Taken (env : Env) (h which : ℕ) (m : MsgIn) (ms zs : List MsgIn) (s : Chan)
    : Type 0 where
  pub t : Chan
  pub posted : List MsgIn
  pub plain : new_msg_in env m s ≡ (t, true)
  pub accepted : (new_msg_in env m (told h zs s)).1 ≡ true
  pub moved : handlers_poll (new_msg_in env m (told h zs s)).0 ≡ told h posted t
  pub expects : Expects h which posted t
  pub reassembling : IsReassembling env t
  pub arriving : CanArrive env t ms

run-kinds :
    (which n : ℕ) (q : Map MsgIn)
    → All (IsUnsolicited which) (queued q)
    → All (IsUnsolicited which) (run n q) × All (IsUnsolicited which) (queued (rest n q))
run-kinds which n [] a = (tt, tt)
run-kinds which n ((k, m) ∷ q) a =
    let more = run-kinds which (n + 1) q a.1 in
    elim (Bool-cases (k == n)) [
      | inl hit ↦ rw hit ((a.0, more.0), more.1)
      | inr miss ↦ rw miss (tt, a)
    ]

insert_ordered-kinds :
    (which k : ℕ) (m : MsgIn) (q : Map MsgIn)
    → IsUnsolicited which m
    → All (IsUnsolicited which) (queued q)
    → All (IsUnsolicited which) (queued (insert_ordered k m q))
unfolding insert_ordered
insert_ordered-kinds which k m [] u a = (u, tt)
insert_ordered-kinds which k m ((j, w) ∷ q) u a = elim (Bool-cases (ltb k j)) [
  | inl before ↦ rw before (u, a)
  | inr behind ↦ rw behind (a.0, insert_ordered-kinds which k m q u a.1)
]

module _ (env : Env) (h which : ℕ) (m : MsgIn) (ms zs : List MsgIn) (s : Chan)
    (r : IsReassembling env s) (c : CanArrive env s (m ∷ ms)) (x : Expects h which zs s)
    (u : IsUnsolicited which (opened env m)) where
  calls-append :
      (xs : List MsgIn)
      → (s.events ++ map (on_msg h) zs) ++ map (on_msg h) xs ≡ s.events ++ map (on_msg h) (zs ++ xs)
  calls-append xs =
      append_assoc s.events (map (on_msg h) zs) (map (on_msg h) xs)
      ∙ ap (λ es. s.events ++ es) (sym (map-append (on_msg h) zs xs))

  next-Taken : id_or_none m ≡ s.rcv_msg_next_id → Taken env h which m ms zs s
  unfolding with_queue
  next-Taken e =
      let n = s.rcv_msg_next_id + 1 in
      let q = s.rcv_reassembly_q in
      let xs = opened env m ∷ run n q in
      let kinds = run-kinds which n q x.kinds in
      let room : s.rcv_msg_next_id + 1 + length q < id_mod = omega (arith, c.room) in
      let at = n + length (run n q) in
      let posted : next_state env m ms s r c
          ≡ with_queue (rest n q) at (record s { sync_io_handlers = map (deliver h) (zs ++ xs) }) =
        unfold next_state in
        ap (with_queue (rest n q) at) (
          dispatch_all-posted env h which xs s x.awaited (u, kinds.0)
          ∙ ap (λ ts. record s { sync_io_handlers = ts })
              (ap (λ ts. ts ++ map (deliver h) xs) x.posted
                ∙ sym (map-append (deliver h) zs xs))) in
      let here : new_msg_in env m (told h zs s) ≡ (
        with_queue (rest n q) at (record (told h zs s) { sync_io_handlers = map (deliver h) xs }),
        true,
      ) =
        new_msg_in-next env m (told h zs s) c.fine.0 r.phase r.pipes e room
        ∙ ap (λ v. (with_queue (rest n q) at v, true))
            (dispatch_all-posted env h which xs (told h zs s) x.awaited (u, kinds.0)) in
      record {
        t = next_state env m ms s r c;
        posted = zs ++ xs;
        plain = unfold next_state in new_msg_in-next env m s c.fine.0 r.phase r.pipes e room;
        accepted = ap (λ v. v.1) here;
        moved =
            ap (λ v. handlers_poll v.0) here
            ∙ handlers_poll-told h xs _ refl
            ∙ ap
                (λ es. record s {
                  rcv_reassembly_q = rest n q;
                  rcv_msg_next_id = at;
                  sync_io_handlers = [];
                  events = es;
                })
                (calls-append xs)
            ∙ ap (told h (zs ++ xs)) (sym posted);
        expects =
            subst (Expects h which (zs ++ xs)) (sym posted)
              (record { posted = refl; err = x.err; awaited = x.awaited; kinds = kinds.1 });
        reassembling = next_state-IsReassembling env m ms s r c;
        arriving = next_state-CanArrive env m ms s r c e;
      }

  ahead-Taken : s.rcv_msg_next_id < id_or_none m → Taken env h which m ms zs s
  unfolding with_queue ahead_state
  ahead-Taken a =
      let q = insert_ordered (id_or_none m) (opened env m) s.rcv_reassembly_q in
      let here = new_msg_in-ahead env m (told h zs s) c.fine.0 r.phase r.pipes a c.unseen.0 in
      record {
        t = ahead_state env m ms s r c;
        posted = zs;
        plain = new_msg_in-ahead env m s c.fine.0 r.phase r.pipes a c.unseen.0;
        accepted = ap (λ v. v.1) here;
        moved =
            ap (λ v. handlers_poll v.0) here
            ∙ handlers_poll-told h [] _ refl
            ∙ ap (λ es. record s { rcv_reassembly_q = q; sync_io_handlers = []; events = es })
                (append-nil (s.events ++ map (on_msg h) zs));
        expects = record {
          posted = x.posted;
          err = x.err;
          awaited = x.awaited;
          kinds =
              insert_ordered-kinds which (id_or_none m) (opened env m) s.rcv_reassembly_q u x.kinds;
        };
        reassembling = ahead_state-IsReassembling env m ms s r c a;
        arriving = ahead_state-CanArrive env m ms s r c;
      }

  -- Every message that can arrive is taken.
  pub arrival-Taken : Taken env h which m ms zs s
  arrival-Taken = elim (Bool-cases (id_or_none m == s.rcv_msg_next_id)) [
    | inl hit ↦ next-Taken (ground arith)
    | inr miss ↦ ahead-Taken (ground (arith, c.ahead.0))
  ]
