-- ===== src/Chan/Order.antt =====
-- Arrival order against dispatch order, over a channel with two pipes.
use ipc_transport_structured.Prelude.{
  ℕ, suc, ◌+◌, ◌<◌, ◌≡◌, ◌≢◌, refl, ap, ap₂, ◌∙◌, true, false, Option, none, some, List, [], ◌∷◌,
  arith, ◌==◌, length, Bool-cases, inl, inr,
}
use ipc_transport_structured.Prelude.Map.{Map, find, insert_ordered}
use ipc_transport_structured.Error.{ErrorCode}
use ipc_transport_structured.Msg.Mdt.{SessionToken, token_eq}
use ipc_transport_structured.Msg.MsgIn.{MsgIn, id_or_none, deserialize_body}
use ipc_transport_structured.Chan.State.{Env, Chan, two_pipes, logged_in, id_mod, increment}
use ipc_transport_structured.Chan.Dispatch.{is_next_expected}
use ipc_transport_structured.Chan.Receive.{
  drain_reassembly_q, accept_in_order, accept_out_of_order, accept_by_id, token_error, authenticate,
  new_msg_in, body_then,
}
use ipc_transport_structured.Chan.Frame.{with_queue, is_next_expected-with_queue}
use ipc_transport_structured.Chan.Reassembly.{run, rest}

pub with_queue_self :
    (q : Map MsgIn) (n : ℕ) (s : Chan)
    → s.rcv_reassembly_q ≡ q
    → s.rcv_msg_next_id ≡ n
    → s ≡ with_queue q n s
unfolding with_queue
with_queue_self q n s e f = ground arith

pub with_queue-with_queue :
    (q r : Map MsgIn) (n k : ℕ) (s : Chan) → with_queue q n (with_queue r k s) ≡ with_queue q n s
unfolding with_queue
with_queue-with_queue q r n k s = refl

with_queue_fields :
    (q : Map MsgIn) (n : ℕ) (s : Chan)
    → ((with_queue q n s).rcv_reassembly_q ≡ q) × ((with_queue q n s).rcv_msg_next_id ≡ n)
unfolding with_queue
with_queue_fields q n s = (refl, refl)

-- `opened m`, the message as it is after its body was deserialized.
abbrev pub opened : Env → MsgIn → MsgIn
opened env m = (deserialize_body env.reader m).0

-- A user message that the channel has no reason to refuse, but perhaps for its id.
pub record IsFine (env : Env) (token : SessionToken) (m : MsgIn) : Type 0 where
  pub user : id_or_none m ≢ 0
  pub readable : (deserialize_body env.reader m).1 ≡ none
  pub authentic : token_eq m.session_token token ≡ true

pub opened_keeps :
    (env : Env) (m : MsgIn)
    → (id_or_none (opened env m) ≡ id_or_none m) × ((opened env m).session_token ≡ m.session_token)
unfolding deserialize_body id_or_none
opened_keeps env m = ground arith

module _ (env : Env) where
  -- The dispatch of one message after another.
  unfoldable pub dispatch_all : List MsgIn → Chan → Chan
  dispatch_all [] s = s
  dispatch_all (m ∷ ms) s = dispatch_all ms (is_next_expected env m s)

  pub dispatch_all-with_queue :
      (ms : List MsgIn) (q : Map MsgIn) (n : ℕ) (s : Chan)
      → dispatch_all ms (with_queue q n s) ≡ with_queue q n (dispatch_all ms s)
  unfolding dispatch_all
  dispatch_all-with_queue [] q n s = refl
  dispatch_all-with_queue (m ∷ ms) q n s =
      rw (is_next_expected-with_queue env q n m s)
        (dispatch_all-with_queue ms q n (is_next_expected env m s))

  drain_hit :
      (k n : ℕ) (m : MsgIn) (q : Map MsgIn) (s : Chan)
      → s.rcv_msg_next_id ≡ n
      → n + 1 < id_mod
      → (k == n) ≡ true
      → drain_reassembly_q env ((k, m) ∷ q) s
        ≡ drain_reassembly_q env q (with_queue q (n + 1) (is_next_expected env m s))
  unfolding drain_reassembly_q
  drain_hit k n m q s f b hit =
      let next : increment s.rcv_msg_next_id ≡ n + 1 = omega arith in
      let this : (k == s.rcv_msg_next_id) ≡ true = rw f hit in
      rw (← next) (
        rw (← is_next_expected-with_queue env q (increment s.rcv_msg_next_id) m s)
          (unfold with_queue in rw (this, drain_reassembly_q)))

  drain_miss :
      (k n : ℕ) (m : MsgIn) (q : Map MsgIn) (s : Chan)
      → s.rcv_msg_next_id ≡ n
      → (k == n) ≡ false
      → drain_reassembly_q env ((k, m) ∷ q) s ≡ s
  unfolding drain_reassembly_q
  drain_miss k n m q s f miss =
      let this : (k == s.rcv_msg_next_id) ≡ false = rw f miss in rw (this, drain_reassembly_q)

  drain_lem :
      (q : Map MsgIn) (n : ℕ) (s : Chan)
      → s.rcv_reassembly_q ≡ q
      → s.rcv_msg_next_id ≡ n
      → n + length q < id_mod
      → drain_reassembly_q env q s
        ≡ with_queue (rest n q) (n + length (run n q)) (dispatch_all (run n q) s)
  unfolding dispatch_all
  drain_lem [] n s e f b = unfold drain_reassembly_q in with_queue_self [] (n + 0) s e (omega arith)
  drain_lem ((k, m) ∷ q) n s e f b = elim (Bool-cases (k == n)) [
    | inl hit ↦
        let t = is_next_expected env m s in
        let fields = with_queue_fields q (n + 1) t in
        let shift : n + suc (length (run (n + 1) q)) ≡ n + 1 + length (run (n + 1) q) =
          omega arith in
        rw hit (
          rw shift (
            drain_hit k n m q s f (omega arith) hit
            ∙ drain_lem q (n + 1) (with_queue q (n + 1) t) fields.0 fields.1 (omega arith)
            ∙ rw (dispatch_all-with_queue (run (n + 1) q) q (n + 1) t)
                (with_queue-with_queue _ _ _ _ _)))
    | inr miss ↦
        rw miss
          (drain_miss k n m q s f miss ∙ with_queue_self ((k, m) ∷ q) (n + 0) s e (omega arith))
  ]

  accept_open :
      (m : MsgIn) (s : Chan)
      → env.pipes ≡ two_pipes
      → s.phase ≡ logged_in
      → let s2 =
          is_next_expected env m (with_queue s.rcv_reassembly_q (increment s.rcv_msg_next_id) s) in
        accept_in_order env m s ≡ (drain_reassembly_q env s2.rcv_reassembly_q s2, true)
  unfolding accept_in_order with_queue
  accept_open m s p l = ground arith

  accept_next :
      (m : MsgIn) (n : ℕ) (q : Map MsgIn) (s : Chan)
      → env.pipes ≡ two_pipes
      → s.phase ≡ logged_in
      → s.rcv_msg_next_id ≡ n
      → s.rcv_reassembly_q ≡ q
      → n + 1 + length q < id_mod
      → accept_in_order env m s ≡ (
        with_queue
            (rest (n + 1) q)
            (n + 1 + length (run (n + 1) q))
            (dispatch_all (m ∷ run (n + 1) q) s),
        true,
      )
  unfolding dispatch_all
  accept_next m n q s p l f e b =
      let t = is_next_expected env m s in
      let next : increment s.rcv_msg_next_id ≡ n + 1 = omega arith in
      let fields = with_queue_fields q (n + 1) t in
      let moved : is_next_expected env m
            (with_queue s.rcv_reassembly_q (increment s.rcv_msg_next_id) s)
          ≡ with_queue q (n + 1) t =
        is_next_expected-with_queue env _ _ m s ∙ ap₂ (λ a c. with_queue a c t) e next in
      accept_open m s p l
      ∙ ap (λ (u : Chan). (drain_reassembly_q env u.rcv_reassembly_q u, true)) moved
      ∙ ap (λ (r : Map MsgIn). (drain_reassembly_q env r (with_queue q (n + 1) t), true)) fields.0
      ∙ ap (λ (u : Chan). (u, true))
          (drain_lem q (n + 1) (with_queue q (n + 1) t) fields.0 fields.1 b
            ∙ rw (dispatch_all-with_queue (run (n + 1) q) q (n + 1) t)
                (with_queue-with_queue _ _ _ _ _))

  body_then-none :
      (r : MsgIn × Option ErrorCode) (s : Chan)
      → r.1 ≡ none
      → body_then env r s ≡ authenticate env r.0 s
  body_then-none (m, none) s e = refl
  body_then-none (m, some c) s e = cc

  module _ (m : MsgIn) (s : Chan) (fine : IsFine env s.session_token m)
      (l : s.phase ≡ logged_in) where
    authenticate-fine : authenticate env (opened env m) s ≡ accept_by_id env (opened env m) s
    unfolding authenticate token_error
    authenticate-fine = ground (arith, opened_keeps env m, fine.authentic)

    -- A message with nothing wrong comes as far as the look at its id.
    pub new_msg_in-fine : new_msg_in env m s ≡ accept_by_id env (opened env m) s
    unfolding new_msg_in
    new_msg_in-fine =
        let user : (id_or_none m == 0) ≡ false = ground (arith, fine.user) in
        rw user (body_then-none (deserialize_body env.reader m) s fine.readable ∙ authenticate-fine)

    module _ (p : env.pipes ≡ two_pipes) where
      -- On a logged-in channel with two pipes, a sound message with the id that is awaited is
      -- dispatched, and after it, in the order of their ids, the queued messages that follow it
      -- without a gap; the rest stays queued.
      pub new_msg_in-next :
          id_or_none m ≡ s.rcv_msg_next_id
          → s.rcv_msg_next_id + 1 + length s.rcv_reassembly_q < id_mod
          → let n = s.rcv_msg_next_id + 1 in
            new_msg_in env m s ≡ (
              with_queue
                  (rest n s.rcv_reassembly_q)
                  (n + length (run n s.rcv_reassembly_q))
                  (dispatch_all (opened env m ∷ run n s.rcv_reassembly_q) s),
              true,
            )
      unfolding accept_by_id
      new_msg_in-next e b =
          new_msg_in-fine
          ∙ ground (arith, opened_keeps env m, fine.user)
          ∙ accept_next (opened env m) s.rcv_msg_next_id s.rcv_reassembly_q s p l refl refl b

      -- On a logged-in channel with two pipes, a sound message with an id that is still to come and
      -- is not queued yet goes into the queue in its place, and nothing else happens.
      pub new_msg_in-ahead :
          s.rcv_msg_next_id < id_or_none m
          → find (id_or_none m) s.rcv_reassembly_q ≡ none
          → new_msg_in env m s ≡ (
            with_queue
                (insert_ordered (id_or_none m) (opened env m) s.rcv_reassembly_q)
                s.rcv_msg_next_id
                s,
            true,
          )
      unfolding accept_by_id accept_out_of_order with_queue
      new_msg_in-ahead h f = new_msg_in-fine ∙ ground (arith, opened_keeps env m, fine.user)
