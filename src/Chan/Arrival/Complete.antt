-- ===== src/Chan/Arrival/Complete.antt =====
-- What a whole list of arrivals comes to.
use mathlib.Core.List.{append-nil}
use mathlib.Core.HLevel.{Π_prop}
use mathlib.Core.List.Perm
use native.Mathlib.Bridge.{le_prop}
use ipc_transport_structured.Prelude.{
  ℕ, suc, ◌+◌, ◌<◌, ◌≡◌, refl, sym, ap, ap₂, ◌∙◌, true, List, [], ◌∷◌, ◌++◌, arith, ◌==◌, length,
  Bool-cases, inl, inr, map, Perm, All, length-append, length-perm, All-perm, subst, ◌⊎◌,
}
use ipc_transport_structured.Prelude.Map.{Map}
use ipc_transport_structured.Msg.MsgIn.{MsgIn, id_or_none}
use ipc_transport_structured.Chan.State.{Env, Chan}
use ipc_transport_structured.Chan.Frame.{with_queue}
use ipc_transport_structured.Chan.Reassembly.{Above, IsConsecutive, queued}
use ipc_transport_structured.Chan.Order.{opened, opened_keeps, dispatch_all, with_queue_self}
use ipc_transport_structured.Chan.Arrival.{arrivals, IsReassembling, CanArrive, Settled}
use ipc_transport_structured.Chan.Arrival.Steps.{
  next_state, ahead_state, next_state-IsReassembling, next_state-CanArrive,
  ahead_state-IsReassembling, ahead_state-CanArrive, next_state-Settled, ahead_state-Settled,
}

-- Every list that can arrive settles.
arrivals-Settled :
    (env : Env) (ms : List MsgIn) (s : Chan)
    → IsReassembling env s
    → CanArrive env s ms
    → Settled env ms s
unfolding arrivals dispatch_all
arrivals-Settled env [] s r c = record {
  out = [];
  left = s.rcv_reassembly_q;
  outcome =
      ap (λ (u : Chan). (u, true))
        (with_queue_self s.rcv_reassembly_q (s.rcv_msg_next_id + 0) s refl (omega arith));
  consecutive = tt;
  beyond = let e : s.rcv_msg_next_id + 0 ≡ s.rcv_msg_next_id = omega arith in rw e r.queue;
  conserved = Perm.rfl;
}
arrivals-Settled env (m ∷ ms) s r c = elim (Bool-cases (id_or_none m == s.rcv_msg_next_id)) [
  | inl hit ↦
      let e : id_or_none m ≡ s.rcv_msg_next_id = ground arith in
      next_state-Settled env m ms s r c e (
        arrivals-Settled env ms (next_state env m ms s r c)
          (next_state-IsReassembling env m ms s r c) (next_state-CanArrive env m ms s r c e))
  | inr miss ↦
      let h : s.rcv_msg_next_id < id_or_none m = ground (arith, c.ahead.0) in
      ahead_state-Settled env m ms s r c h (
        arrivals-Settled env ms (ahead_state env m ms s r c)
          (ahead_state-IsReassembling env m ms s r c h) (ahead_state-CanArrive env m ms s r c))
]

-- Keys that increase from above `n` and stay below `b` are at most as many as the numbers between.
Above-fits :
    (n b : ℕ) (q : Map MsgIn)
    → Above n q
    → All (λ m. id_or_none m < b) (queued q)
    → (q ≡ []) ⊎ (n + length (queued q) < b)
Above-fits n b [] a h = inl refl
Above-fits n b ((k, m) ∷ []) a h = inr (omega (arith, a.0, a.1, h.0))
Above-fits n b ((k, m) ∷ (j, w) ∷ q) a h =
    inr (ground (arith, Above-fits k b ((j, w) ∷ q) a.2 h.1, a.0))

opened-All :
    (env : Env) (b : ℕ) (ms : List MsgIn)
    → All (λ m. id_or_none m < b) ms
    → All (λ m. id_or_none m < b) (map (opened env) ms)
opened-All env b [] h = tt
opened-All env b (m ∷ ms) h = (omega (arith, h.0, (opened_keeps env m).0), opened-All env b ms h.1)

length-opened : (env : Env) (ms : List MsgIn) → length (map (opened env) ms) ≡ length ms
length-opened env [] = refl
length-opened env (m ∷ ms) = ap suc (length-opened env ms)

All-tail :
    (b : ℕ) (xs ys : List MsgIn)
    → All (λ m. id_or_none m < b) (xs ++ ys)
    → All (λ m. id_or_none m < b) ys
All-tail b [] ys h = h
All-tail b (x ∷ xs) ys h = All-tail b xs ys h.1

-- The outcome of arrivals that leave no gap.
pub record DispatchedInOrder (env : Env) (ms : List MsgIn) (s : Chan) : Type 0 where
  pub out : List MsgIn
  pub outcome :
      arrivals env ms s
      ≡ (with_queue [] (s.rcv_msg_next_id + length ms) (dispatch_all env out s), true)
  pub consecutive : IsConsecutive s.rcv_msg_next_id out
  pub same : Perm out (map (opened env) ms)

module _ (env : Env) (ms : List MsgIn) (s : Chan) (r : IsReassembling env s)
    (c : CanArrive env s ms) (empty : s.rcv_reassembly_q ≡ [])
    (full : All (λ m. id_or_none m < s.rcv_msg_next_id + length ms) ms) where
  settled : Settled env ms s
  settled = arrivals-Settled env ms s r c

  settled_perm : Perm (settled.out ++ queued settled.left) (map (opened env) ms)
  settled_perm =
      let e : map (opened env) ms ++ queued s.rcv_reassembly_q ≡ map (opened env) ms =
        rw empty (append-nil (map (opened env) ms)) in
      subst (Perm (settled.out ++ queued settled.left)) e settled.conserved

  settled_left : settled.left ≡ []
  settled_left =
      let counted = length-perm settled_perm in
      let below = All-tail (s.rcv_msg_next_id + length ms) settled.out (queued settled.left) (
        All-perm (λ m. id_or_none m < s.rcv_msg_next_id + length ms) (λ m. le_prop) _
          (Perm.symm settled_perm) (opened-All env (s.rcv_msg_next_id + length ms) ms full)) in
      elim (Above-fits _ _ settled.left settled.beyond below) [
        | inl e ↦ e
        | inr h ↦ absurd (
            omega (
              arith,
              h,
              counted,
              length-append settled.out (queued settled.left),
              length-opened env ms,
            ))
      ]

  -- On a logged-in channel with two pipes and nothing queued, sound messages whose ids are the next
  -- ones without a gap, in whatever order they arrive, are all dispatched, in the order of their ids,
  -- and the reassembly queue ends empty.
  pub arrivals-DispatchedInOrder : DispatchedInOrder env ms s
  arrivals-DispatchedInOrder =
      let perm : Perm settled.out (map (opened env) ms) =
        subst (λ xs. Perm xs (map (opened env) ms))
          (ap (λ q. settled.out ++ queued q) settled_left ∙ append-nil settled.out) settled_perm in
      let counted : length settled.out ≡ length ms = length-perm perm ∙ length-opened env ms in
      record {
        out = settled.out;
        outcome =
            settled.outcome
            ∙ ap₂
                (λ q (k : ℕ).
                  (with_queue q (s.rcv_msg_next_id + k) (dispatch_all env settled.out s), true))
                settled_left counted;
        consecutive = settled.consecutive;
        same = perm;
      }

-- Lists without a gap from the same id that hold the same messages are equal.
MsgIn-set : IsSet MsgIn
MsgIn-set = hlevel

beyond_head :
    (n k : ℕ) (y : MsgIn) (ys : List MsgIn)
    → n < k
    → IsConsecutive k ys
    → All (λ w. id_or_none w ≡ n → w ≡ y) ys
beyond_head n k y [] h c = tt
beyond_head n k y (w ∷ ys) h c =
    ((λ e. absurd (omega (arith, c.0))), beyond_head n (k + 1) y ys (omega arith) c.1)

pub consecutive_unique :
    (n : ℕ) (xs ys : List MsgIn) → IsConsecutive n xs → IsConsecutive n ys → Perm xs ys → xs ≡ ys
consecutive_unique n [] [] c d p = refl
consecutive_unique n [] (y ∷ ys) c d p = absurd (omega (arith, length-perm p))
consecutive_unique n (x ∷ xs) [] c d p = absurd (omega (arith, length-perm p))
consecutive_unique n (x ∷ xs) (y ∷ ys) c d p =
    let all : All (λ w. id_or_none w ≡ n → w ≡ y) (x ∷ xs) =
      All-perm (λ w. id_or_none w ≡ n → w ≡ y) (λ w. Π_prop (λ _. MsgIn-set w y)) (x ∷ xs)
        (Perm.symm p) ((λ _. refl), beyond_head n (n + 1) y ys (omega arith) d.1) in
    let head : x ≡ y = all.0 c.0 in
    let tails : Perm xs ys = Perm.cons_inv (subst (λ w. Perm (x ∷ xs) (w ∷ ys)) (sym head) p) in
    ap₂ ◌∷◌ head (consecutive_unique (n + 1) xs ys c.1 d.1 tails)

-- On a logged-in channel with two pipes and nothing queued, sound messages whose ids are the next
-- ones without a gap leave the channel in the same state, with the same answer, in whichever of two
-- orders they arrive.
pub arrivals-perm :
    (env : Env) (ms ns : List MsgIn) (s : Chan)
    → IsReassembling env s
    → CanArrive env s ms
    → CanArrive env s ns
    → s.rcv_reassembly_q ≡ []
    → All (λ m. id_or_none m < s.rcv_msg_next_id + length ms) ms
    → All (λ m. id_or_none m < s.rcv_msg_next_id + length ns) ns
    → Perm ms ns
    → arrivals env ms s ≡ arrivals env ns s
arrivals-perm env ms ns s r c d e f g p =
    let a = arrivals-DispatchedInOrder env ms s r c e f in
    let b = arrivals-DispatchedInOrder env ns s r d e g in
    let same : a.out ≡ b.out =
      consecutive_unique s.rcv_msg_next_id a.out b.out a.consecutive b.consecutive
        (Perm.trans a.same (Perm.trans (Perm.map (opened env) p) (Perm.symm b.same))) in
    a.outcome
    ∙ ap₂ (λ (k : ℕ) out. (with_queue [] (s.rcv_msg_next_id + k) (dispatch_all env out s), true))
        (length-perm p) same
    ∙ sym b.outcome
