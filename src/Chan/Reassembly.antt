-- ===== src/Chan/Reassembly.antt =====
-- The reassembly queue by itself: the run of ids at its front, what is left behind it, and how an
-- insertion keeps the order.
use mathlib.Core.List.Perm
use ipc_transport_structured.Prelude.{
  ℕ, suc, ◌+◌, ◌≤◌, ◌<◌, ◌≡◌, ◌≢◌, refl, none, List, [], ◌∷◌, ◌++◌, arith, ◌==◌, ltb, if◌then◌else◌,
  length, Bool-cases, inl, inr, Perm,
}
use ipc_transport_structured.Prelude.Map.{Map, find, insert_ordered}
use ipc_transport_structured.Msg.MsgIn.{MsgIn, id_or_none}

-- The messages at the front of the queue whose ids go on from `n` without a gap.
abbrev pub run : ℕ → Map MsgIn → List MsgIn
run n [] = []
run n ((id, m) ∷ q) = let r = m ∷ run (n + 1) q in if id == n then r else []

abbrev pub rest : ℕ → Map MsgIn → Map MsgIn
rest n [] = []
rest n ((id, m) ∷ q) = let r = rest (n + 1) q in if id == n then r else (id, m) ∷ q

-- Every key is the id of its message, and the keys increase from above `n`.
abbrev pub Above : ℕ → Map MsgIn → Type 0
Above n [] = Unit {0}
Above n ((k, m) ∷ q) = (n < k) × (k ≡ id_or_none m) × Above k q

-- Ids that begin at `n` and go on without a gap.
abbrev pub IsConsecutive : ℕ → List MsgIn → Type 0
IsConsecutive n [] = Unit {0}
IsConsecutive n (m ∷ ms) = (id_or_none m ≡ n) × IsConsecutive (n + 1) ms

abbrev pub queued : Map MsgIn → List MsgIn
queued [] = []
queued ((k, m) ∷ q) = m ∷ queued q

Above-mono : (n k : ℕ) (q : Map MsgIn) → n ≤ k → Above k q → Above n q
Above-mono n k [] h a = tt
Above-mono n k ((j, m) ∷ q) h a = (omega arith, a.1, a.2)

pub run-IsConsecutive : (n k : ℕ) (q : Map MsgIn) → Above k q → IsConsecutive n (run n q)
run-IsConsecutive n k [] a = tt
run-IsConsecutive n k ((j, m) ∷ q) a = ground (arith, run-IsConsecutive (n + 1) j q a.2)

-- What stays behind the run lies beyond the id that the run makes next.
pub rest-Above :
    (p n : ℕ) (q : Map MsgIn) → n ≡ p + 1 → Above p q → Above (n + length (run n q)) (rest n q)
rest-Above p n [] e a = tt
rest-Above p n ((j, m) ∷ q) e a = elim (Bool-cases (j == n)) [
  | inl hit ↦
      let shift : n + suc (length (run (n + 1) q)) ≡ n + 1 + length (run (n + 1) q) = omega arith in
      rw hit (rw shift (rest-Above j (n + 1) q (ground arith) a.2))
  | inr miss ↦ rw miss (ground arith, a.1, a.2)
]

pub run-append-rest : (n : ℕ) (q : Map MsgIn) → run n q ++ queued (rest n q) ≡ queued q
run-append-rest n [] = refl
run-append-rest n ((j, m) ∷ q) = ground (arith, run-append-rest (n + 1) q)

pub insert_ordered-Above :
    (n k : ℕ) (m : MsgIn) (q : Map MsgIn)
    → n < k
    → k ≡ id_or_none m
    → find k q ≡ none
    → Above n q
    → Above n (insert_ordered k m q)
unfolding insert_ordered find
insert_ordered-Above n k m [] h e f a = (h, e, tt)
insert_ordered-Above n k m ((j, w) ∷ q) h e f a = ground (arith, insert_ordered-Above j k m q)

pub insert_ordered-perm :
    (k : ℕ) (m : MsgIn) (q : Map MsgIn) → Perm (queued (insert_ordered k m q)) (m ∷ queued q)
unfolding insert_ordered
insert_ordered-perm k m [] = Perm.rfl
insert_ordered-perm k m ((j, w) ∷ q) = elim (Bool-cases (ltb k j)) [
  | inl before ↦ rw before Perm.rfl
  | inr behind ↦
      rw behind (Perm.trans (Perm.cons w (insert_ordered-perm k m q)) (Perm.swap m w (queued q)))
]

-- An id that is not in the queue and not below `n` is not in the run, so it is not below its end.
pub run_skips :
    (p n k : ℕ) (q : Map MsgIn)
    → n ≡ p + 1
    → Above p q
    → find k q ≡ none
    → n ≤ k
    → (n + length (run n q) ≤ k) × (find k (rest n q) ≡ none)
unfolding find
run_skips p n k [] e a f h = (omega arith, refl)
run_skips p n k ((j, m) ∷ q) e a f h = ground (arith, run_skips j (n + 1) k q)

pub find-insert_ordered :
    (k j : ℕ) (m : MsgIn) (q : Map MsgIn)
    → k ≢ j
    → find j q ≡ none
    → find j (insert_ordered k m q) ≡ none
unfolding find insert_ordered
find-insert_ordered k j m [] h f = ground arith
find-insert_ordered k j m ((i, w) ∷ q) h f = ground (arith, find-insert_ordered k j m q)

pub length-insert_ordered :
    (k : ℕ) (m : MsgIn) (q : Map MsgIn) → length (insert_ordered k m q) ≡ length q + 1
unfolding insert_ordered
length-insert_ordered k m [] = omega arith
length-insert_ordered k m ((j, w) ∷ q) = ground (arith, length-insert_ordered k m q)

pub length-run-rest : (n : ℕ) (q : Map MsgIn) → length (run n q) + length (rest n q) ≡ length q
length-run-rest n [] = omega arith
length-run-rest n ((j, m) ∷ q) = ground (arith, length-run-rest (n + 1) q)
