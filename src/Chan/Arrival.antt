-- ===== src/Chan/Arrival.antt =====
-- Any number of messages that arrive over the two pipes in any order.
pub mod Steps
pub mod Complete
use mathlib.Core.List.{append_assoc, perm_middle, perm_append_comm}
use mathlib.Core.List.Perm
use native.Mathlib.Bridge.{le_prop}
use ipc_transport_structured.Prelude.{
  ℕ, zero, suc, ◌+◌, ◌≤◌, ◌<◌, ◌≡◌, ◌≢◌, refl, sym, ap, ap₂, ◌∙◌, Bool, true, false, Option, none,
  some, List, [], ◌∷◌, ◌++◌, arith, ◌==◌, ltb, if◌then◌else◌, length, Bool-cases, inl, inr, map,
  Perm, All, All-append, length-append, length-perm, All-perm, subst, ◌⊎◌,
}
use ipc_transport_structured.Prelude.Map.{Map, find, insert_ordered}
use ipc_transport_structured.Msg.MsgIn.{MsgIn, id_or_none}
use ipc_transport_structured.Chan.State.{Env, Chan, two_pipes, logged_in, id_mod}
use ipc_transport_structured.Chan.Dispatch.{is_next_expected}
use ipc_transport_structured.Chan.Receive.{new_msg_in}
use ipc_transport_structured.Chan.Frame.{
  SameBase, IsSteady, is_next_expected-SameBase, is_next_expected-IsSteady, with_queue,
}
use ipc_transport_structured.Chan.Reassembly.{
  run, rest, Above, IsConsecutive, queued, run-IsConsecutive, rest-Above, run-append-rest,
  insert_ordered-Above, insert_ordered-perm, run_skips, find-insert_ordered, length-insert_ordered,
  length-run-rest,
}
use ipc_transport_structured.Chan.Order.{
  opened, IsFine, opened_keeps, dispatch_all, new_msg_in-next, new_msg_in-ahead, with_queue_self,
  dispatch_all-with_queue, with_queue-with_queue,
}

abbrev pub unless_failed : Chan × Bool → (Chan → Chan × Bool) → Chan × Bool
unless_failed (s, true) k = k s
unless_failed (s, false) k = (s, false)

-- `rcv_struct_new_msg_in` for each message of a list, until one is refused.
unfoldable pub arrivals : Env → List MsgIn → Chan → Chan × Bool
arrivals env [] s = (s, true)
arrivals env (m ∷ ms) s = unless_failed (new_msg_in env m s) (arrivals env ms)

abbrev pub IsDistinct : List MsgIn → Type 0
IsDistinct [] = Unit {0}
IsDistinct (m ∷ ms) = All (λ k. id_or_none m ≢ id_or_none k) ms × IsDistinct ms

-- A logged-in channel with two pipes whose reassembly queue is in order.
pub record IsReassembling (env : Env) (s : Chan) : Type 0 where
  pub pipes : env.pipes ≡ two_pipes
  pub phase : s.phase ≡ logged_in
  pub proto : s.proto_neg_err_code_or_ok ≡ none
  pub queue : Above s.rcv_msg_next_id s.rcv_reassembly_q

-- Messages that can arrive at `s`: each fine, with ids of their own that are still to come, and
-- without the 64-bit counter wrapping round.
pub record CanArrive (env : Env) (s : Chan) (ms : List MsgIn) : Type 0 where
  pub fine : All (IsFine env s.session_token) ms
  pub ahead : All (λ m. s.rcv_msg_next_id ≤ id_or_none m) ms
  pub unseen : All (λ m. find (id_or_none m) s.rcv_reassembly_q ≡ none) ms
  pub distinct : IsDistinct ms
  pub room : s.rcv_msg_next_id + 1 + length s.rcv_reassembly_q + length ms < id_mod

module _ (env : Env) where
  pub dispatch_all-SameBase : (ms : List MsgIn) (s : Chan) → SameBase s (dispatch_all env ms s)
  unfolding dispatch_all
  dispatch_all-SameBase [] s = ground arith
  dispatch_all-SameBase (m ∷ ms) s = ground (
    arith,
    is_next_expected-SameBase env m s,
    dispatch_all-SameBase ms (is_next_expected env m s),
  )

  pub dispatch_all-phase :
      (ms : List MsgIn) (s : Chan)
      → s.proto_neg_err_code_or_ok ≡ none
      → s.phase ≡ logged_in
      → (dispatch_all env ms s).phase ≡ logged_in
  unfolding dispatch_all
  dispatch_all-phase [] s p l = l
  dispatch_all-phase (m ∷ ms) s p l =
      let t = is_next_expected env m s in
      dispatch_all-phase ms t ((is_next_expected-SameBase env m s).proto ∙ p)
        (is_next_expected-IsSteady env m s p l).phase

  pub dispatch_all-append :
      (xs ys : List MsgIn) (s : Chan)
      → dispatch_all env (xs ++ ys) s ≡ dispatch_all env ys (dispatch_all env xs s)
  unfolding dispatch_all
  dispatch_all-append [] ys s = refl
  dispatch_all-append (x ∷ xs) ys s = dispatch_all-append xs ys (is_next_expected env x s)

pub IsConsecutive-append :
    (n : ℕ) (xs ys : List MsgIn)
    → IsConsecutive n xs
    → IsConsecutive (n + length xs) ys
    → IsConsecutive n (xs ++ ys)
IsConsecutive-append n [] ys c d = let e : n + 0 ≡ n = omega arith in rw e at d
IsConsecutive-append n (x ∷ xs) ys c d =
    let e : n + suc (length xs) ≡ n + 1 + length xs = omega arith in
    (c.0, IsConsecutive-append (n + 1) xs ys c.1 (rw e at d))

-- What is true once all have arrived: `out` was dispatched, without a gap, and the rest waits.
pub record Settled (env : Env) (ms : List MsgIn) (s : Chan) : Type 0 where
  pub out : List MsgIn
  pub left : Map MsgIn
  pub outcome :
      arrivals env ms s
      ≡ (with_queue left (s.rcv_msg_next_id + length out) (dispatch_all env out s), true)
  pub consecutive : IsConsecutive s.rcv_msg_next_id out
  pub beyond : Above (s.rcv_msg_next_id + length out) left
  pub conserved : Perm (out ++ queued left) (map (opened env) ms ++ queued s.rcv_reassembly_q)
