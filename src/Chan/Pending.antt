-- ===== src/Chan/Pending.antt =====
-- Unsolicited in-messages against the expectations of their kind: `m_rcv_pending_msgs` and
-- `m_rcv_expecting_msg_map`.
pub mod Delivery
use mathlib.Core.List.{append-nil, append_assoc}
use ipc_transport_structured.Prelude.{
  ℕ, ◌≡◌, ◌≢◌, refl, sym, ap, ◌∙◌, Bool, true, false, not, ◌&&◌, ◌⊎◌, inl, inr, Option, none, some,
  List, [], ◌∷◌, ◌++◌, arith, ◌==◌, All, map, is_empty, is_some, Bool-cases, Option-cases,
  if◌then◌else◌, either_branch,
}
use ipc_transport_structured.Prelude.Map.{
  Map, find, erase, emplace, assign, find-erase, find-assign, find-emplace,
}
use ipc_transport_structured.Error.{ErrorCode, struc, got_unexpected_log_in_request}
use ipc_transport_structured.Msg.MsgIn.{MsgIn, originating_msg_id_or_none}
use ipc_transport_structured.Chan.State.{Env, Expecting, Chan, deliver, logged_in, is_logged_in}
use ipc_transport_structured.Chan.Handlers.{handlers_post, handle_new_error}
use ipc_transport_structured.Msg.Mdt.{StructuredMessage}
use ipc_transport_structured.Chan.Send.{send_core, conclude_send}
use ipc_transport_structured.Chan.Dispatch.{
  queue_of, unexpected_response_mdt, pend, next_unsolicited, is_next_expected,
  inform_of_unexpected_response, next_response,
}
use ipc_transport_structured.Chan.Expect.{
  Expected, take_pending, expect_msgs_impl, check_phase_and_prior_error, expect_msgs,
}
use ipc_transport_structured.Chan.Order.{dispatch_all}

-- No kind of message is awaited and cached at once, and no cached queue is empty.
pub record Exclusive (s : Chan) : Type 0 where
  pub apart : (k : ℕ) → (find k s.rcv_expecting_msg_map ≡ none) ⊎ (find k s.rcv_pending_msgs ≡ none)
  pub filled : (k : ℕ) → find k s.rcv_pending_msgs ≢ some []

-- An unsolicited message of the kind `which`.
pub record IsUnsolicited (which : ℕ) (m : MsgIn) : Type 0 where
  pub plain : originating_msg_id_or_none m ≡ 0
  pub kind : m.body_which ≡ which

snoc-filled : (q : List MsgIn) (m : MsgIn) → q ++ m ∷ [] ≢ []
snoc-filled [] m e = cc
snoc-filled (x ∷ q) m e = cc

module _ (env : Env) where
  unsolicited-Exclusive :
      (which : ℕ) (m : MsgIn) (s : Chan) → Exclusive s → Exclusive (next_unsolicited env which m s)
  unfolding next_unsolicited handlers_post
  unsolicited-Exclusive which m s x = record {
    apart = λ k. ground (
      arith,
      x.apart k,
      find-erase which k s.rcv_expecting_msg_map,
      find-assign which k (queue_of (find which s.rcv_pending_msgs) ++ m ∷ []) s.rcv_pending_msgs,
    );
    filled = λ k e. ground (
      arith,
      x.filled k,
      find-assign which k (queue_of (find which s.rcv_pending_msgs) ++ m ∷ []) s.rcv_pending_msgs,
      snoc-filled (queue_of (find which s.rcv_pending_msgs)) m,
    );
  }

module _ (env : Env) where
  core_maps :
      (mdt : StructuredMessage) (s : Chan)
      → let t = (send_core env mdt none true s).chan in
        (t.rcv_expecting_msg_map ≡ s.rcv_expecting_msg_map)
        × (t.rcv_pending_msgs ≡ s.rcv_pending_msgs)
  unfolding send_core conclude_send
  core_maps mdt s = ground arith

  response_maps :
      (id : ℕ) (m : MsgIn) (s : Chan)
      → let t = next_response env id m s in
        (t.rcv_expecting_msg_map ≡ s.rcv_expecting_msg_map)
        × (t.rcv_pending_msgs ≡ s.rcv_pending_msgs)
  unfolding next_response inform_of_unexpected_response handlers_post
  response_maps id m s = ground (arith, core_maps (unexpected_response_mdt env s m) s)

  -- The dispatch of a message keeps it so that no kind is awaited while messages of it are cached.
  pub is_next_expected-Exclusive :
      (m : MsgIn) (s : Chan) → Exclusive s → Exclusive (is_next_expected env m s)
  unfolding is_next_expected
  is_next_expected-Exclusive m s x =
      let id = originating_msg_id_or_none m in
      let (e, p) = response_maps id m s in
      either_branch Exclusive (id == 0) (unsolicited-Exclusive env m.body_which m s x) (record {
        apart = λ k. ground (arith, x.apart k, e, p);
        filled = λ k h. ground (arith, x.filled k, p);
      })

hosed-Exclusive : (e : Option ErrorCode) (s : Chan) → Exclusive s → Exclusive (handle_new_error e s)
unfolding handle_new_error handlers_post
hosed-Exclusive e s x = record { apart = x.apart; filled = x.filled }

module _ (which : ℕ) (e : Expecting) (s : Chan) (x : Exclusive s) where
  awaiting : Chan
  awaiting = record s { rcv_expecting_msg_map = emplace which e s.rcv_expecting_msg_map }

  take-Exclusive :
      (one_off : Bool) (q : List MsgIn)
      → find which s.rcv_pending_msgs ≡ some q
      → Exclusive (take_pending one_off which q awaiting).chan
  unfolding take_pending awaiting
  take-Exclusive true [] f = absurd (x.filled which f)
  take-Exclusive true (m ∷ []) f = record {
    apart = λ k. ground (
      arith,
      x.apart k,
      find-erase which k s.rcv_pending_msgs,
      find-erase which k (emplace which e s.rcv_expecting_msg_map),
      find-emplace which k e s.rcv_expecting_msg_map,
    );
    filled = λ k h. ground (arith, x.filled k, find-erase which k s.rcv_pending_msgs);
  }
  take-Exclusive true (m ∷ n ∷ rest) f = record {
    apart = λ k. ground (
      arith,
      x.apart k,
      find-assign which k (n ∷ rest) s.rcv_pending_msgs,
      find-erase which k (emplace which e s.rcv_expecting_msg_map),
      find-emplace which k e s.rcv_expecting_msg_map,
    );
    filled = λ k h. ground (arith, x.filled k, find-assign which k (n ∷ rest) s.rcv_pending_msgs);
  }
  take-Exclusive false q f = record {
    apart = λ k. ground (
      arith,
      x.apart k,
      find-erase which k s.rcv_pending_msgs,
      find-emplace which k e s.rcv_expecting_msg_map,
    );
    filled = λ k h. ground (arith, x.filled k, find-erase which k s.rcv_pending_msgs);
  }

  awaiting-Exclusive : find which s.rcv_pending_msgs ≡ none → Exclusive awaiting
  unfolding awaiting
  awaiting-Exclusive f = record {
    apart = λ k. ground (arith, x.apart k, find-emplace which k e s.rcv_expecting_msg_map);
    filled = x.filled;
  }

-- Whatever is expected, no kind of message is then awaited while messages of it are cached.
pub expect_msgs_impl-Exclusive :
    (one_off : Bool) (which h : ℕ) (qd : List MsgIn) (s : Chan)
    → Exclusive s
    → Exclusive (expect_msgs_impl one_off which h qd s).chan
unfolding expect_msgs_impl awaiting
expect_msgs_impl-Exclusive one_off which h qd s x =
    let e : Expecting = record { one_expected = one_off; on_msg_func = h } in
    let P : Expected → Type 0 = λ r. Exclusive r.chan in
    either_branch P (is_some (find which s.rcv_expecting_msg_map)) x
      (elim (Option-cases (find which s.rcv_pending_msgs)) [
        | inl f ↦
            let a = awaiting-Exclusive which e s x f in
            rw f (
              either_branch P (not (is_logged_in s.phase) && not (is_empty s.rcv_pending_msgs))
                (hosed-Exclusive (some (struc got_unexpected_log_in_request)) _ a) a)
        | inr (q, f) ↦ rw f (take-Exclusive which e s x one_off q f)
      ])
