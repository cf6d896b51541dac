-- ===== src/Chan/Pending/Delivery.antt =====
-- Messages of one kind reach the user in order, whether they come before the expectation or after.
use mathlib.Core.List.{append-nil, append_assoc}
use ipc_transport_structured.Prelude.{
  ℕ, ◌≡◌, refl, sym, ap, ◌∙◌, true, false, none, some, List, [], ◌∷◌, ◌++◌, arith, All, map,
}
use ipc_transport_structured.Prelude.Map.{find, find-erase, find-assign}
use ipc_transport_structured.Msg.MsgIn.{MsgIn}
use ipc_transport_structured.Chan.State.{Env, Chan, deliver, logged_in}
use ipc_transport_structured.Chan.Handlers.{handlers_post}
use ipc_transport_structured.Chan.Dispatch.{queue_of, next_unsolicited, is_next_expected}
use ipc_transport_structured.Chan.Expect.{
  take_pending, expect_msgs_impl, check_phase_and_prior_error, expect_msgs,
}
use ipc_transport_structured.Chan.Order.{dispatch_all}
use ipc_transport_structured.Chan.Pending.{IsUnsolicited}
use ipc_transport_structured.Chan.Frame.{is_next_expected-SameBase, is_next_expected-IsSteady}

-- What the dispatch of one unsolicited message does to the maps.
record Cached (which : ℕ) (q : List MsgIn) (s : Chan) : Type 0 where
  awaited : find which s.rcv_expecting_msg_map ≡ none
  pending : queue_of (find which s.rcv_pending_msgs) ≡ q

-- A channel that is logged in and has no error.
pub record IsUp (s : Chan) : Type 0 where
  pub phase : s.phase ≡ logged_in
  pub err : s.channel_err_code_or_ok ≡ none
  pub proto : s.proto_neg_err_code_or_ok ≡ none

module _ (env : Env) (which : ℕ) where
  cache_one :
      (m : MsgIn) (q : List MsgIn) (s : Chan)
      → IsUnsolicited which m
      → Cached which q s
      → Cached which (q ++ m ∷ []) (is_next_expected env m s)
  unfolding is_next_expected next_unsolicited
  cache_one m q s u c = record {
    awaited = ground (arith, u.plain, u.kind, c.awaited);
    pending = ground (
      arith,
      u.plain,
      u.kind,
      c.awaited,
      c.pending,
      find-assign which which (queue_of (find which s.rcv_pending_msgs) ++ m ∷ [])
          s.rcv_pending_msgs,
    );
  }

  cache-All :
      (ms q : List MsgIn) (s : Chan)
      → All (IsUnsolicited which) ms
      → Cached which q s
      → Cached which (q ++ ms) (dispatch_all env ms s)
  unfolding dispatch_all
  cache-All [] q s u c = rw (append-nil q) c
  cache-All (m ∷ ms) q s u c =
      rw (← append_assoc q (m ∷ []) ms)
        (cache-All ms (q ++ m ∷ []) (is_next_expected env m s) u.1 (cache_one m q s u.0 c))

  IsUp-dispatch_all : (ms : List MsgIn) (s : Chan) → IsUp s → IsUp (dispatch_all env ms s)
  unfolding dispatch_all
  IsUp-dispatch_all [] s u = u
  IsUp-dispatch_all (m ∷ ms) s u =
      let steady = is_next_expected-IsSteady env m s u.proto u.phase in
      IsUp-dispatch_all ms (is_next_expected env m s) (record {
        phase = steady.phase;
        err = steady.err ∙ u.err;
        proto = (is_next_expected-SameBase env m s).proto ∙ u.proto;
      })

  -- Messages of a kind that nobody awaits are handed over, all and in the order of their arrival,
  -- to the open-ended expectation that comes later; none of them stays cached.
  pub expect_msgs-dispatch_all :
      (h : ℕ) (ms : List MsgIn) (s : Chan)
      → IsUp s
      → find which s.rcv_expecting_msg_map ≡ none
      → find which s.rcv_pending_msgs ≡ none
      → All (IsUnsolicited which) ms
      → let r = expect_msgs which h [] (dispatch_all env ms s) in
        (r.returned ≡ true) × (r.qd_msgs ≡ ms) × (find which r.chan.rcv_pending_msgs ≡ none)
  unfolding expect_msgs check_phase_and_prior_error expect_msgs_impl take_pending
  expect_msgs-dispatch_all h ms s u a p all =
      let t = dispatch_all env ms s in
      let start : Cached which [] s = record { awaited = a; pending = ground arith } in
      let c = cache-All ms [] s all start in
      let up = IsUp-dispatch_all ms s u in
      ground
        (arith, up.phase, up.err, c.awaited, c.pending, find-erase which which t.rcv_pending_msgs)

  -- The messages of a kind that is awaited without end are posted to its handler, all and in the
  -- order of their arrival.
  dispatch_all-expected :
      (h : ℕ) (ms : List MsgIn) (s : Chan)
      → find which s.rcv_expecting_msg_map ≡ some (record { one_expected = false; on_msg_func = h })
      → All (IsUnsolicited which) ms
      → let t = dispatch_all env ms s in
        (t.sync_io_handlers ≡ s.sync_io_handlers ++ map (deliver h) ms)
        × (t.rcv_pending_msgs ≡ s.rcv_pending_msgs)
        × (t.rcv_expecting_msg_map ≡ s.rcv_expecting_msg_map)
  unfolding dispatch_all
  dispatch_all-expected h [] s e all = (sym (append-nil s.sync_io_handlers), refl, refl)
  dispatch_all-expected h (m ∷ ms) s e (u, all) =
      let t = is_next_expected env m s in
      let one : t ≡ record s { sync_io_handlers = s.sync_io_handlers ++ deliver h m ∷ [] } =
        unfold is_next_expected in
        unfold next_unsolicited in unfold handlers_post in ground (arith, u.plain, u.kind, e) in
      let rest =
        dispatch_all-expected h ms t (ap (λ (v : Chan). find which v.rcv_expecting_msg_map) one ∙ e)
          all in
      (
        rest.0
            ∙ ap (λ (v : Chan). v.sync_io_handlers ++ map (deliver h) ms) one
            ∙ append_assoc s.sync_io_handlers (deliver h m ∷ []) (map (deliver h) ms),
        rest.1 ∙ ap (λ (v : Chan). v.rcv_pending_msgs) one,
        rest.2 ∙ ap (λ (v : Chan). v.rcv_expecting_msg_map) one,
      )
