-- ===== src/Chan/Weave/Handled.antt =====
-- All messages, whatever the order in which they become whole.
use ipc_transport_structured.Prelude.{
  ℕ, ◌+◌, ◌<◌, ◌≡◌, refl, sym, ap, ◌∙◌, List, [], ◌∷◌, ◌++◌, length, map, All, Perm, All-perm,
  subst,
}
use mathlib.Core.List.{append-nil}
use mathlib.Core.List.Perm
use ipc_transport_structured.Msg.MsgIn.{MsgIn, id_or_none}
use ipc_transport_structured.Chan.State.{Env, Chan, deliver, on_msg}
use ipc_transport_structured.Chan.Frame.{with_queue}
use ipc_transport_structured.Chan.Reassembly.{IsConsecutive}
use ipc_transport_structured.Chan.Order.{opened}
use ipc_transport_structured.Chan.Pending.{IsUnsolicited}
use ipc_transport_structured.Chan.Arrival.{unless_failed, arrivals, IsReassembling, CanArrive}
use ipc_transport_structured.Chan.Arrival.Complete.{arrivals-DispatchedInOrder}
use ipc_transport_structured.Chan.Weave.Poll.{
  told, polled, Calm, Expects, handlers_poll-told, dispatch_all-posted,
}
use ipc_transport_structured.Chan.Weave.Step.{arrival-Taken}

-- The calls are those that the state without the handlers run in between has to make.
record Swept (env : Env) (h : ℕ) (ms zs : List MsgIn) (s : Chan) : Type 0 where
  posted : List MsgIn
  calm : Calm env ms (told h zs s)
  same : polled env ms (told h zs s) ≡ told h posted (arrivals env ms s).0
  waits : (arrivals env ms s).0.sync_io_handlers ≡ map (deliver h) posted

-- Each message is handled, and then they have been handed to the handler in the order of their ids.
pub record HandledInOrder (env : Env) (h : ℕ) (ms : List MsgIn) (s : Chan) : Type 0 where
  pub out : List MsgIn
  pub consecutive : IsConsecutive s.rcv_msg_next_id out
  pub same : Perm out (map (opened env) ms)
  pub calm : Calm env ms s
  pub calls : (polled env ms s).events ≡ s.events ++ map (on_msg h) out
  pub nothing_queued : (polled env ms s).rcv_reassembly_q ≡ []

kinds_map :
    (env : Env) (which : ℕ) (ms : List MsgIn)
    → All (λ m. IsUnsolicited which (opened env m)) ms
    → All (IsUnsolicited which) (map (opened env) ms)
kinds_map env which [] u = tt
kinds_map env which (m ∷ ms) (u, us) = (u, kinds_map env which ms us)

module _ (env : Env) (h which : ℕ) where
  swept :
      (ms zs : List MsgIn) (s : Chan)
      → IsReassembling env s
      → CanArrive env s ms
      → Expects h which zs s
      → All (λ m. IsUnsolicited which (opened env m)) ms
      → Swept env h ms zs s
  unfolding arrivals
  swept [] zs s r c x u = record {
    posted = zs;
    calm = record { handlers = refl; err = x.err };
    same = refl;
    waits = x.posted;
  }
  swept (m ∷ ms) zs s r c x (u, us) =
      let k = arrival-Taken env h which m ms zs s r c x u in
      let rest = swept ms k.posted k.t k.reassembling k.arriving k.expects us in
      let on : arrivals env (m ∷ ms) s ≡ arrivals env ms k.t =
        ap (λ v. unless_failed v (arrivals env ms)) k.plain in
      record {
        posted = rest.posted;
        calm = (
          record { handlers = refl; err = x.err },
          k.accepted,
          subst (Calm env ms) (sym k.moved) rest.calm,
        );
        same = ap (polled env ms) k.moved ∙ rest.same ∙ ap (λ v. told h rest.posted v.0) (sym on);
        waits = ap (λ v. v.0.sync_io_handlers) on ∙ rest.waits;
      }

  pub polled-HandledInOrder :
      (ms : List MsgIn) (s : Chan)
      → IsReassembling env s
      → CanArrive env s ms
      → Expects h which [] s
      → s.rcv_reassembly_q ≡ []
      → All (λ m. id_or_none m < s.rcv_msg_next_id + length ms) ms
      → All (λ m. IsUnsolicited which (opened env m)) ms
      → HandledInOrder env h ms s
  unfolding with_queue
  polled-HandledInOrder ms s r c x e full u =
      let d = arrivals-DispatchedInOrder env ms s r c e full in
      let w = swept ms [] s r c x u in
      let kinds : All (IsUnsolicited which) d.out =
        All-perm (IsUnsolicited which) (λ m. hlevel) _ (Perm.symm d.same)
          (kinds_map env which ms u) in
      let begin : told h [] s ≡ s =
        ap (λ es. record s { sync_io_handlers = []; events = es }) (append-nil s.events)
        ∙ ap (λ ts. record s { sync_io_handlers = ts }) (sym x.posted) in
      let end : (arrivals env ms s).0
          ≡ with_queue [] (s.rcv_msg_next_id + length ms)
              (record s { sync_io_handlers = s.sync_io_handlers ++ map (deliver h) d.out }) =
        ap (λ v. v.0) d.outcome
        ∙ ap (with_queue [] (s.rcv_msg_next_id + length ms))
            (dispatch_all-posted env h which d.out s x.awaited kinds) in
      let last = (arrivals env ms s).0 in
      let due : last.sync_io_handlers ≡ map (deliver h) d.out =
        ap (λ (v : Chan). v.sync_io_handlers) end
        ∙ ap (λ ts. ts ++ map (deliver h) d.out) x.posted in
      let whole : polled env ms s ≡ told h d.out last =
        ap (polled env ms) (sym begin)
        ∙ w.same
        ∙ sym (handlers_poll-told h w.posted last w.waits)
        ∙ handlers_poll-told h d.out last due in
      record {
        out = d.out;
        consecutive = d.consecutive;
        same = d.same;
        calm = subst (Calm env ms) begin w.calm;
        calls =
            ap (λ (v : Chan). v.events) whole
            ∙ ap (λ (v : Chan). v.events ++ map (on_msg h) d.out) end;
        nothing_queued =
            ap (λ (v : Chan). v.rcv_reassembly_q) whole ∙ ap (λ (v : Chan). v.rcv_reassembly_q) end;
      }
