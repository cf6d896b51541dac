-- ===== src/Chan/Weave/InOrder.antt =====
-- Messages over two pipes that are read in any order reach the handler in the order of their ids.
use mathlib.Core.List.{Permᴰ}
use mathlib.Core.List.Perm
use mathlib.Core.Logic.{∥∥₁_elim}
use mathlib.Core.HLevel.{×_prop, Unit-prop}
use native.Mathlib.Bridge.{le_prop}
use ipc_transport_structured.Prelude.{
  ℕ, ◌+◌, ◌≤◌, ◌<◌, ◌≡◌, ◌≢◌, sym, ap, ◌∙◌, none, List, [], ◌∷◌, ◌++◌, length, map, All, Perm,
  All-perm, All-permᴰ, All-prop, length-perm, subst, arith,
}
use ipc_transport_structured.Prelude.Map.{find}
use ipc_transport_structured.Msg.MsgIn.{MsgIn, id_or_none}
use ipc_transport_structured.Chan.State.{Env, Chan, on_msg}
use ipc_transport_structured.Chan.Pipe.{MsgInPipe, RcvNextStep, Read}
use ipc_transport_structured.Chan.Reassembly.{IsConsecutive}
use ipc_transport_structured.Chan.Order.{opened, IsFine}
use ipc_transport_structured.Chan.Pending.{IsUnsolicited}
use ipc_transport_structured.Chan.Arrival.{IsDistinct, IsReassembling, CanArrive}
use ipc_transport_structured.Chan.Weave.Poll.{Expects}
use ipc_transport_structured.Chan.Weave.Handled.{polled-HandledInOrder}
use ipc_transport_structured.Chan.Weave.Pipes.{
  Side, blobs, handles, reads_of, both, read_both, Feeds, woven,
}

abbrev IsApart : List MsgIn → MsgIn → Type 0
IsApart ms m = All (λ k. id_or_none m ≢ id_or_none k) ms

apart_from_prop : (m k : MsgIn) → IsProp (id_or_none m ≢ id_or_none k)
apart_from_prop m k = hlevel

IsDistinct-prop : (ms : List MsgIn) → IsProp (IsDistinct ms)
IsDistinct-prop [] = Unit-prop
IsDistinct-prop (m ∷ ms) =
    ×_prop (All-prop (λ k. id_or_none m ≢ id_or_none k) (apart_from_prop m) ms) (IsDistinct-prop ms)

IsDistinct-permᴰ : {ms ns : List MsgIn} → Permᴰ ms ns → IsDistinct ms → IsDistinct ns
IsDistinct-permᴰ Permᴰ.nil d = d
IsDistinct-permᴰ (Permᴰ.cons {a = x} {l₂ = ys} e p) (a, d) = (
  subst (IsApart ys) e (All-permᴰ (λ k. id_or_none x ≢ id_or_none k) (apart_from_prop x) p a),
  IsDistinct-permᴰ p d,
)
IsDistinct-permᴰ (Permᴰ.swap {l = l} e f) ((ab, al), (bl, d)) = (
  ((λ q. ab (ap id_or_none e ∙ sym q ∙ sym (ap id_or_none f))), subst (IsApart l) f bl),
  (subst (IsApart l) e al, d),
)
IsDistinct-permᴰ (Permᴰ.trans p q) d = IsDistinct-permᴰ q (IsDistinct-permᴰ p d)

pub IsDistinct-perm :
    {ms : List MsgIn} (ns : List MsgIn) → Perm ms ns → IsDistinct ms → IsDistinct ns
IsDistinct-perm ns p d = ∥∥₁_elim p (IsDistinct-prop ns) (λ q. IsDistinct-permᴰ q d)

IsFine-prop : (env : Env) (s : Chan) (m : MsgIn) → IsProp (IsFine env s.session_token m)
IsFine-prop env s m = hlevel

pub CanArrive-perm :
    (env : Env) (s : Chan) {ms : List MsgIn} (ns : List MsgIn)
    → Perm ms ns
    → CanArrive env s ms
    → CanArrive env s ns
CanArrive-perm env s ns p c = record {
  fine = All-perm (IsFine env s.session_token) (IsFine-prop env s) ns p c.fine;
  ahead = All-perm (λ m. s.rcv_msg_next_id ≤ id_or_none m) (λ m. le_prop) ns p c.ahead;
  unseen =
      All-perm (λ m. find (id_or_none m) s.rcv_reassembly_q ≡ none) (λ m. hlevel) ns p c.unseen;
  distinct = IsDistinct-perm ns p c.distinct;
  room = omega (arith, length-perm p, c.room);
}

-- The handler was called once for each message of either pipe, in the order of the ids.
pub record HeardInOrder (env : Env) (h : ℕ) (ms : List MsgIn) (s t : Chan) : Type 0 where
  pub out : List MsgIn
  pub consecutive : IsConsecutive s.rcv_msg_next_id out
  pub same : Perm out (map (opened env) ms)
  pub calls : t.events ≡ s.events ++ map (on_msg h) out
  pub nothing_queued : t.rcv_reassembly_q ≡ []

-- However the reads of the two pipes are interleaved, if the reads of one make up the messages `ms`
-- and those of the other `ns`, the handler of their kind is called once with each of these messages,
-- in the order of their ids, and nothing stays queued: on a logged-in channel with two pipes and
-- without an error, of its own or of the negotiation, on which nothing is queued or posted and the
-- kind is awaited without end, for sound messages of that kind that answer no request, whose ids are
-- the next ones without a gap and do not wrap around.
pub read_both-HeardInOrder :
    (env : Env) (h which : ℕ) (rs : List (Side × Read)) (p q : MsgInPipe) (n k : RcvNextStep)
    (ms ns : List MsgIn) (s : Chan)
    → Feeds env p n (reads_of blobs rs) ms
    → Feeds env q k (reads_of handles rs) ns
    → IsReassembling env s
    → Expects h which [] s
    → s.rcv_reassembly_q ≡ []
    → CanArrive env s (ms ++ ns)
    → All (λ m. id_or_none m < s.rcv_msg_next_id + length (ms ++ ns)) (ms ++ ns)
    → All (λ m. IsUnsolicited which (opened env m)) (ms ++ ns)
    → HeardInOrder env h (ms ++ ns) s (read_both env rs (both s p n q k)).chan
read_both-HeardInOrder env h which rs p q n k ms ns s f g r x e c full u =
    let w = woven env rs p q n k ms ns f g in
    let back = Perm.symm w.same in
    let short : All (λ m. id_or_none m < s.rcv_msg_next_id + length w.order) w.order =
      subst (λ j. All (λ m. id_or_none m < s.rcv_msg_next_id + j) w.order) (length-perm back)
        (All-perm (λ m. id_or_none m < s.rcv_msg_next_id + length (ms ++ ns)) (λ m. le_prop) w.order
          back full) in
    let d =
      polled-HandledInOrder env h which w.order s r (CanArrive-perm env s w.order back c) x e short
        (All-perm (λ m. IsUnsolicited which (opened env m)) (λ m. hlevel) w.order back u) in
    let whole = w.outcome s d.calm in
    record {
      out = d.out;
      consecutive = d.consecutive;
      same = Perm.trans d.same (Perm.map (opened env) w.same);
      calls = ap (λ (v : Chan). v.events) whole ∙ d.calls;
      nothing_queued = ap (λ (v : Chan). v.rcv_reassembly_q) whole ∙ d.nothing_queued;
    }
