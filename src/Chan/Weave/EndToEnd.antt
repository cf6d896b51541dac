-- ===== src/Chan/Weave/EndToEnd.antt =====
-- A row of sends over two pipes, up to the calls of the handler on the other side.
use mathlib.Core.List.{append_cancel_left}
use mathlib.Core.List.Perm
use native.Mathlib.Bridge.{le_prop}
use ipc_transport_structured.Prelude.{
  ℕ, suc, ◌+◌, ◌≤◌, ◌<◌, ◌≡◌, ◌≢◌, refl, sym, ap, ◌∙◌, subst, true, none, List, [], ◌∷◌, ◌++◌,
  arith, All, map, length, All-perm, length-perm,
}
use ipc_transport_structured.Prelude.Map.{find}
use ipc_transport_structured.Msg.Mdt.{SessionToken}
use ipc_transport_structured.Msg.MsgIn.{Payload, MsgIn, id_or_none}
use ipc_transport_structured.Chan.State.{MsgOut, Sent, Env, Chan, two_pipes, on_msg, id_mod}
use ipc_transport_structured.Chan.Pipe.{
  rcv_sans_hndl_only, rcv_with_hndl_else_error, MsgInPipe, read_lead_msg, Read,
}
use ipc_transport_structured.Chan.Reassembly.{IsConsecutive}
use ipc_transport_structured.Chan.Order.{opened, opened_keeps, IsFine}
use ipc_transport_structured.Chan.Pending.{IsUnsolicited}
use ipc_transport_structured.Chan.Arrival.{IsDistinct, IsReassembling, CanArrive}
use ipc_transport_structured.Chan.Arrival.Complete.{consecutive_unique}
use ipc_transport_structured.Chan.Stream.{waiting}
use ipc_transport_structured.Chan.Stream.Link.{Sendable, Linked, EachSame}
use ipc_transport_structured.Chan.Stream.Sender.{send_each, AllSent}
use ipc_transport_structured.Chan.Weave.Poll.{Expects}
use ipc_transport_structured.Chan.Weave.Pipes.{
  Side, blobs, handles, reads_of, both, read_both, Feeds,
}
use ipc_transport_structured.Chan.Weave.InOrder.{CanArrive-perm, read_both-HeardInOrder}
use ipc_transport_structured.Chan.Weave.Sent.{carried}
use ipc_transport_structured.Chan.Weave.Fed.{EachSound, send_each-Fed}

-- What the messages of a row are, one by one.
record Row (env : Env) (token : SessionToken) (which id : ℕ) (msgs : List MsgOut) (ms : List MsgIn)
    : Type 0 where
  fine : All (IsFine env token) ms
  ahead : All (λ m. id ≤ id_or_none m) ms
  below : All (λ m. id_or_none m < id + length ms) ms
  distinct : IsDistinct ms
  consecutive : IsConsecutive id (map (opened env) ms)
  kinds : All (λ m. IsUnsolicited which (opened env m)) ms
  same : EachSame env token which msgs (map (opened env) ms)
  long : length ms ≡ length msgs

ahead_later :
    (id : ℕ) (ms : List MsgIn)
    → All (λ m. id + 1 ≤ id_or_none m) ms
    → All (λ m. id ≤ id_or_none m) ms
ahead_later id [] a = tt
ahead_later id (m ∷ ms) a = (omega (arith, a.0), ahead_later id ms a.1)

below_later :
    (b c : ℕ) (ms : List MsgIn)
    → b ≡ c
    → All (λ m. id_or_none m < b) ms
    → All (λ m. id_or_none m < c) ms
below_later b c ms e a = subst (λ k. All (λ m. id_or_none m < k) ms) e a

apart_later :
    (id : ℕ) (m : MsgIn) (ms : List MsgIn)
    → id_or_none m ≡ id
    → All (λ k. id + 1 ≤ id_or_none k) ms
    → All (λ k. id_or_none m ≢ id_or_none k) ms
apart_later id m [] e a = tt
apart_later id m (k ∷ ms) e a = ((λ q. omega (arith, e, a.0, q)), apart_later id m ms e a.1)

unseen_empty : (ms : List MsgIn) → All (λ m. find {V = MsgIn} (id_or_none m) [] ≡ none) ms
unfolding find
unseen_empty [] = tt
unseen_empty (m ∷ ms) = (refl, unseen_empty ms)

sound-Row :
    (env : Env) (token : SessionToken) (which id : ℕ) (msgs : List MsgOut) (ms : List MsgIn)
    → EachSound env token which id msgs ms
    → Row env token which id msgs ms
sound-Row env token which id [] [] x = record {
  fine = tt;
  ahead = tt;
  below = tt;
  distinct = tt;
  consecutive = tt;
  kinds = tt;
  same = tt;
  long = refl;
}
sound-Row env token which id [] (m ∷ ms) x = absurd x
sound-Row env token which id (msg ∷ msgs) [] x = absurd x
sound-Row env token which id (msg ∷ msgs) (m ∷ ms) (x, xs) =
    let r = sound-Row env token which (id + 1) msgs ms xs in
    record {
      fine = (x.fine, r.fine);
      ahead = (omega (arith, x.numbered), ahead_later id ms r.ahead);
      below = (
        omega (arith, x.numbered),
        below_later (id + 1 + length ms) (id + suc (length ms)) ms (omega arith) r.below,
      );
      distinct = (apart_later id m ms x.numbered r.ahead, r.distinct);
      consecutive = ((opened_keeps env m).0 ∙ x.numbered, r.consecutive);
      kinds = (record { plain = x.plain; kind = x.kind }, r.kinds);
      same = (x.same, r.same);
      long = ap suc r.long;
    }

-- The handler was called with the messages that were sent.
pub record Conveyed (env : Env) (h which : ℕ) (token : SessionToken) (msgs : List MsgOut)
    (s t : Chan) : Type 0 where
  pub ms : List MsgIn
  pub same : EachSame env token which msgs ms
  pub calls : t.events ≡ s.events ++ map (on_msg h) ms
  pub nothing_queued : t.rcv_reassembly_q ≡ []

module _ (env : Env) (roomy : (sz : ℕ) (segs : List Payload) → env.reader.alloc sz segs ≡ true)
    (h which : ℕ) (token : SessionToken) (pipes : env.pipes ≡ two_pipes) (s t : Chan)
    (k : Linked h which token s t) (proto : t.proto_neg_err_code_or_ok ≡ none) where
  t-IsReassembling : IsReassembling env t
  t-IsReassembling = record {
    pipes = pipes;
    phase = k.listens.phase;
    proto = proto;
    queue = rw k.listens.nothing_queued tt;
  }

  t-Expects : Expects h which [] t
  t-Expects = record {
    posted = k.listens.idle.handlers;
    err = k.listens.idle.err;
    awaited = k.listens.awaited;
    kinds = rw k.listens.nothing_queued tt;
  }

  Row-CanArrive :
      (msgs : List MsgOut) (ms : List MsgIn)
      → s.snd_msg_next_id + 1 + length msgs < id_mod
      → Row env token which s.snd_msg_next_id msgs ms
      → CanArrive env t ms
  Row-CanArrive msgs ms b r = record {
    fine = subst (λ u. All (IsFine env u) ms) (sym k.theirs) r.fine;
    ahead = subst (λ n. All (λ m. n ≤ id_or_none m) ms) k.ids r.ahead;
    unseen = rw k.listens.nothing_queued (unseen_empty ms);
    distinct = r.distinct;
    room =
        let none_there : length t.rcv_reassembly_q ≡ 0 = ap length k.listens.nothing_queued in
        omega (arith, none_there, k.ids, b, r.long);
  }

  module _ (msgs : List MsgOut) (wire : List Sent) (rs : List (Side × Read)) (p q : MsgInPipe) where
    -- What one side sends over two pipes by calls of `send` that set no error becomes, on the other
    -- side, calls of the handler of its kind: one for each message, in the order of the sends, with
    -- the segments, the handle and the session token that were sent, and no other call, however the
    -- reads of the two pipes are interleaved; nothing stays queued. Both sides are logged in with the
    -- same token and have come to the same id, the ids do not wrap around, the side that receives has
    -- no error, neither of its own nor of the negotiation, the kind is awaited without end, nothing is
    -- queued or posted, both pipes are between two messages, the reader has memory, each message has
    -- a body, and its serialization has no empty payload and is read back.
    pub send_each-Conveyed :
        All (Sendable env token which rcv_sans_hndl_only) msgs
        → AllSent env msgs s
        → s.snd_msg_next_id + 1 + length msgs < id_mod
        → (send_each env msgs s).sent ≡ s.sent ++ wire
        → p.lead_msg_mode ≡ rcv_sans_hndl_only
        → q.lead_msg_mode ≡ rcv_with_hndl_else_error
        → reads_of blobs rs ≡ carried blobs wire
        → reads_of handles rs ≡ carried handles wire
        → Conveyed env h which token msgs t
            (read_both env rs (both t (waiting p) read_lead_msg (waiting q) read_lead_msg)).chan
    send_each-Conveyed z a b w mp mq rb rh =
        let f =
          send_each-Fed env roomy which token pipes t k.listens.idle p mp msgs s
            (record { up = k.up; own = k.own; user = k.user }) z a (omega (arith, b)) in
        let on_wire : f.wire ≡ wire = append_cancel_left s.sent f.wire wire (sym f.sent ∙ w) in
        let r = sound-Row env token which s.snd_msg_next_id msgs f.ms f.sound in
        let ns = f.blobs_ms ++ f.handles_ms in
        let below : All (λ m. id_or_none m < t.rcv_msg_next_id + length ns) f.ms =
          below_later (s.snd_msg_next_id + length f.ms) (t.rcv_msg_next_id + length ns) f.ms
            (omega (arith, k.ids, length-perm f.split)) r.below in
        let d =
          read_both-HeardInOrder env h which rs (waiting p) (waiting q) read_lead_msg read_lead_msg
            f.blobs_ms f.handles_ms t
            (subst (λ xs. Feeds env (waiting p) read_lead_msg xs f.blobs_ms)
              (ap (carried blobs) on_wire ∙ sym rb) (f.by_blobs p mp))
            (subst (λ xs. Feeds env (waiting q) read_lead_msg xs f.handles_ms)
              (ap (carried handles) on_wire ∙ sym rh) (f.by_handles q mq))
            t-IsReassembling t-Expects k.listens.nothing_queued
            (CanArrive-perm env t ns f.split (Row-CanArrive msgs f.ms b r))
            (All-perm (λ m. id_or_none m < t.rcv_msg_next_id + length ns) (λ m. le_prop) ns f.split
              below)
            (All-perm (λ m. IsUnsolicited which (opened env m)) (λ m. hlevel) ns f.split r.kinds) in
        let in_turn : d.out ≡ map (opened env) f.ms =
          consecutive_unique t.rcv_msg_next_id d.out (map (opened env) f.ms) d.consecutive
            (subst (λ n. IsConsecutive n (map (opened env) f.ms)) k.ids r.consecutive)
            (Perm.trans d.same (Perm.map (opened env) (Perm.symm f.split))) in
        record {
          ms = map (opened env) f.ms;
          same = r.same;
          calls = d.calls ∙ ap (λ ms. t.events ++ map (on_msg h) ms) in_turn;
          nothing_queued = d.nothing_queued;
        }
