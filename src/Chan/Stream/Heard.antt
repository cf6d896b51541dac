-- ===== src/Chan/Stream/Heard.antt =====
-- A row of messages from the calls of `send` to the calls of the handler on the other side.
use mathlib.Core.List.{append-nil, append_assoc, map-append}
use ipc_transport_structured.Prelude.{
  ℕ, ◌+◌, ◌<◌, ◌≡◌, refl, sym, ap, ◌∙◌, subst, true, none, List, [], ◌∷◌, ◌++◌, arith, All, map,
  length,
}
use ipc_transport_structured.Msg.Mdt.{SessionToken}
use ipc_transport_structured.Msg.MsgIn.{Payload, MsgIn}
use ipc_transport_structured.Chan.State.{MsgOut, Sent, Env, Chan, on_msg, id_mod}
use ipc_transport_structured.Chan.Send.{send}
use ipc_transport_structured.Chan.Pipe.{MsgInPipe, read_lead_msg, progress, read_chain}
use ipc_transport_structured.Chan.Stream.{Listens, heard_one, waiting}
use ipc_transport_structured.Chan.Stream.Link.{arrived, Sendable, EachSame, Linked}
use ipc_transport_structured.Chan.Stream.One.{one, heard_one-Linked, next_id}
use ipc_transport_structured.Chan.Stream.Sender.{send_each, AllSent}

-- The messages on the wire, and the calls that they lead to.
pub record Heard (env : Env) (h which : ℕ) (token : SessionToken) (msgs : List MsgOut) (s t : Chan)
    (pipe : MsgInPipe) : Type 0 where
  pub wire : List Sent
  pub sent : (send_each env msgs s).sent ≡ s.sent ++ wire
  pub ms : List MsgIn
  pub same : EachSame env token which msgs ms
  pub end : Chan
  pub last : MsgInPipe
  pub outcome :
      read_chain env (map arrived wire) (progress t (waiting pipe) read_lead_msg)
      ≡ progress end (waiting last) read_lead_msg
  pub calls : end.events ≡ t.events ++ map (on_msg h) ms
  pub listens : Listens h which end
  pub aligned : end.rcv_msg_next_id ≡ (send_each env msgs s).snd_msg_next_id

module _ (env : Env) (roomy : (sz : ℕ) (segs : List Payload) → env.reader.alloc sz segs ≡ true)
    (h which : ℕ) (token : SessionToken) where
  -- What one side sends by calls of `send` that set no error, the reads of it on the other side make
  -- into calls of the handler of its kind: one for each message, in the order of the sends, with the
  -- segments, the handle and the session token that were sent, and with no other call and no error.
  -- Both sides are logged in with the same token and have come to the same id, the ids do not wrap
  -- around, the side that receives has no error, the kind is awaited without end, nothing is queued
  -- or posted, the pipe is between two messages and may carry each of them, the reader has memory,
  -- each message has a body, and its serialization has no empty payload and is read back.
  pub send_each-Heard :
      (msgs : List MsgOut) (s t : Chan) (pipe : MsgInPipe)
      → Linked h which token s t
      → All (Sendable env token which pipe.lead_msg_mode) msgs
      → AllSent env msgs s
      → s.snd_msg_next_id + length msgs < id_mod
      → Heard env h which token msgs s t pipe
  unfolding send_each read_chain
  send_each-Heard [] s t pipe k z a b = record {
    wire = [];
    sent = sym (append-nil s.sent);
    ms = [];
    same = tt;
    end = t;
    last = pipe;
    outcome = refl;
    calls = sym (append-nil t.events);
    listens = k.listens;
    aligned = sym k.ids;
  }
  send_each-Heard (msg ∷ msgs) s t pipe k (z, zs) (r, e, a) b =
      let o = one env roomy h which token msg s t pipe k z r e in
      let s' = (send env msg none s).chan in
      let t' = heard_one h o.m t in
      let next = next_id env roomy h which token msg s k.up (omega arith) r in
      let rest =
        send_each-Heard msgs s' t' o.last
          (heard_one-Linked env roomy h which token msg o.m s t k (omega arith) r)
          (subst (λ mode. All (Sendable env token which mode) msgs) (sym o.mode) zs) a
          (omega (arith, next, b)) in
      record {
        wire = o.wire ++ rest.wire;
        sent = rest.sent ∙ ap (λ xs. xs ++ rest.wire) o.sent ∙ append_assoc s.sent o.wire rest.wire;
        ms = o.m ∷ rest.ms;
        same = (o.same, rest.same);
        end = rest.end;
        last = rest.last;
        outcome =
            ap (λ rs. read_chain env rs (progress t (waiting pipe) read_lead_msg))
              (map-append arrived o.wire rest.wire)
            ∙ o.outcome (map arrived rest.wire)
            ∙ rest.outcome;
        calls = rest.calls ∙ append_assoc t.events (on_msg h o.m ∷ []) (map (on_msg h) rest.ms);
        listens = rest.listens;
        aligned = rest.aligned;
      }
