-- ===== src/Chan/Weave/Fed.antt =====
-- A row of sends over two pipes: the messages that the reads of each pipe put together.
use mathlib.Core.List.{append-nil, append_assoc, perm_middle}
use mathlib.Core.List.Perm
use ipc_transport_structured.Prelude.{
  ℕ, ◌+◌, ◌<◌, ◌≡◌, ◌≢◌, refl, sym, ap, ◌∙◌, subst, true, false, Option, none, some, List, [], ◌∷◌,
  ◌++◌, arith, All, length, Perm,
}
use ipc_transport_structured.Msg.Mdt.{SessionToken, mdt_out}
use ipc_transport_structured.Msg.MsgIn.{Payload, MsgIn}
use ipc_transport_structured.Chan.State.{MsgOut, Sent, Env, Chan, two_pipes, id_mod, logged_in}
use ipc_transport_structured.Chan.Send.{send}
use ipc_transport_structured.Chan.Pipe.{rcv_sans_hndl_only, MsgInPipe}
use ipc_transport_structured.Chan.Sending.Wire.{framed}
use ipc_transport_structured.Chan.Framing.{IsIdle}
use ipc_transport_structured.Chan.Transfer.{send_core-Transfers}
use ipc_transport_structured.Chan.Stream.{waiting}
use ipc_transport_structured.Chan.Stream.Link.{Sendable}
use ipc_transport_structured.Chan.Stream.One.{Sound, transferred-Sound, send-plain}
use ipc_transport_structured.Chan.Stream.Sender.{send_each, AllSent, numbered, core-phase}
use ipc_transport_structured.Chan.Frame.{send_core-SameBase}
use ipc_transport_structured.Chan.Weave.Pipes.{ends}
use ipc_transport_structured.Chan.Weave.Sent.{
  Payloads, on_blobs, on_handles, BlobsFeed, HandlesFeed, blobs_feed, handles_feed,
}

-- The messages in the order of the sends, the first with the id `id`.
abbrev pub EachSound : Env → SessionToken → ℕ → ℕ → List MsgOut → List MsgIn → Type 0
EachSound env token which id [] [] = Unit {0}
EachSound env token which id (msg ∷ msgs) (m ∷ ms) =
    Sound env token which id msg m × EachSound env token which (id + 1) msgs ms
EachSound env token which id _ _ = ⊥

-- What was sent, and what the pipes feed to the channel of it.
pub record Fed (env : Env) (token : SessionToken) (which : ℕ) (msgs : List MsgOut) (s : Chan)
    : Type 0 where
  pub wire : List Sent
  pub sent : (send_each env msgs s).sent ≡ s.sent ++ wire
  pub ms : List MsgIn
  pub blobs_ms : List MsgIn
  pub handles_ms : List MsgIn
  pub split : Perm ms (blobs_ms ++ handles_ms)
  pub by_blobs : BlobsFeed env wire blobs_ms
  pub by_handles : HandlesFeed env wire handles_ms
  pub sound : EachSound env token which s.snd_msg_next_id msgs ms

split_one :
    (hndl : Option ℕ) (m : MsgIn) (ms bs hs : List MsgIn)
    → Perm ms (bs ++ hs)
    → Perm (m ∷ ms) (on_blobs hndl m bs ++ on_handles hndl m hs)
split_one none m ms bs hs p = Perm.cons m p
split_one (some a) m ms bs hs p = Perm.trans (Perm.cons m p) (Perm.symm (perm_middle bs hs))

-- A side that may send.
pub record Ready (token : SessionToken) (s : Chan) : Type 0 where
  pub up : s.phase ≡ logged_in
  pub own : s.session_token ≡ token
  pub user : s.snd_msg_next_id ≢ 0

module _ (env : Env) (roomy : (sz : ℕ) (segs : List Payload) → env.reader.alloc sz segs ≡ true)
    (which : ℕ) (token : SessionToken) (pipes : env.pipes ≡ two_pipes) (t : Chan) (idle : IsIdle t)
    (pipe : MsgInPipe) (mode : pipe.lead_msg_mode ≡ rcv_sans_hndl_only) where
  next-Ready :
      (msg : MsgOut) (s : Chan)
      → Ready token s
      → s.snd_msg_next_id + 1 < id_mod
      → (send env msg none s).returned ≡ true
      → Ready token (send env msg none s).chan
        × ((send env msg none s).chan.snd_msg_next_id ≡ s.snd_msg_next_id + 1)
  next-Ready msg s k b r =
      let core = ap (λ o. o.chan) (send-plain env token msg s k.up k.own r) in
      let mdt = mdt_out env.order token 0 s.snd_msg_next_id (length msg.segments) in
      let base = send_core-SameBase env mdt (some msg) false (numbered s) in
      let next : (send env msg none s).chan.snd_msg_next_id ≡ s.snd_msg_next_id + 1 =
        omega (arith, ap (λ (u : Chan). u.snd_msg_next_id) core, base.snd_next, b) in
      (
        record {
          up = ap (λ (u : Chan). u.phase) core ∙ core-phase env mdt (some msg) (numbered s) k.up;
          own = ap (λ (u : Chan). u.session_token) core ∙ base.token ∙ k.own;
          user = λ e. omega (arith, next, e);
        },
        next,
      )

  pub send_each-Fed :
      (msgs : List MsgOut) (s : Chan)
      → Ready token s
      → All (Sendable env token which rcv_sans_hndl_only) msgs
      → AllSent env msgs s
      → s.snd_msg_next_id + length msgs < id_mod
      → Fed env token which msgs s
  unfolding send_each
  send_each-Fed [] s k z a b = record {
    wire = [];
    sent = sym (append-nil s.sent);
    ms = [];
    blobs_ms = [];
    handles_ms = [];
    split = Perm.rfl;
    by_blobs = λ p e. ends;
    by_handles = λ p e. ends;
    sound = tt;
  }
  send_each-Fed (msg ∷ msgs) s k (z, zs) (r, e, a) b =
      let id = s.snd_msg_next_id in
      let core = send-plain env token msg s k.up k.own r in
      let x =
        send_core-Transfers env roomy token 0 id msg (numbered s) t (waiting pipe) k.user
          z.some_body (z.serializes id k.user) (ap (λ o. o.err_code) (sym core) ∙ e) (rw mode refl)
          refl idle in
      let y : Payloads env msg.hndl_or_null x.p x.ps x.m = record {
        filled = x.lead.filled;
        body = x.body_arrives;
        head = x.head;
        decoded = x.decoded;
        made = x.made;
      } in
      let after = next-Ready msg s k (omega arith) r in
      let rest =
        send_each-Fed msgs (send env msg none s).chan after.0 zs a (omega (arith, after.1, b)) in
      let here = framed two_pipes msg.hndl_or_null (x.p ∷ x.ps) in
      record {
        wire = here ++ rest.wire;
        sent =
            rest.sent
            ∙ ap (λ xs. xs ++ rest.wire)
                (ap (λ o. o.chan.sent) core
                  ∙ x.wire
                  ∙ ap (λ w. s.sent ++ framed w msg.hndl_or_null (x.p ∷ x.ps)) pipes)
            ∙ append_assoc s.sent here rest.wire;
        ms = x.m ∷ rest.ms;
        blobs_ms = on_blobs msg.hndl_or_null x.m rest.blobs_ms;
        handles_ms = on_handles msg.hndl_or_null x.m rest.handles_ms;
        split = split_one msg.hndl_or_null x.m rest.ms rest.blobs_ms rest.handles_ms rest.split;
        by_blobs =
            blobs_feed env roomy x.p x.ps x.m rest.wire rest.blobs_ms msg.hndl_or_null y
              rest.by_blobs;
        by_handles =
            handles_feed env roomy x.p x.ps x.m rest.wire rest.handles_ms msg.hndl_or_null y
              rest.by_handles;
        sound = (
          transferred-Sound env token which id msg (numbered s) t (waiting pipe) rcv_sans_hndl_only
              k.user z x,
          subst (λ n. EachSound env token which n msgs rest.ms) after.1 rest.sound,
        );
      }
