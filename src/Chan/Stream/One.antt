-- ===== src/Chan/Stream/One.antt =====
-- One message from the call of `send` to the call of its handler.
use ipc_transport_structured.Prelude.{
  ℕ, ◌+◌, ◌<◌, ◌≡◌, ◌≢◌, refl, sym, ap, ◌∙◌, subst, true, false, none, some, List, [], ◌∷◌, ◌++◌,
  arith, map, length,
}
use ipc_transport_structured.Error.{ok}
use ipc_transport_structured.Msg.Mdt.{SessionToken, token_eq, mdt_out}
use ipc_transport_structured.Msg.MsgIn.{
  Payload, MsgIn, segments_so_far, deserialize_body, id_or_none, originating_msg_id_or_none,
}
use ipc_transport_structured.Chan.State.{
  MsgOut, Sent, blob, meta_blob, Env, Chan, id_mod, increment, logged_in,
}
use ipc_transport_structured.Chan.Send.{send, send_core}
use ipc_transport_structured.Chan.Pipe.{
  LeadMsgMode, MsgInPipe, read_lead_msg, Read, progress, read_chain,
}
use ipc_transport_structured.Chan.Frame.{send_core-SameBase}
use ipc_transport_structured.Chan.Sending.Wire.{framed}
use ipc_transport_structured.Chan.Order.{opened, IsFine}
use ipc_transport_structured.Chan.Transfer.{arrival, arrivals_of, Transfers, send_core-Transfers}
use ipc_transport_structured.Chan.Stream.{
  heard_one, waiting, complete_msg-Listens, heard_one-Listens,
}
use ipc_transport_structured.Chan.Stream.Link.{arrived, Sendable, Same, Linked}
use ipc_transport_structured.Chan.Stream.Sender.{plain_mdt, numbered, send-send_core, core-phase}

-- One message on the wire, and the call that it leads to.
pub record One (env : Env) (h which : ℕ) (token : SessionToken) (msg : MsgOut) (s t : Chan)
    (pipe : MsgInPipe) : Type 0 where
  pub m : MsgIn
  pub last : MsgInPipe
  pub mode : last.lead_msg_mode ≡ pipe.lead_msg_mode
  pub wire : List Sent
  pub sent : (send env msg none s).chan.sent ≡ s.sent ++ wire
  pub same : Same env token which msg m
  pub outcome :
      (more : List Read)
      → read_chain env (map arrived wire ++ more) (progress t (waiting pipe) read_lead_msg)
        ≡ read_chain env more (progress (heard_one h m t) (waiting last) read_lead_msg)

opened-which :
    (env : Env) (which : ℕ) (m : MsgIn)
    → env.reader.deserialize_which (segments_so_far m.body_reader) ≡ ok which
    → deserialize_body env.reader m
      ≡ (record m { body_which = which; body_deserialized_ok = true }, none)
unfolding deserialize_body
opened-which env which m e = ground arith

opened-originating :
    (env : Env) (m : MsgIn)
    → originating_msg_id_or_none (opened env m) ≡ originating_msg_id_or_none m
unfolding deserialize_body originating_msg_id_or_none
opened-originating env m = ground arith

token_eq_refl : (t u : SessionToken) → t ≡ u → token_eq t u ≡ true
unfolding token_eq
token_eq_refl t u e = ground arith

arrived-blobs : (ps : List Payload) → map arrived (map blob ps) ≡ map (arrival none) ps
arrived-blobs [] = refl
arrived-blobs (p ∷ ps) = ap (λ rs. arrival none p ∷ rs) (arrived-blobs ps)

arrived-metas : (ps : List Payload) → map arrived (map (meta_blob none) ps) ≡ map (arrival none) ps
arrived-metas [] = refl
arrived-metas (p ∷ ps) = ap (λ rs. arrival none p ∷ rs) (arrived-metas ps)

-- A message that the channel agrees to send arrives as it was framed.
arrived-framed :
    (env : Env) (msg : MsgOut) (s : Chan) (p : Payload) (ps : List Payload)
    → (send env msg none s).returned ≡ true
    → map arrived (framed env.pipes msg.hndl_or_null (p ∷ ps)) ≡ arrivals_of msg.hndl_or_null p ps
unfolding send
arrived-framed env msg s p ps r = ground (arith, arrived-blobs ps, arrived-metas ps)

-- A message that arrived whole: it is not refused, and it is the one that was sent.
pub record Sound (env : Env) (token : SessionToken) (which id : ℕ) (msg : MsgOut) (m : MsgIn)
    : Type 0 where
  pub fine : IsFine env token m
  pub numbered : id_or_none m ≡ id
  pub plain : originating_msg_id_or_none (opened env m) ≡ 0
  pub kind : (opened env m).body_which ≡ which
  pub same : Same env token which msg (opened env m)

pub transferred-Sound :
    (env : Env) (token : SessionToken) (which id : ℕ) (msg : MsgOut) (s t : Chan) (pipe : MsgInPipe)
    (mode : LeadMsgMode)
    → id ≢ 0
    → Sendable env token which mode msg
    → (x : Transfers env
        (mdt_out env.order token 0 id (length msg.segments))
        msg
        s
        t
        pipe
        token
        0
        id)
    → Sound env token which id msg x.m
transferred-Sound env token which id msg s t pipe mode n z x =
    let back = opened-which env which x.m (rw x.segments (z.kind x.ps x.body)) in
    let there : Same env token which msg
        (record x.m { body_which = which; body_deserialized_ok = true }) =
      record {
        body = x.body ∙ ap (λ b. ok (segments_so_far b)) (sym x.segments);
        hndl = x.handle;
        authentic = x.authentic;
        kind = refl;
        readable = refl;
      } in
    record {
      fine = record {
        user = λ e. n (sym x.numbered ∙ e);
        readable = ap (λ p. p.1) back;
        authentic = token_eq_refl x.m.session_token token x.authentic;
      };
      numbered = x.numbered;
      plain = opened-originating env x.m ∙ x.answers;
      kind = ap (λ p. p.0.body_which) back;
      same = subst (Same env token which msg) (ap (λ p. p.0) (sym back)) there;
    }

-- The call of `send_core` that a call of `send` with its message sent comes to.
pub send-plain :
    (env : Env) (token : SessionToken) (msg : MsgOut) (s : Chan)
    → s.phase ≡ logged_in
    → s.session_token ≡ token
    → (send env msg none s).returned ≡ true
    → send env msg none s
      ≡ send_core env
          (mdt_out env.order token 0 s.snd_msg_next_id (length msg.segments))
          (some msg)
          false
          (numbered s)
send-plain env token msg s l o r =
    send-send_core env msg s l r
    ∙ ap
        (λ u.
          send_core env (mdt_out env.order u 0 s.snd_msg_next_id (length msg.segments)) (some msg)
            false (numbered s))
        o

module _ (env : Env) (roomy : (sz : ℕ) (segs : List Payload) → env.reader.alloc sz segs ≡ true)
    (h which : ℕ) (token : SessionToken) where
  -- What arrived is handed to the handler.
  handed :
      (msg : MsgOut) (s t : Chan) (pipe : MsgInPipe)
      → Linked h which token s t
      → Sendable env token which pipe.lead_msg_mode msg
      → Transfers env
          (mdt_out env.order token 0 s.snd_msg_next_id (length msg.segments))
          msg
          (numbered s)
          t
          (waiting pipe)
          token
          0
          s.snd_msg_next_id
      → (send env msg none s).returned ≡ true
      → send env msg none s
        ≡ send_core env
            (mdt_out env.order token 0 s.snd_msg_next_id (length msg.segments))
            (some msg)
            false
            (numbered s)
      → One env h which token msg s t pipe
  handed msg s t pipe k z x r core =
      let o =
        transferred-Sound env token which s.snd_msg_next_id msg (numbered s) t (waiting pipe)
          pipe.lead_msg_mode k.user z x in
      record {
        wire = framed env.pipes msg.hndl_or_null (x.p ∷ x.ps);
        m = opened env x.m;
        last = x.delivered.last;
        mode = x.delivered.mode;
        sent = ap (λ o. o.chan.sent) core ∙ x.wire;
        same = o.same;
        outcome = λ more.
            ap (λ rs. read_chain env (rs ++ more) (progress t (waiting pipe) read_lead_msg))
              (arrived-framed env msg s x.p x.ps r)
            ∙ x.delivered.outcome more
            ∙ complete_msg-Listens env h which roomy x.m t x.delivered.last more k.listens
                (subst (λ u. IsFine env u x.m) (sym k.theirs) o.fine) (x.numbered ∙ k.ids) o.plain
                o.kind;
      }

  pub one :
      (msg : MsgOut) (s t : Chan) (pipe : MsgInPipe)
      → Linked h which token s t
      → Sendable env token which pipe.lead_msg_mode msg
      → (send env msg none s).returned ≡ true
      → (send env msg none s).err_code ≡ none
      → One env h which token msg s t pipe
  one msg s t pipe k z r e =
      let id = s.snd_msg_next_id in
      let core = send-plain env token msg s k.up k.own r in
      handed msg s t pipe k z
        (send_core-Transfers env roomy token 0 id msg (numbered s) t (waiting pipe) k.user
          z.some_body (z.serializes id k.user) (ap (λ o. o.err_code) (sym core) ∙ e) z.carried refl
          k.listens.idle)
        r core

  -- The two sides stay linked, as long as the ids do not wrap around.
  pub heard_one-Linked :
      (msg : MsgOut) (m : MsgIn) (s t : Chan)
      → Linked h which token s t
      → s.snd_msg_next_id + 1 < id_mod
      → (send env msg none s).returned ≡ true
      → Linked h which token (send env msg none s).chan (heard_one h m t)
  heard_one-Linked msg m s t k b r =
      let base = send_core-SameBase env (plain_mdt env msg s) (some msg) false (numbered s) in
      let core = ap (λ o. o.chan) (send-send_core env msg s k.up r) in
      subst (λ (u : Chan). Linked h which token u (heard_one h m t)) (sym core)
        (record {
          up = core-phase env (plain_mdt env msg s) (some msg) (numbered s) k.up;
          own = base.token ∙ k.own;
          theirs = k.theirs;
          ids = base.snd_next ∙ ap increment k.ids;
          user = λ e. omega (arith, base.snd_next, e, b);
          listens = heard_one-Listens env h which m t k.listens;
        })

  pub next_id :
      (msg : MsgOut) (s : Chan)
      → s.phase ≡ logged_in
      → s.snd_msg_next_id + 1 < id_mod
      → (send env msg none s).returned ≡ true
      → (send env msg none s).chan.snd_msg_next_id ≡ s.snd_msg_next_id + 1
  next_id msg s l b r =
      let base = send_core-SameBase env (plain_mdt env msg s) (some msg) false (numbered s) in
      let core = ap (λ o. o.chan.snd_msg_next_id) (send-send_core env msg s l r) in
      omega (arith, base.snd_next, core, b)
