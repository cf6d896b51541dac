-- ===== src/Chan/Transfer.antt =====
-- A message from the send on one side to the complete message on the other.
use ipc_transport_structured.Prelude.{
  ℕ, suc, ◌≡◌, ◌≢◌, refl, sym, ap, ◌∙◌, true, false, inr, Option, none, some, List, [], ◌∷◌, ◌++◌,
  map, arith, length, All, is_empty, subst, not, ◌&&◌, is_some,
}
use ipc_transport_structured.Error.{ok}
use ipc_transport_structured.Msg.Mdt.{SessionToken, StructuredMessage, mdt_out}
use ipc_transport_structured.Msg.MsgIn.{
  Payload, MsgIn, new_msg_in, deserialize_mdt, id_or_none, originating_msg_id_or_none,
}
use ipc_transport_structured.Msg.RoundTrip.{deserialize_mdt-mdt_out}
use ipc_transport_structured.Chan.State.{MsgOut, Env, Chan}
use ipc_transport_structured.Chan.Send.{send_core}
use ipc_transport_structured.Chan.Pipe.{wants_hndl, MsgInPipe, read_lead_msg, Read, progress}
use ipc_transport_structured.Chan.Sending.Wire.{framed, send_core-sent}
use ipc_transport_structured.Chan.Framing.{IsSegment, IsIdle, with_body}
use ipc_transport_structured.Chan.Framing.Message.{
  Delivers, IsLead, head_of, completed, bytes_of, read_chain-Delivers,
}

-- What the receive of a payload yields where the pipe carries it, with the handle if there is one.
abbrev pub arrival : Option ℕ → Payload → Read
arrival hndl p = record { err_code = none; hndl = hndl; bytes = p }

abbrev pub arrivals_of : Option ℕ → Payload → List Payload → List Read
arrivals_of hndl p ps = arrival hndl p ∷ map (arrival none) ps

-- What the send relies on of the serialization: no payload is empty, a body has as many payloads as
-- segments, and the metadata is read back.
pub record Serializes (env : Env) (mdt : StructuredMessage) (msg : MsgOut) : Type 0 where
  pub mdt_filled : (p : Payload) → env.emit_mdt mdt ≡ ok p → is_empty p ≡ false
  pub mdt_back :
      (p : Payload) → env.emit_mdt mdt ≡ ok p → env.reader.deserialize_mdt (p ∷ []) ≡ ok mdt
  pub body_filled :
      (ps : List Payload) → env.emit_body msg.segments ≡ ok ps → All (λ p. is_empty p ≡ false) ps
  pub body_length :
      (ps : List Payload) → env.emit_body msg.segments ≡ ok ps → length ps ≡ length msg.segments

-- The message `m` that arrives for what the send put on the wire.
pub record Transfers (env : Env) (mdt : StructuredMessage) (msg : MsgOut) (s : Chan) (t : Chan)
    (pipe : MsgInPipe) (token : SessionToken) (originating id : ℕ) : Type 0 where
  pub p : Payload
  pub ps : List Payload
  pub m : MsgIn
  pub body : env.emit_body msg.segments ≡ ok ps
  pub wire :
      (send_core env mdt (some msg) false s).chan.sent
      ≡ s.sent ++ framed env.pipes msg.hndl_or_null (p ∷ ps)
  pub delivered : Delivers env (arrivals_of msg.hndl_or_null p ps) (progress t pipe read_lead_msg) m
  pub lead : IsLead (arrival msg.hndl_or_null p) pipe
  pub body_arrives : All IsSegment (map (arrival none) ps)
  pub head : MsgIn
  pub decoded :
      deserialize_mdt env.reader env.order (head_of (arrival msg.hndl_or_null p))
      ≡ (head, ok (length (map (arrival none) ps)))
  pub made : m ≡ completed (map (arrival none) ps) head
  pub segments : m.body_reader ≡ some ps
  pub authentic : m.session_token ≡ token
  pub numbered : id_or_none m ≡ id
  pub answers : originating_msg_id_or_none m ≡ originating
  pub handle : m.hndl_or_null ≡ msg.hndl_or_null

segments_arrive :
    (ps : List Payload) → All (λ p. is_empty p ≡ false) ps → All IsSegment (map (arrival none) ps)
segments_arrive [] h = tt
segments_arrive (p ∷ ps) h =
    (record { err = refl; hndl = refl; filled = h.0 }, segments_arrive ps h.1)

length-arrivals : (ps : List Payload) → length (map (arrival none) ps) ≡ length ps
length-arrivals [] = refl
length-arrivals (p ∷ ps) = ap suc (length-arrivals ps)

bytes-arrivals : (ps : List Payload) → map bytes_of (map (arrival none) ps) ≡ ps
bytes-arrivals [] = refl
bytes-arrivals (p ∷ ps) = ap (λ qs. p ∷ qs) (bytes-arrivals ps)

completed-body :
    (ps : List Payload) (m : MsgIn) → ps ≢ [] → completed (map (arrival none) ps) m ≡ with_body ps m
completed-body [] m n = absurd (n refl)
completed-body (p ∷ ps) m n = ap (λ qs. with_body (p ∷ qs) m) (bytes-arrivals ps)

with_body_id : (ps : List Payload) (m : MsgIn) → id_or_none (with_body ps m) ≡ id_or_none m
unfolding id_or_none
with_body_id ps m = refl

with_body_originating :
    (ps : List Payload) (m : MsgIn)
    → originating_msg_id_or_none (with_body ps m) ≡ originating_msg_id_or_none m
unfolding originating_msg_id_or_none
with_body_originating ps m = refl

module _ (env : Env) (roomy : (sz : ℕ) (segs : List Payload) → env.reader.alloc sz segs ≡ true)
    (token : SessionToken) (originating id : ℕ) (msg : MsgOut) where
  abbrev mdt : StructuredMessage
  mdt = mdt_out env.order token originating id (length msg.segments)

  arrives :
      (p : Payload)
      → id ≢ 0
      → length msg.segments ≢ 0
      → env.reader.deserialize_mdt (p ∷ []) ≡ ok mdt
      → let r = deserialize_mdt env.reader env.order (head_of (arrival msg.hndl_or_null p)) in
        (r.1 ≡ ok (length msg.segments))
        × (r.0.session_token ≡ token)
        × (id_or_none r.0 ≡ id)
        × (originating_msg_id_or_none r.0 ≡ originating)
        × (r.0.hndl_or_null ≡ msg.hndl_or_null)
  unfolding new_msg_in
  arrives p i n back =
      let m0 = head_of (arrival msg.hndl_or_null p) in
      let (count, same, number, answer, fine, hndl) =
        deserialize_mdt-mdt_out env.reader env.order m0 token originating id (length msg.segments)
          (inr n) back in
      (ground (arith, count, i), same, number, answer, hndl)

  -- A user message that is sent without an error reaches the other side whole: the receives of what
  -- was put on the wire, over a fresh pipe that may carry its handle, on a channel where no error is
  -- and no handler waits, make exactly one message, with the segments of the body, the handle, the
  -- session token, the id and the originating id of the sender. The reader has memory, the id is that
  -- of a user message, the message has a body, and its serialization has no empty payload and is read
  -- back.
  pub send_core-Transfers :
      (s t : Chan) (pipe : MsgInPipe)
      → id ≢ 0
      → length msg.segments ≢ 0
      → Serializes env mdt msg
      → (send_core env mdt (some msg) false s).err_code ≡ none
      → wants_hndl pipe.lead_msg_mode && not (is_some msg.hndl_or_null) ≡ false
      → pipe.incomplete_msg ≡ record new_msg_in { mdt_reader = some ([] ∷ []) }
      → IsIdle t
      → Transfers env mdt msg s t pipe token originating id
  send_core-Transfers s t pipe i n z sent carried fresh idle =
      let (p, ps, emitted, body, wire) = send_core-sent env mdt msg false s sent in
      let lead = arrival msg.hndl_or_null p in
      let d = deserialize_mdt env.reader env.order (head_of lead) in
      let (count, same, number, answer, hndl) = arrives p i n (z.mdt_back p emitted) in
      let long : length ps ≡ length msg.segments = z.body_length ps body in
      let some_ps : ps ≢ [] = λ e. n (sym long ∙ ap length e) in
      let counted : d ≡ (d.0, ok (length (map (arrival none) ps))) =
        ap (λ r. (d.0, r)) count ∙ ap (λ (k : ℕ). (d.0, ok k)) (sym (length-arrivals ps ∙ long)) in
      let is_lead : IsLead lead pipe = record {
        err = refl;
        hndl = carried;
        filled = z.mdt_filled p emitted;
        fresh = fresh;
      } in
      record {
        p = p;
        ps = ps;
        m = with_body ps d.0;
        body = body;
        wire = wire;
        delivered =
            subst (Delivers env (arrivals_of msg.hndl_or_null p ps) (progress t pipe read_lead_msg))
              (completed-body ps d.0 some_ps)
              (read_chain-Delivers env roomy lead (map (arrival none) ps) d.0 pipe t is_lead
                (segments_arrive ps (z.body_filled ps body)) idle counted);
        lead = is_lead;
        body_arrives = segments_arrive ps (z.body_filled ps body);
        head = d.0;
        decoded = counted;
        made = sym (completed-body ps d.0 some_ps);
        segments = refl;
        authentic = same;
        numbered = with_body_id ps d.0 ∙ number;
        answers = with_body_originating ps d.0 ∙ answer;
        handle = hndl;
      }
