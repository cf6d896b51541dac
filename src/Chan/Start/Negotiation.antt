-- ===== src/Chan/Start/Negotiation.antt =====
-- What the user learns of a negotiation that fails, and that two pipes negotiate once.
use ipc_transport_structured.Prelude.{
  ℕ, ◌≡◌, ◌≢◌, sym, true, inl, inr, none, some, arith, ◌==◌, Option-cases, Bool-cases, subst,
}
use ipc_transport_structured.Error.{ok}
use ipc_transport_structured.Msg.MsgIn.{MsgIn}
use ipc_transport_structured.Chan.State.{Chan}
use ipc_transport_structured.Chan.Handlers.{handlers_poll, handle_new_error}
use ipc_transport_structured.Chan.Pipe.{MsgInPipe, read_lead_msg, stop, Read, progress}
use ipc_transport_structured.Chan.Verdict.{Accepts-refl}
use ipc_transport_structured.Chan.Errors.Reads.{handle_async-clear, handle_async-new}
use ipc_transport_structured.Chan.Errors.Steps.Chains.{Told, Healthy, hosed-Told}
use ipc_transport_structured.Chan.Sending.Wire.{Result-cases}
use ipc_transport_structured.Chan.Start.{
  Negotiators, Negotiated, received, negotiate, on_async_read_proto_neg_msg,
}

module _ (neg : Negotiators) where
  -- A read of the negotiation message that stops a pipe, on a channel without an error whose error
  -- handler is set, has called that handler, last of all, with the error, a truthy one, that the
  -- channel then has.
  pub on_async_read_proto_neg_msg-Told :
      (h : ℕ) (r : Read) (pipe : MsgInPipe) (g : Negotiated) (s : Chan)
      → Healthy h s
      → let q = on_async_read_proto_neg_msg neg r pipe (g, s) in
        q.1.next ≡ stop → Told h true q.1.chan
  unfolding on_async_read_proto_neg_msg
  on_async_read_proto_neg_msg-Told h r pipe g s k stopped = elim (Option-cases r.err_code) [
    | inr (e, f) ↦
        rw (handle_async-new r.err_code e s f k.err) (hosed-Told h s s (some e) (Accepts-refl s) k)
    | inl f ↦
        let clear = handle_async-clear r.err_code s f k.err in
        elim (Bool-cases (g.ver == neg.ver_unknown)) [
          | inr v ↦ absurd (ground (arith, clear))
          | inl v ↦ elim (Option-cases (negotiate neg (received neg r) g).1) [
            | inl n ↦ absurd (ground (arith, clear))
            | inr (e, n) ↦
                let here : (on_async_read_proto_neg_msg neg r pipe (g, s)).1.chan
                    ≡ handlers_poll (handle_new_error (some e) s) =
                  ground (arith, clear) in
                subst (Told h true) (sym here) (hosed-Told h s s (some e) (Accepts-refl s) k)
          ]
        ]
  ]

  negotiate-known :
      (ver : ℕ × ℕ) (g : Negotiated)
      → ((v w : ℕ) → neg.compute_negotiated_proto_ver v ≡ ok w → w ≢ neg.ver_unknown)
      → (negotiate neg ver g).1 ≡ none
      → (negotiate neg ver g).0.ver ≢ neg.ver_unknown
  unfolding negotiate
  negotiate-known (v, v') g known n = elim (Result-cases (neg.compute_negotiated_proto_ver v)) [
    | inr (e, f) ↦ absurd (ground arith)
    | inl (w, f) ↦ elim (Result-cases (neg.compute_negotiated_proto_ver_aux v')) [
      | inr (e, f') ↦ absurd (ground arith)
      | inl (w', f') ↦ λ u. known v w f (ground arith)
    ]
  ]

  goes_on :
      (r : Read) (pipe : MsgInPipe) (g : Negotiated) (s : Chan)
      → r.err_code ≡ none
      → s.channel_err_code_or_ok ≡ none
      → g.ver ≢ neg.ver_unknown
      → on_async_read_proto_neg_msg neg r pipe (g, s) ≡ (g, progress s pipe read_lead_msg)
  unfolding on_async_read_proto_neg_msg
  goes_on r pipe g s e c n = ground (arith, handle_async-clear r.err_code s e c)

  known_after :
      (r : Read) (pipe : MsgInPipe) (g : Negotiated) (s : Chan)
      → ((v w : ℕ) → neg.compute_negotiated_proto_ver v ≡ ok w → w ≢ neg.ver_unknown)
      → (on_async_read_proto_neg_msg neg r pipe (g, s)).1.next ≡ read_lead_msg
      → (on_async_read_proto_neg_msg neg r pipe (g, s)).0.ver ≢ neg.ver_unknown
  unfolding on_async_read_proto_neg_msg
  known_after r pipe g s known n = ground (arith, negotiate-known (received neg r) g known)

  -- Once one pipe has negotiated, the other goes on to its first message with what was negotiated,
  -- whatever its negotiation message says, provided that a version computed is never the unknown one.
  pub on_async_read_proto_neg_msg-once :
      (r r' : Read) (pipe pipe' : MsgInPipe) (g : Negotiated) (s : Chan)
      → ((v w : ℕ) → neg.compute_negotiated_proto_ver v ≡ ok w → w ≢ neg.ver_unknown)
      → r'.err_code ≡ none
      → let q = on_async_read_proto_neg_msg neg r pipe (g, s) in
        q.1.next ≡ read_lead_msg
        → q.1.chan.channel_err_code_or_ok ≡ none
        → on_async_read_proto_neg_msg neg r' pipe' (q.0, q.1.chan)
          ≡ (q.0, progress q.1.chan pipe' read_lead_msg)
  on_async_read_proto_neg_msg-once r r' pipe pipe' g s known e n c =
      let q = on_async_read_proto_neg_msg neg r pipe (g, s) in
      goes_on r' pipe' q.0 q.1.chan e c (known_after r pipe g s known n)
