-- ===== src/Heap/Config/Fits.antt =====
-- Over a channel whose builders are configured for it, no blob is too large for its pipe.
use mathlib.Core.List.{append-nil}
use ipc_transport_structured.Prelude.{
  ℕ, ◌≤◌, ◌≡◌, refl, sym, ap, ◌∙◌, subst, inl, inr, Option, none, some, List, [], ◌∷◌, ◌++◌, map,
  arith, length, All, is_some, Bool, true, false, Option-cases, either_branch, min,
}
use ipc_transport_structured.Error.{ErrorCode, ok, sends_finished_cannot_send}
use ipc_transport_structured.Msg.Mdt.{StructuredMessage}
use ipc_transport_structured.Msg.MsgIn.{Payload}
use ipc_transport_structured.Chan.State.{
  Pipes, blob_pipe_only, native_handle_pipe_only, two_pipes, MsgOut, Sent, blob, meta_blob, Env,
  Chan,
}
use ipc_transport_structured.Chan.Send.{Outcome, send_core, conclude_send, serialize, send_payloads}
use ipc_transport_structured.Chan.Sending.Wire.{
  framed, with_handle, Went, all, cut, send_payloads-Went, Result-cases, serialize-ok,
  send_core-opens,
}
use ipc_transport_structured.Heap.Builder.{emit_serialization}
use ipc_transport_structured.Heap.Sizes.{Written, used, emit_serialization-Written}
use ipc_transport_structured.Heap.Config.{BuilderConfig, heap_fixed_builder_config, emit}

-- Payloads that a builder of the configuration emitted, capnp having kept to the areas.
pub record Built (cfg : BuilderConfig) (out : List Payload) : Type 0 where
  pub areas : List ℕ
  pub segs : List Payload
  pub kept : Written cfg.segment_sz areas segs
  pub emitted : emit cfg areas segs ≡ ok out

Built-small :
    (cfg : BuilderConfig) (out : List Payload)
    → Built cfg out
    → All (λ p. length p ≤ cfg.segment_sz) out
unfolding emit
Built-small cfg out b =
    let r =
      emit_serialization b.segs [] none
        (used cfg.segment_sz cfg.frame_prefix_sz cfg.frame_postfix_sz b.areas) in
    let w =
      emit_serialization-Written cfg.segment_sz cfg.frame_prefix_sz cfg.frame_postfix_sz b.areas
        b.segs [] b.kept in
    let fine : r.err_code ≡ none = ground (arith, b.emitted) in
    let same : out ≡ b.segs = ground (arith, b.emitted, fine, w.0) in
    subst (All (λ p. length p ≤ cfg.segment_sz)) (sym same) (w.1.0 fine)

-- What the owned channel takes: its limits on blobs and on meta-blobs.
abbrev pub Fits : ℕ → ℕ → Sent → Type 0
Fits blob_max meta_blob_max (blob p) = length p ≤ blob_max
Fits blob_max meta_blob_max (meta_blob hndl p) = length p ≤ meta_blob_max

module _ (blob_max meta_blob_max : ℕ) where
  abbrev Fit : List Sent → Type 0
  Fit xs = All (Fits blob_max meta_blob_max) xs

  blobs-Fit : (ps : List Payload) → All (λ p. length p ≤ blob_max) ps → Fit (map blob ps)
  blobs-Fit [] h = tt
  blobs-Fit (p ∷ ps) (h, hs) = (h, blobs-Fit ps hs)

  meta_rest-Fit :
      (ps : List Payload) → All (λ p. length p ≤ meta_blob_max) ps → Fit (map (meta_blob none) ps)
  meta_rest-Fit [] h = tt
  meta_rest-Fit (p ∷ ps) (h, hs) = (h, meta_rest-Fit ps hs)

  meta-Fit :
      (hndl : Option ℕ) (ps : List Payload)
      → All (λ p. length p ≤ meta_blob_max) ps
      → Fit (with_handle hndl ps)
  meta-Fit hndl [] h = tt
  meta-Fit hndl (p ∷ ps) (h, hs) = (h, meta_rest-Fit ps hs)

  front-Fit : (xs ys : List Sent) → Fit (xs ++ ys) → Fit xs
  front-Fit [] ys h = tt
  front-Fit (x ∷ xs) ys (h, hs) = (h, front-Fit xs ys hs)

  weaken :
      (m n : ℕ) (ps : List Payload)
      → m ≤ n
      → All (λ p. length p ≤ m) ps
      → All (λ p. length p ≤ n) ps
  weaken m n [] le h = tt
  weaken m n (p ∷ ps) le (h, hs) = (omega (arith, h, le), weaken m n ps le hs)

  -- Whichever pipe the payloads go through, they fit it.
  framed-Fit :
      (pipes : Pipes) (hndl : Option ℕ) (ps : List Payload)
      → let sz = (heap_fixed_builder_config pipes blob_max meta_blob_max).segment_sz in
        All (λ p. length p ≤ sz) ps → Fit (framed pipes hndl ps)
  unfolding heap_fixed_builder_config
  framed-Fit blob_pipe_only hndl ps h = blobs-Fit ps h
  framed-Fit native_handle_pipe_only hndl ps h = meta-Fit hndl ps h
  framed-Fit two_pipes hndl ps h =
      let sz = min meta_blob_max blob_max in
      either_branch Fit (is_some hndl)
        (meta-Fit hndl ps (weaken sz meta_blob_max ps (omega arith) h))
        (blobs-Fit ps (weaken sz blob_max ps (omega arith) h))

  Went-Fit :
      (whole before : List Sent) (r : List Sent × Option ErrorCode)
      → Went whole before r
      → Fit whole
      → (xs : List Sent) × (r.0 ≡ before ++ xs) × Fit xs
  Went-Fit whole before r (all e) f = (whole, e, f)
  Went-Fit whole before r (cut part lost c w n e) f = (part, e, front-Fit part lost (subst Fit w f))

  conclude-sent :
      (ignore : Bool) (r : List Sent × Option ErrorCode) (s : Chan)
      → (conclude_send ignore r s).chan.sent ≡ r.0
  unfolding conclude_send
  conclude-sent ignore (xs, none) s = refl
  conclude-sent ignore (xs, some sends_finished_cannot_send) s = refl
  conclude-sent true (xs, some e) s = ground arith
  conclude-sent false (xs, some e) s = ground arith

  module _ (env : Env) (mdt : StructuredMessage) (msg : MsgOut) (ignore : Bool) (s : Chan) where
    abbrev cfg : BuilderConfig
    cfg = heap_fixed_builder_config env.pipes blob_max meta_blob_max

    payloads-Fit :
        (ps : List Payload)
        → s.proto_neg_err_code_or_ok ≡ none
        → serialize env mdt (some msg) ≡ ok ps
        → All (λ p. length p ≤ cfg.segment_sz) ps
        → (xs : List Sent) × ((send_core env mdt (some msg) ignore s).chan.sent ≡ s.sent ++ xs)
          × Fit xs
    payloads-Fit ps e f h =
        let r = send_payloads env msg.hndl_or_null s.sent ps in
        let (xs, w, fit) =
          Went-Fit (framed env.pipes msg.hndl_or_null ps) s.sent r
            (send_payloads-Went env msg.hndl_or_null s.sent ps)
            (framed-Fit env.pipes msg.hndl_or_null ps h) in
        (
          xs,
          ap (λ (o : Outcome). o.chan.sent) (send_core-opens env mdt (some msg) ignore s ps e f)
              ∙ conclude-sent ignore r s
              ∙ w,
          fit,
        )

    -- If the metadata and the body are emitted by heap builders with the configuration that is
    -- computed for the channel, then all that a send puts on the wire, also one that fails on the
    -- way, is within the limit of the pipe that it goes through.
    pub send_core-Fits :
        ((p : Payload) → env.emit_mdt mdt ≡ ok p → Built cfg (p ∷ []))
        → ((ps : List Payload) → env.emit_body msg.segments ≡ ok ps → Built cfg ps)
        → (xs : List Sent) × ((send_core env mdt (some msg) ignore s).chan.sent ≡ s.sent ++ xs)
          × All (Fits blob_max meta_blob_max) xs
    unfolding send_core serialize
    send_core-Fits m b = elim (Option-cases s.proto_neg_err_code_or_ok) [
      | inr (c, e) ↦ ([], ground (arith, append-nil s.sent), tt)
      | inl e ↦ elim (Result-cases (env.emit_mdt mdt)) [
        | inr (c, f) ↦ ([], ground (arith, append-nil s.sent), tt)
        | inl (p, f) ↦ elim (Result-cases (env.emit_body msg.segments)) [
          | inr (c, g) ↦ ([], ground (arith, append-nil s.sent), tt)
          | inl (ps, g) ↦
              payloads-Fit (p ∷ ps) e (serialize-ok env mdt msg p ps f g)
                ((Built-small cfg (p ∷ []) (m p f)).0, Built-small cfg ps (b ps g))
        ]
      ]
    ]
