-- ===== src/Chan/Sending/Wire.antt =====
-- The payloads of an out-message on the wire: `send_core` with its loops over the blobs.
use mathlib.Core.List.{append-nil, append_assoc}
use ipc_transport_structured.Prelude.{
  ℕ, ◌≡◌, ◌≢◌, refl, sym, ap, ◌∙◌, Bool, ◌⊎◌, inl, inr, Option, none, some, List, [], ◌∷◌, ◌++◌,
  map, arith, is_some, Option-cases, Bool-cases, if◌then◌else◌,
}
use ipc_transport_structured.Error.{ErrorCode, Result, ok, err}
use ipc_transport_structured.Msg.Mdt.{StructuredMessage}
use ipc_transport_structured.Msg.MsgIn.{Payload}
use ipc_transport_structured.Chan.State.{
  Pipes, blob_pipe_only, native_handle_pipe_only, two_pipes, MsgOut, Sent, blob, meta_blob, Env,
  Chan,
}
use ipc_transport_structured.Chan.Send.{
  send_blobs, send_meta_blobs, by_pipes, send_payloads, serialize, handle_of, conclude_send,
  send_core,
}

-- The messages of the owned channel that carry the payloads: blobs through the blob pipe; through
-- the pipe of handles meta-blobs, the first of which has the handle.
abbrev pub with_handle : Option ℕ → List Payload → List Sent
with_handle hndl [] = []
with_handle hndl (p ∷ ps) = meta_blob hndl p ∷ map (meta_blob none) ps

abbrev pub framed : Pipes → Option ℕ → List Payload → List Sent
framed blob_pipe_only hndl ps = map blob ps
framed native_handle_pipe_only hndl ps = with_handle hndl ps
framed two_pipes hndl ps = if is_some hndl then with_handle hndl ps else map blob ps

-- What was sent of a list before the first error: all of it, or a part from the front.
pub data Went (whole : List Sent) (before : List Sent) : List Sent × Option ErrorCode → Type 0 where
  all : {after : List Sent} → after ≡ before ++ whole → Went whole before (after, none)
  cut :
      {after : List Sent} (part lost : List Sent) (e : ErrorCode)
      → whole ≡ part ++ lost
      → lost ≢ []
      → after ≡ before ++ part
      → Went whole before (after, some e)

Went-cons :
    (x : Sent) (xs sent : List Sent) (r : List Sent × Option ErrorCode)
    → Went xs (sent ++ x ∷ []) r
    → Went (x ∷ xs) sent r
Went-cons x xs sent r (all e) = all (e ∙ append_assoc sent (x ∷ []) xs)
Went-cons x xs sent r (cut part lost c w n e) =
    cut (x ∷ part) lost c (ap (λ ys. x ∷ ys) w) n (e ∙ append_assoc sent (x ∷ []) part)

module _ (transmit : List Sent → Sent → Option ErrorCode) where
  send_blobs-Went :
      (sent : List Sent) (ps : List Payload) → Went (map blob ps) sent (send_blobs transmit sent ps)
  unfolding send_blobs
  send_blobs-Went sent [] = all (sym (append-nil sent))
  send_blobs-Went sent (p ∷ ps) = elim (Option-cases (transmit sent (blob p))) [
    | inl e ↦
        rw (e, send_blobs)
          (Went-cons (blob p) (map blob ps) sent _ (send_blobs-Went (sent ++ blob p ∷ []) ps))
    | inr (c, e) ↦
        rw (e, send_blobs) (cut [] (map blob (p ∷ ps)) c refl (λ n. cc) (sym (append-nil sent)))
  ]

  meta_rest-Went :
      (sent : List Sent) (ps : List Payload)
      → Went (map (meta_blob none) ps) sent (send_meta_blobs transmit none sent ps)
  unfolding send_meta_blobs
  meta_rest-Went sent [] = all (sym (append-nil sent))
  meta_rest-Went sent (p ∷ ps) = elim (Option-cases (transmit sent (meta_blob none p))) [
    | inl e ↦
        rw (e, send_meta_blobs)
          (Went-cons (meta_blob none p) (map (meta_blob none) ps) sent _
            (meta_rest-Went (sent ++ meta_blob none p ∷ []) ps))
    | inr (c, e) ↦
        rw (e, send_meta_blobs)
          (cut [] (map (meta_blob none) (p ∷ ps)) c refl (λ n. cc) (sym (append-nil sent)))
  ]

  send_meta_blobs-Went :
      (hndl : Option ℕ) (sent : List Sent) (ps : List Payload)
      → Went (with_handle hndl ps) sent (send_meta_blobs transmit hndl sent ps)
  unfolding send_meta_blobs
  send_meta_blobs-Went hndl sent [] = all (sym (append-nil sent))
  send_meta_blobs-Went hndl sent (p ∷ ps) = elim (Option-cases (transmit sent (meta_blob hndl p))) [
    | inl e ↦
        rw (e, send_meta_blobs)
          (Went-cons (meta_blob hndl p) (map (meta_blob none) ps) sent _
            (meta_rest-Went (sent ++ meta_blob hndl p ∷ []) ps))
    | inr (c, e) ↦
        rw (e, send_meta_blobs)
          (cut [] (with_handle hndl (p ∷ ps)) c refl (λ n. cc) (sym (append-nil sent)))
  ]

-- The payloads of a message go out in order, through the pipe that is meant for them, with the
-- handle on the first alone; an error of the owned channel ends the sending short of the rest.
pub send_payloads-Went :
    (env : Env) (hndl : Option ℕ) (sent : List Sent) (ps : List Payload)
    → Went (framed env.pipes hndl ps) sent (send_payloads env hndl sent ps)
unfolding send_payloads by_pipes
send_payloads-Went env hndl sent ps = by env.pipes
  where
    by :
        (pipes : Pipes)
        → Went (framed pipes hndl ps) sent (by_pipes pipes hndl env.transmit sent ps)
    by blob_pipe_only = send_blobs-Went env.transmit sent ps
    by native_handle_pipe_only = send_meta_blobs-Went env.transmit hndl sent ps
    by two_pipes = elim (Bool-cases (is_some hndl)) [
      | inl h ↦ rw h (send_meta_blobs-Went env.transmit hndl sent ps)
      | inr h ↦ rw h (send_blobs-Went env.transmit sent ps)
    ]

pub Result-cases {ℓ} :
    {A : Type ℓ} (r : Result A) → ((a : A) × (r ≡ ok a)) ⊎ ((e : ErrorCode) × (r ≡ err e))
Result-cases (ok a) = inl (a, refl)
Result-cases (err e) = inr (e, refl)

-- Without an error, all that a send adds is the metadata and then the segments of the body.
conclude-sent :
    (whole before : List Sent) (ignore : Bool) (r : List Sent × Option ErrorCode) (s : Chan)
    → Went whole before r
    → (conclude_send ignore r s).err_code ≡ none
    → (conclude_send ignore r s).chan.sent ≡ before ++ whole
unfolding conclude_send
conclude-sent whole before ignore r s (all e) n = e
conclude-sent whole before ignore r s (cut part lost c w l e) n = absurd (ground arith)

pub serialize-ok :
    (env : Env) (mdt : StructuredMessage) (msg : MsgOut) (p : Payload) (ps : List Payload)
    → env.emit_mdt mdt ≡ ok p
    → env.emit_body msg.segments ≡ ok ps
    → serialize env mdt (some msg) ≡ ok (p ∷ ps)
unfolding serialize
serialize-ok env mdt msg p ps e f = ground arith

pub send_core-opens :
    (env : Env) (mdt : StructuredMessage) (msg : Option MsgOut) (ignore : Bool) (s : Chan)
    (ps : List Payload)
    → s.proto_neg_err_code_or_ok ≡ none
    → serialize env mdt msg ≡ ok ps
    → send_core env mdt msg ignore s
      ≡ conclude_send ignore (send_payloads env (handle_of msg) s.sent ps) s
unfolding send_core
send_core-opens env mdt msg ignore s ps e f = ground arith

-- A send that sets no error has put on the wire, in this order and after all that went before, the
-- serialized metadata and the segments that the body serializes to, and nothing else.
pub send_core-sent :
    (env : Env) (mdt : StructuredMessage) (msg : MsgOut) (ignore : Bool) (s : Chan)
    → (send_core env mdt (some msg) ignore s).err_code ≡ none
    → (p : Payload) × (ps : List Payload) × (env.emit_mdt mdt ≡ ok p)
      × (env.emit_body msg.segments ≡ ok ps)
      × ((send_core env mdt (some msg) ignore s).chan.sent
          ≡ s.sent ++ framed env.pipes msg.hndl_or_null (p ∷ ps))
unfolding send_core serialize
send_core-sent env mdt msg ignore s n = elim (Option-cases s.proto_neg_err_code_or_ok) [
  | inr (c, e) ↦ absurd (ground arith)
  | inl e ↦ elim (Result-cases (env.emit_mdt mdt)) [
    | inr (c, f) ↦ absurd (ground arith)
    | inl (p, f) ↦ elim (Result-cases (env.emit_body msg.segments)) [
      | inr (c, g) ↦ absurd (ground arith)
      | inl (ps, g) ↦
          let r = send_payloads env msg.hndl_or_null s.sent (p ∷ ps) in
          let opens =
            send_core-opens env mdt (some msg) ignore s (p ∷ ps) e
              (serialize-ok env mdt msg p ps f g) in
          (
            p,
            ps,
            f,
            g,
            rw opens (
                conclude-sent (framed env.pipes msg.hndl_or_null (p ∷ ps)) s.sent ignore r s
                  (send_payloads-Went env msg.hndl_or_null s.sent (p ∷ ps)) (rw opens at n)),
          )
    ]
  ]
]
