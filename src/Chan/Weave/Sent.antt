-- ===== src/Chan/Weave/Sent.antt =====
-- What a row of sends puts on the two pipes, and what the reads of each pipe make of it.
use ipc_transport_structured.Prelude.{
  ℕ, ◌≡◌, refl, sym, ap, ◌∙◌, subst, true, false, Option, none, some, List, [], ◌∷◌, ◌++◌, All, map,
  length, is_empty,
}
use ipc_transport_structured.Error.{ok}
use ipc_transport_structured.Msg.MsgIn.{Payload, MsgIn, deserialize_mdt}
use ipc_transport_structured.Chan.State.{Sent, blob, meta_blob, Env, two_pipes}
use ipc_transport_structured.Chan.Pipe.{
  rcv_sans_hndl_only, rcv_with_hndl_else_error, MsgInPipe, read_lead_msg, Read,
}
use ipc_transport_structured.Chan.Sending.Wire.{framed}
use ipc_transport_structured.Chan.Framing.{IsSegment}
use ipc_transport_structured.Chan.Framing.Message.{head_of, completed}
use ipc_transport_structured.Chan.Transfer.{arrival}
use ipc_transport_structured.Chan.Stream.{waiting}
use ipc_transport_structured.Chan.Weave.Pipes.{Side, blobs, handles, Feeds}
use ipc_transport_structured.Chan.Weave.Message.{message-Feeds}

-- What the receives of one pipe yield of what was handed to the owned channel.
abbrev pub carried : Side → List Sent → List Read
carried side [] = []
carried blobs (blob p ∷ xs) = arrival none p ∷ carried blobs xs
carried blobs (meta_blob hndl p ∷ xs) = carried blobs xs
carried handles (blob p ∷ xs) = carried handles xs
carried handles (meta_blob hndl p ∷ xs) = arrival hndl p ∷ carried handles xs

carried-blobs :
    (ps : List Payload) (xs : List Sent)
    → (carried blobs (map blob ps ++ xs) ≡ map (arrival none) ps ++ carried blobs xs)
      × (carried handles (map blob ps ++ xs) ≡ carried handles xs)
carried-blobs [] xs = (refl, refl)
carried-blobs (p ∷ ps) xs =
    let more = carried-blobs ps xs in (ap (λ rs. arrival none p ∷ rs) more.0, more.1)

carried-metas :
    (ps : List Payload) (xs : List Sent)
    → (carried handles (map (meta_blob none) ps ++ xs)
        ≡ map (arrival none) ps ++ carried handles xs)
      × (carried blobs (map (meta_blob none) ps ++ xs) ≡ carried blobs xs)
carried-metas [] xs = (refl, refl)
carried-metas (p ∷ ps) xs =
    let more = carried-metas ps xs in (ap (λ rs. arrival none p ∷ rs) more.0, more.1)

-- The payloads of one message, and the message that they make.
pub record Payloads (env : Env) (hndl : Option ℕ) (p : Payload) (ps : List Payload) (m : MsgIn)
    : Type 0 where
  pub filled : is_empty p ≡ false
  pub body : All IsSegment (map (arrival none) ps)
  pub head : MsgIn
  pub decoded :
      deserialize_mdt env.reader env.order (head_of (arrival hndl p))
      ≡ (head, ok (length (map (arrival none) ps)))
  pub made : m ≡ completed (map (arrival none) ps) head

abbrev pub on_blobs : Option ℕ → MsgIn → List MsgIn → List MsgIn
on_blobs none m ms = m ∷ ms
on_blobs (some hndl) m ms = ms

abbrev pub on_handles : Option ℕ → MsgIn → List MsgIn → List MsgIn
on_handles none m ms = ms
on_handles (some hndl) m ms = m ∷ ms

-- The reads of what one pipe carries, whenever it waits for a message.
abbrev pub BlobsFeed : Env → List Sent → List MsgIn → Type 0
BlobsFeed env xs ms =
    (p : MsgInPipe)
    → p.lead_msg_mode ≡ rcv_sans_hndl_only
    → Feeds env (waiting p) read_lead_msg (carried blobs xs) ms

abbrev pub HandlesFeed : Env → List Sent → List MsgIn → Type 0
HandlesFeed env xs ms =
    (p : MsgInPipe)
    → p.lead_msg_mode ≡ rcv_with_hndl_else_error
    → Feeds env (waiting p) read_lead_msg (carried handles xs) ms

module _ (env : Env) (roomy : (sz : ℕ) (segs : List Payload) → env.reader.alloc sz segs ≡ true)
    (p : Payload) (ps : List Payload) (m : MsgIn) (xs : List Sent) (ms : List MsgIn) where
  pub blobs_feed :
      (hndl : Option ℕ)
      → Payloads env hndl p ps m
      → BlobsFeed env xs ms
      → BlobsFeed env (framed two_pipes hndl (p ∷ ps) ++ xs) (on_blobs hndl m ms)
  blobs_feed none y f pipe e =
      subst
        (λ w.
          Feeds env (waiting pipe) read_lead_msg
            (carried blobs (framed two_pipes none (p ∷ ps) ++ xs)) (w ∷ ms))
        (sym y.made)
        (subst
          (λ rs.
            Feeds env (waiting pipe) read_lead_msg (arrival none p ∷ rs)
              (completed (map (arrival none) ps) y.head ∷ ms))
          (sym (carried-blobs ps xs).0)
          (message-Feeds env roomy (arrival none p) (map (arrival none) ps) (carried blobs xs)
            y.head (waiting pipe) ms
            (record { err = refl; hndl = rw e refl; filled = y.filled; fresh = refl }) y.body
            y.decoded (λ last k. f last (k ∙ e))))
  blobs_feed (some a) y f pipe e =
      subst (λ rs. Feeds env (waiting pipe) read_lead_msg rs ms) (sym (carried-metas ps xs).1)
        (f pipe e)

  pub handles_feed :
      (hndl : Option ℕ)
      → Payloads env hndl p ps m
      → HandlesFeed env xs ms
      → HandlesFeed env (framed two_pipes hndl (p ∷ ps) ++ xs) (on_handles hndl m ms)
  handles_feed none y f pipe e =
      subst (λ rs. Feeds env (waiting pipe) read_lead_msg rs ms) (sym (carried-blobs ps xs).1)
        (f pipe e)
  handles_feed (some a) y f pipe e =
      subst
        (λ w.
          Feeds env (waiting pipe) read_lead_msg
            (carried handles (framed two_pipes (some a) (p ∷ ps) ++ xs)) (w ∷ ms))
        (sym y.made)
        (subst
          (λ rs.
            Feeds env (waiting pipe) read_lead_msg (arrival (some a) p ∷ rs)
              (completed (map (arrival none) ps) y.head ∷ ms))
          (sym (carried-metas ps xs).0)
          (message-Feeds env roomy (arrival (some a) p) (map (arrival none) ps) (carried handles xs)
            y.head (waiting pipe) ms
            (record { err = refl; hndl = rw e refl; filled = y.filled; fresh = refl }) y.body
            y.decoded (λ last k. f last (k ∙ e))))
