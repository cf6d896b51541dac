-- ===== src/Chan/Weave/Pipes.antt =====
-- The reads of the two pipes in any order: each pipe puts together its own messages, and the
-- messages of both are handled as they become whole.
use mathlib.Core.List.{perm_middle}
use mathlib.Core.List.Perm
use ipc_transport_structured.Prelude.{
  ◌≡◌, refl, ap, ◌∙◌, Bool, true, false, List, [], ◌∷◌, ◌++◌, Perm,
}
use ipc_transport_structured.Msg.MsgIn.{MsgIn}
use ipc_transport_structured.Chan.State.{Env, Chan}
use ipc_transport_structured.Chan.Handlers.{handlers_poll}
use ipc_transport_structured.Chan.Receive.{new_msg_in}
use ipc_transport_structured.Chan.Pipe.{
  MsgInPipe, RcvNextStep, read_lead_msg, Read, Progress, progress, read_chain,
}
use ipc_transport_structured.Chan.Framing.{IsIdle}
use ipc_transport_structured.Chan.Stream.{waiting}
use ipc_transport_structured.Chan.Weave.Poll.{polled, Calm}

pub data Side : Type 0 where
  blobs handles : Side

abbrev pub same_side : Side → Side → Bool
same_side blobs blobs = true
same_side handles handles = true
same_side _ _ = false

-- A channel with its two in-pipes, and what each pipe reads next.
pub record Both : Type 0 where
  pub chan : Chan
  pub blobs_pipe : MsgInPipe
  pub blobs_next : RcvNextStep
  pub handles_pipe : MsgInPipe
  pub handles_next : RcvNextStep

abbrev pub both : Chan → MsgInPipe → RcvNextStep → MsgInPipe → RcvNextStep → Both
both s p n q k = record {
  chan = s;
  blobs_pipe = p;
  blobs_next = n;
  handles_pipe = q;
  handles_next = k;
}

-- The reads of one pipe among those of both.
abbrev pub reads_of : Side → List (Side × Read) → List Read
reads_of side [] = []
reads_of blobs ((blobs, r) ∷ rs) = r ∷ reads_of blobs rs
reads_of blobs ((handles, r) ∷ rs) = reads_of blobs rs
reads_of handles ((blobs, r) ∷ rs) = reads_of handles rs
reads_of handles ((handles, r) ∷ rs) = r ∷ reads_of handles rs

module _ (env : Env) where
  abbrev pub read_side : Side → Read → Both → Both
  read_side blobs r b =
      let q = read_chain env (r ∷ []) (progress b.chan b.blobs_pipe b.blobs_next) in
      record b { chan = q.chan; blobs_pipe = q.pipe; blobs_next = q.next }
  read_side handles r b =
      let q = read_chain env (r ∷ []) (progress b.chan b.handles_pipe b.handles_next) in
      record b { chan = q.chan; handles_pipe = q.pipe; handles_next = q.next }

  -- One read after another, from whichever pipe has something to read.
  abbrev pub read_both : List (Side × Read) → Both → Both
  read_both [] b = b
  read_both ((side, r) ∷ rs) b = read_both rs (read_side side r b)

  -- What the reads of one pipe put together, over a channel that is idle between them.
  pub data Feeds : MsgInPipe → RcvNextStep → List Read → List MsgIn → Type 0 where
    ends : {pipe : MsgInPipe} {next : RcvNextStep} → Feeds pipe next [] []
    part :
        {pipe : MsgInPipe} {next : RcvNextStep} {r : Read} {rs : List Read} {ms : List MsgIn}
        (pipe' : MsgInPipe) (next' : RcvNextStep)
        → ((s : Chan)
            → IsIdle s
            → read_chain env (r ∷ []) (progress s pipe next) ≡ progress s pipe' next')
        → Feeds pipe' next' rs ms
        → Feeds pipe next (r ∷ rs) ms
    whole :
        {pipe : MsgInPipe} {next : RcvNextStep} {r : Read} {rs : List Read} (m : MsgIn)
        (ms : List MsgIn) (last : MsgInPipe)
        → ((s : Chan)
            → IsIdle s
            → (new_msg_in env m s).1 ≡ true
            → read_chain env (r ∷ []) (progress s pipe next)
              ≡ progress (handlers_poll (new_msg_in env m s).0) (waiting last) read_lead_msg)
        → Feeds (waiting last) read_lead_msg rs ms
        → Feeds pipe next (r ∷ rs) (m ∷ ms)

  Calm-IsIdle : (ms : List MsgIn) (s : Chan) → Calm env ms s → IsIdle s
  Calm-IsIdle [] s c = c
  Calm-IsIdle (m ∷ ms) s c = c.0

  -- The order in which the messages become whole.
  pub record Woven (rs : List (Side × Read)) (p q : MsgInPipe) (n k : RcvNextStep)
      (ms ns : List MsgIn) : Type 0 where
    pub order : List MsgIn
    pub same : Perm order (ms ++ ns)
    pub outcome :
        (s : Chan) → Calm env order s → (read_both rs (both s p n q k)).chan ≡ polled env order s

  pub woven :
      (rs : List (Side × Read)) (p q : MsgInPipe) (n k : RcvNextStep) (ms ns : List MsgIn)
      → Feeds p n (reads_of blobs rs) ms
      → Feeds q k (reads_of handles rs) ns
      → Woven rs p q n k ms ns
  woven [] p q n k ms ns ends ends = record { order = []; same = Perm.rfl; outcome = λ s c. refl }
  woven ((blobs, r) ∷ rs) p q n k ms ns (part p' n' step f) g =
      let w = woven rs p' q n' k ms ns f g in
      record {
        order = w.order;
        same = w.same;
        outcome = λ s c.
            ap (λ (x : Progress). (read_both rs (both x.chan x.pipe x.next q k)).chan)
              (step s (Calm-IsIdle w.order s c))
            ∙ w.outcome s c;
      }
  woven ((blobs, r) ∷ rs) p q n k all ns (whole m ms last step f) g =
      let w = woven rs (waiting last) q read_lead_msg k ms ns f g in
      record {
        order = m ∷ w.order;
        same = Perm.cons m w.same;
        outcome = λ s c.
            ap (λ (x : Progress). (read_both rs (both x.chan x.pipe x.next q k)).chan)
              (step s c.0 c.1)
            ∙ w.outcome (handlers_poll (new_msg_in env m s).0) c.2;
      }
  woven ((handles, r) ∷ rs) p q n k ms ns f (part q' k' step g) =
      let w = woven rs p q' n k' ms ns f g in
      record {
        order = w.order;
        same = w.same;
        outcome = λ s c.
            ap (λ (x : Progress). (read_both rs (both x.chan p n x.pipe x.next)).chan)
              (step s (Calm-IsIdle w.order s c))
            ∙ w.outcome s c;
      }
  woven ((handles, r) ∷ rs) p q n k ms all f (whole m ns last step g) =
      let w = woven rs p (waiting last) n read_lead_msg ms ns f g in
      record {
        order = m ∷ w.order;
        same = Perm.trans (Perm.cons m w.same) (Perm.symm (perm_middle ms ns));
        outcome = λ s c.
            ap (λ (x : Progress). (read_both rs (both x.chan p n x.pipe x.next)).chan)
              (step s c.0 c.1)
            ∙ w.outcome (handlers_poll (new_msg_in env m s).0) c.2;
      }
