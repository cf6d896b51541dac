-- ===== src/Chan/Errors/Steps/Chains.antt =====
-- What a read chain that stops has reported to the user.
use ipc_transport_structured.Prelude.{
  Bool, true, false, not, inl, inr, Option, Bool-cases, is_some, ℕ, ◌+◌, ◌≡◌, ◌≢◌, refl, sym, ap,
  ◌∙◌, none, some, List, [], ◌∷◌, ◌++◌, arith,
}
use ipc_transport_structured.Error.{ErrorCode}
use ipc_transport_structured.Chan.State.{Env, Chan, Event, on_error}
use ipc_transport_structured.Chan.Handlers.{handlers_post, handlers_poll, handle_new_error}
use ipc_transport_structured.Chan.Pipe.{
  RcvNextStep, read_lead_msg, read_cont_msg, MsgInPipe, stop, Read, Progress, progress,
  on_async_read_lead_msg, on_async_read_continuation_msg, read_chain,
}
use ipc_transport_structured.Chan.Verdict.{reports, reports-append, Accepts, Accepts-refl}
use ipc_transport_structured.Chan.Errors.{
  due, OneReport, errors, handlers_poll-SamePart, handlers_poll-OneReport, handlers_poll-on_err,
  hosed-reported,
}
use ipc_transport_structured.Chan.Errors.Reads.{
  misread, misreads, lead-misread, Went, goes_on, stops, lead-Went, cont-Went,
}

-- The handler was called last, with the error code that the channel now has, and that is a truthy
-- one or not.
pub record Told (h : ℕ) (truthy : Bool) (s : Chan) : Type 0 where
  pub before : List Event
  pub events : s.events ≡ before ++ on_error h s.channel_err_code_or_ok ∷ []
  pub code : is_some s.channel_err_code_or_ok ≡ truthy

-- A channel without an error whose handler `h` waits for one.
pub record Healthy (h : ℕ) (s : Chan) : Type 0 where
  pub quiet : due s ≡ 0
  pub err : s.channel_err_code_or_ok ≡ none
  pub on_err : s.on_err_func ≡ some h
  pub proto : s.proto_neg_err_code_or_ok ≡ none

pub new_error-err :
    (e : Option ErrorCode) (u : Chan) → (handle_new_error e u).channel_err_code_or_ok ≡ e
unfolding handle_new_error handlers_post
new_error-err e u = refl

pub Healthy-OneReport : (h : ℕ) (s : Chan) → Healthy h s → OneReport s
Healthy-OneReport h s k = record {
  at_most_one = omega (arith, k.quiet);
  none_before = λ e. k.quiet;
}

-- An error that a healthy channel gets is told to the user, once the handlers have run.
pub hosed-Told :
    (h : ℕ) (s u : Chan) (e : Option ErrorCode)
    → Accepts s u
    → Healthy h s
    → Told h (is_some e) (handlers_poll (handle_new_error e u))
hosed-Told h s u e a k =
    let (before, events) = hosed-reported s u h e a (Healthy-OneReport h s k) k.err k.on_err in
    let err = (handlers_poll-SamePart (handle_new_error e u)).0 ∙ new_error-err e u in
    record {
      before = before;
      events = events ∙ ap (λ c. before ++ on_error h c ∷ []) (sym err);
      code = ap is_some err;
    }

-- One that goes on leaves the channel healthy.
Accepts-Healthy : (h : ℕ) (s t : Chan) → Accepts s t → Healthy h s → Healthy h (handlers_poll t)
Accepts-Healthy h s t a k =
    let more : reports t.sync_io_handlers ≡ reports s.sync_io_handlers + reports a.posted =
      ap reports a.handlers ∙ reports-append s.sync_io_handlers a.posted in
    let same = ap errors a.events in
    let polled = handlers_poll-SamePart t in
    let one : OneReport (handlers_poll t) = handlers_poll-OneReport t (record {
      at_most_one = omega (arith, more, same, a.quiet, k.quiet);
      none_before = λ e. omega (arith, more, same, a.quiet, k.quiet);
    }) in
    record {
      quiet = one.none_before (polled.0 ∙ a.err ∙ k.err);
      err = polled.0 ∙ a.err ∙ k.err;
      on_err = handlers_poll-on_err t (omega (arith, more, a.quiet, k.quiet)) ∙ a.on_err ∙ k.on_err;
      proto = polled.1 ∙ a.proto ∙ k.proto;
    }

module _ (env : Env) (h : ℕ) where
  chain_stopped :
      (rs : List Read) (s : Chan) (pipe : MsgInPipe)
      → read_chain env rs (progress s pipe stop) ≡ progress s pipe stop
  unfolding read_chain
  chain_stopped [] s pipe = refl
  chain_stopped (r ∷ rs) s pipe = refl

  nothing_misread :
      (rs : List Read) (s : Chan) (pipe : MsgInPipe)
      → misreads env rs (progress s pipe stop) ≡ false
  unfolding misreads
  nothing_misread [] s pipe = refl
  nothing_misread (r ∷ rs) s pipe = refl

  after_read :
      (rs : List Read) (s : Chan) (q : Progress)
      → Went s q
      → Healthy h s
      → ((p : Progress)
          → Healthy h p.chan
          → p.next ≢ stop
          → (read_chain env rs p).next ≡ stop
          → Told h (not (misreads env rs p)) (read_chain env rs p).chan)
      → let p = progress (handlers_poll q.chan) q.pipe q.next in
        (read_chain env rs p).next ≡ stop
        → Told h (not (misreads env rs p)) (read_chain env rs p).chan
  after_read rs s q (goes_on {t} pipe {next} a n) k ih stopped =
      ih (progress (handlers_poll t) pipe next) (Accepts-Healthy h s t a k) n stopped
  after_read rs s q (stops {u} pipe e a) k ih stopped =
      let t = handlers_poll (handle_new_error (some e) u) in
      rw (chain_stopped rs t pipe, nothing_misread rs t pipe) (hosed-Told h s u (some e) a k)

  chain_misread :
      (r : Read) (rs : List Read) (p : Progress)
      → p.next ≡ read_lead_msg
      → misread r p.pipe p.chan ≡ true
      → read_chain env (r ∷ rs) p
        ≡ progress (handlers_poll (handle_new_error none p.chan)) p.pipe stop
  unfolding read_chain
  chain_misread r rs p e m =
      let t = handlers_poll (handle_new_error none p.chan) in
      rw (e, lead-misread env r p.pipe p.chan m) (chain_stopped rs t p.pipe)

  chain_misreads :
      (r : Read) (rs : List Read) (p : Progress)
      → p.next ≡ read_lead_msg
      → misread r p.pipe p.chan ≡ true
      → misreads env (r ∷ rs) p ≡ true
  unfolding misreads
  chain_misreads r rs p e m = ground (arith, e, m)

  chain_go :
      (rs : List Read) (p : Progress) (next : RcvNextStep)
      → p.next ≡ next
      → Healthy h p.chan
      → next ≢ stop
      → (read_chain env rs p).next ≡ stop
      → Told h (not (misreads env rs p)) (read_chain env rs p).chan
  unfolding read_chain misreads
  chain_go [] p next e k n stopped = absurd (n (sym e ∙ stopped))
  chain_go (r ∷ rs) p stop e k n stopped = absurd (n refl)
  chain_go (r ∷ rs) p read_lead_msg e k n stopped = elim (Bool-cases (misread r p.pipe p.chan)) [
    | inl m ↦
        rw (chain_misread r rs p e m, chain_misreads r rs p e m)
          (hosed-Told h p.chan p.chan none (Accepts-refl p.chan) k)
    | inr m ↦
        rw (e, m)
          (after_read rs p.chan (on_async_read_lead_msg env r p.pipe p.chan)
            (lead-Went env r p.pipe p.chan m k.proto k.err) k
            (λ p' k' n' s'. chain_go rs p' p'.next refl k' n' s') (rw e at stopped))
  ]
  chain_go (r ∷ rs) p read_cont_msg e k n stopped = rw e (
      after_read rs p.chan (on_async_read_continuation_msg env r p.pipe p.chan)
        (cont-Went env r p.pipe p.chan k.proto k.err) k
        (λ p' k' n' s'. chain_go rs p' p'.next refl k' n' s') (rw e at stopped))

  -- A read chain that begins on a channel without an error, whose error handler is set, and stops
  -- has called that handler, as the last call of all, with the error code that the channel then has.
  -- The code is a falsy one, which leaves the channel unhosed, exactly if the chain came to a lead
  -- message without its handle on a pipe for messages with one.
  pub read_chain-Told :
      (rs : List Read) (p : Progress)
      → Healthy h p.chan
      → p.next ≢ stop
      → (read_chain env rs p).next ≡ stop
      → Told h (not (misreads env rs p)) (read_chain env rs p).chan
  read_chain-Told rs p k n stopped = chain_go rs p p.next refl k n stopped
