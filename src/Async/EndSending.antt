-- ===== src/Async/EndSending.antt =====
-- channel.hpp: async_end_sending. What the owned channel may answer, what the channel owes to the
-- caller, and what keeps it as it is.
pub mod Steps
pub mod Once
use mathlib.Core.List.{append-nil}
use ipc_transport_structured.Prelude.{
  ℕ, ◌+◌, ◌≡◌, refl, sym, ap, ◌∙◌, Bool, true, false, not, ◌||◌, Option, none, some, List, [], ◌∷◌,
  ◌++◌, arith, if◌then◌else◌, is_some,
}
use ipc_transport_structured.Error.{ErrorCode}
use ipc_transport_structured.Msg.MsgIn.{MsgIn}
use ipc_transport_structured.Chan.State.{
  Env, Chan, Event, on_msg, on_unexpected_response, on_remote_unexpected_response, on_error,
}
use ipc_transport_structured.Async.State.{
  Posted, invoke, invoke_all, invoke_unexpected, invoke_remote_unexpected, invoke_error,
  invoke_end_sending, Call, handler, end_sending_done, Wrapper, Closure, around, of_request, decode,
  post, call,
}
use ipc_transport_structured.Async.Worker.{
  on_delivery, on_event, on_events, settle, invoke_each, run_posted,
}
use ipc_transport_structured.Async.Calls
use ipc_transport_structured.Async.Calls.{EndAnswer, refused, would_block, completed}
use ipc_transport_structured.Async.Actions.{Action, ends_sending, sending_ended, perform}
use ipc_transport_structured.Sync.{on_response, on_error as on_error_posted}

-- Whether the owned channel has been asked to end the sending, and whether it has completed that.
pub data Asked : Type 0 where
  not_asked waits answered : Asked

-- What it documents: after a call that it accepted it refuses every other.
abbrev pub answers : EndAnswer → Asked → Option Asked
answers refused k = some k
answers would_block not_asked = some waits
answers would_block _ = none
answers (completed e) not_asked = some answered
answers (completed e) _ = none

-- It is asked only if no handler is saved, after `start_ops`; and it completes what would have
-- blocked once. `none` means that it has broken this.
abbrev pub asks : Action → Wrapper → Asked → Option Asked
asks (ends_sending answer h) w k =
    if is_some w.snd_end_sending_on_done_func_or_empty || not w.sync_io.started_ops
    then some k
    else answers answer k
asks (sending_ended e) w waits = some answered
asks (sending_ended e) w _ = none
asks _ w k = some k

-- The handler that an operation takes over from its caller, if it returns true.
abbrev pub accepted : Action → Wrapper → List ℕ
accepted (ends_sending answer h) w = if (Calls.async_end_sending answer h w).1 then h ∷ [] else []
accepted _ w = []

abbrev pub ended_by : Call → List ℕ
ended_by (handler e) = []
ended_by (end_sending_done h e) = h ∷ []

-- The completion handlers that have been called.
abbrev pub ended : List Call → List ℕ
ended [] = []
ended (c ∷ cs) = ended_by c ++ ended cs

abbrev pub ending : Posted → ℕ
ending (invoke_end_sending e) = 1
ending _ = 0

abbrev pub endings : List Posted → ℕ
endings [] = 0
endings (p ∷ ps) = ending p + endings ps

pub endings-append : (ps qs : List Posted) → endings (ps ++ qs) ≡ endings ps + endings qs
endings-append [] qs = omega arith
endings-append (p ∷ ps) qs = omega (arith, endings-append ps qs)

pub ended-append : (cs ds : List Call) → ended (cs ++ ds) ≡ ended cs ++ ended ds
ended-append [] ds = refl
ended-append (handler e ∷ cs) ds = ended-append cs ds
ended-append (end_sending_done h e ∷ cs) ds = ap (λ hs. h ∷ hs) (ended-append cs ds)

-- The handlers taken over, and how far they have come.
pub data Owes (taken : List ℕ) (w : Wrapper) : Asked → Type 0 where
  nothing_taken :
      taken ≡ []
      → ended w.calls ≡ []
      → w.snd_end_sending_on_done_func_or_empty ≡ none
      → endings w.worker ≡ 0
      → Owes taken w not_asked
  waiting :
      (h : ℕ)
      → taken ≡ h ∷ []
      → ended w.calls ≡ []
      → w.snd_end_sending_on_done_func_or_empty ≡ some h
      → endings w.worker ≡ 0
      → Owes taken w waits
  posted :
      (h : ℕ)
      → taken ≡ h ∷ []
      → ended w.calls ≡ []
      → w.snd_end_sending_on_done_func_or_empty ≡ some h
      → endings w.worker ≡ 1
      → Owes taken w answered
  told :
      (h : ℕ)
      → taken ≡ h ∷ []
      → ended w.calls ≡ h ∷ []
      → w.snd_end_sending_on_done_func_or_empty ≡ none
      → endings w.worker ≡ 0
      → Owes taken w answered

-- What most operations keep.
pub record Aside (w u : Wrapper) : Type 0 where
  pub func : u.snd_end_sending_on_done_func_or_empty ≡ w.snd_end_sending_on_done_func_or_empty
  pub worker : endings u.worker ≡ endings w.worker
  pub calls : ended u.calls ≡ ended w.calls

pub Aside-refl : (w : Wrapper) → Aside w w
Aside-refl w = record { func = refl; worker = refl; calls = refl }

pub Aside-trans : (w u v : Wrapper) → Aside w u → Aside u v → Aside w v
Aside-trans w u v a b = record {
  func = b.func ∙ a.func;
  worker = b.worker ∙ a.worker;
  calls = b.calls ∙ a.calls;
}

pub Owes-Aside :
    (taken : List ℕ) (w u : Wrapper) (k : Asked) → Aside w u → Owes taken w k → Owes taken u k
Owes-Aside taken w u k a (nothing_taken t e f n) =
    nothing_taken t (a.calls ∙ e) (a.func ∙ f) (a.worker ∙ n)
Owes-Aside taken w u k a (waiting h t e f n) = waiting h t (a.calls ∙ e) (a.func ∙ f) (a.worker ∙ n)
Owes-Aside taken w u k a (posted h t e f n) = posted h t (a.calls ∙ e) (a.func ∙ f) (a.worker ∙ n)
Owes-Aside taken w u k a (told h t e f n) = told h t (a.calls ∙ e) (a.func ∙ f) (a.worker ∙ n)

pub post-Aside : (p : Posted) (w : Wrapper) → ending p ≡ 0 → Aside w (post p w)
unfolding post
post-Aside p w z = record {
  func = refl;
  worker = omega (arith, endings-append w.worker (p ∷ []));
  calls = refl;
}

call-Aside : (e : Event) (w : Wrapper) → Aside w (call (handler e) w)
unfolding call
call-Aside e w = record {
  func = refl;
  worker = refl;
  calls = ended-append w.calls (handler e ∷ []) ∙ append-nil (ended w.calls);
}

on_response-Aside : (id : ℕ) (m : MsgIn) (w : Wrapper) → Aside w (on_response id m w)
unfolding on_response
on_response-Aside id m w = record {
  func = ground arith;
  worker = ground arith;
  calls = ground arith;
}

on_delivery-Aside : (c : Closure) (m : MsgIn) (w : Wrapper) → Aside w (on_delivery c m w)
unfolding on_delivery
on_delivery-Aside (around h) m w = post-Aside (invoke h m) w refl
on_delivery-Aside (of_request id) m w = on_response-Aside id m w

on_event-Aside : (e : Event) (w : Wrapper) → Aside w (on_event e w)
unfolding on_event
on_event-Aside (on_msg n m) w = on_delivery-Aside (decode n) m w
on_event-Aside (on_unexpected_response h m) w = post-Aside (invoke_unexpected h m) w refl
on_event-Aside (on_remote_unexpected_response h id text) w =
    post-Aside (invoke_remote_unexpected h id text) w refl
on_event-Aside (on_error h e) w = post-Aside (invoke_error h e) w refl

on_events-Aside : (es : List Event) (w : Wrapper) → Aside w (on_events es w)
unfolding on_events
on_events-Aside [] w = Aside-refl w
on_events-Aside (e ∷ es) w =
    Aside-trans w (on_event e w) (on_events es (on_event e w)) (on_event-Aside e w)
      (on_events-Aside es (on_event e w))

pub settle-Aside : (s : Chan) (w : Wrapper) → Aside w (settle s w)
unfolding settle
settle-Aside s w =
    let u : Wrapper = record w { sync_io = record s { events = [] } } in
    let a = on_events-Aside s.events u in
    record { func = a.func; worker = a.worker; calls = a.calls }

invoke_each-Aside : (h : ℕ) (ms : List MsgIn) (w : Wrapper) → Aside w (invoke_each h ms w)
unfolding invoke_each
invoke_each-Aside h [] w = Aside-refl w
invoke_each-Aside h (m ∷ ms) w =
    let u = call (handler (on_msg h m)) w in
    Aside-trans w u (invoke_each h ms u) (call-Aside (on_msg h m) w) (invoke_each-Aside h ms u)

on_error-Aside : (h : ℕ) (e : Option ErrorCode) (w : Wrapper) → Aside w (on_error_posted h e w)
unfolding on_error_posted call
on_error-Aside h e w =
    let same = ended-append w.calls (handler (on_error h e) ∷ []) ∙ append-nil (ended w.calls) in
    record { func = ground arith; worker = ground arith; calls = ground (arith, same) }

-- Any posted closure but the one at issue.
pub run_posted-Aside : (p : Posted) (w : Wrapper) → ending p ≡ 0 → Aside w (run_posted p w)
unfolding run_posted
run_posted-Aside (invoke h m) w z = call-Aside (on_msg h m) w
run_posted-Aside (invoke_all h ms) w z = invoke_each-Aside h ms w
run_posted-Aside (invoke_unexpected h m) w z = call-Aside (on_unexpected_response h m) w
run_posted-Aside (invoke_remote_unexpected h id text) w z =
    call-Aside (on_remote_unexpected_response h id text) w
run_posted-Aside (invoke_error h e) w z = on_error-Aside h e w
run_posted-Aside (invoke_end_sending e) w z = absurd (omega (arith, z))
