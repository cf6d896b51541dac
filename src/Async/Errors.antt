-- ===== src/Async/Errors.antt =====
-- channel.hpp: who is told of an error of the channel, as a count of those who were told or will be.
pub mod Sound
pub mod Once
use ipc_transport_structured.Prelude.{
  ℕ, ◌+◌, ◌≤◌, ◌≡◌, refl, sym, ap, ap₂, ◌∙◌, subst, Bool, true, false, Option, none, some, List, [],
  ◌∷◌, ◌++◌, arith,
}
use ipc_transport_structured.Error.{ErrorCode, object_shutdown_aborted_completion_handler}
use ipc_transport_structured.Msg.MsgIn.{MsgIn}
use ipc_transport_structured.Chan.State.{
  Chan, Event, on_msg, on_unexpected_response, on_remote_unexpected_response, on_error,
}
use ipc_transport_structured.Chan.Errors.{due, errors, errors-append}
use ipc_transport_structured.Chan.Errors.Steps.Once.{Within}
use ipc_transport_structured.Async.State.{
  Posted, invoke, invoke_all, invoke_unexpected, invoke_remote_unexpected, invoke_error,
  invoke_end_sending, Call, handler, end_sending_done, Wrapper, Closure, around, of_request, decode,
  post, call,
}
use ipc_transport_structured.Async.Worker.{
  on_delivery, on_event, on_events, settle, invoke_each, end_sending, run_posted, take_first,
  run_all_posted, abort_end_sending, destroy,
}
use ipc_transport_structured.Sync.{on_response, on_error as on_error_posted}
use ipc_transport_structured.Sync.Race.{told, told-append, held}

-- The errors that thread W is still to give out.
abbrev pub reporting : Posted → ℕ
reporting (invoke_error h e) = 1
reporting _ = 0

abbrev pub queued : List Posted → ℕ
queued [] = 0
queued (p ∷ ps) = reporting p + queued ps

pub queued-append : (ps qs : List Posted) → queued (ps ++ qs) ≡ queued ps + queued qs
queued-append [] qs = omega arith
queued-append (p ∷ ps) qs = omega (arith, queued-append ps qs)

-- Told to the error handler, held for a waiting request, or still with thread W.
abbrev pub total : Wrapper → ℕ
total w = told w.calls + held w.sync_op_state + queued w.worker

-- What an operation of the wrapper does to the count, and to the channel below.
pub record Counts (w u : Wrapper) (n : ℕ) : Type 0 where
  pub count : total u ≡ total w + n
  pub core : u.sync_io ≡ w.sync_io

pub Counts-refl : (w : Wrapper) → Counts w w 0
Counts-refl w = record { count = omega arith; core = refl }

pub post-Counts : (p : Posted) (w : Wrapper) → Counts w (post p w) (reporting p)
unfolding post
post-Counts p w = record { count = omega (arith, queued-append w.worker (p ∷ [])); core = refl }

call-Counts : (c : Call) (w : Wrapper) → told (c ∷ []) ≡ 0 → Counts w (call c w) 0
unfolding call
call-Counts c w z = record { count = omega (arith, told-append w.calls (c ∷ []), z); core = refl }

on_response-Counts : (id : ℕ) (m : MsgIn) (w : Wrapper) → Counts w (on_response id m w) 0
unfolding on_response
on_response-Counts id m w = record { count = ground arith; core = ground arith }

on_delivery-Counts : (c : Closure) (m : MsgIn) (w : Wrapper) → Counts w (on_delivery c m w) 0
unfolding on_delivery
on_delivery-Counts (around h) m w = post-Counts (invoke h m) w
on_delivery-Counts (of_request id) m w = on_response-Counts id m w

on_event-Counts : (e : Event) (w : Wrapper) → Counts w (on_event e w) (errors (e ∷ []))
unfolding on_event
on_event-Counts (on_msg n m) w = on_delivery-Counts (decode n) m w
on_event-Counts (on_unexpected_response h m) w = post-Counts (invoke_unexpected h m) w
on_event-Counts (on_remote_unexpected_response h id text) w =
    post-Counts (invoke_remote_unexpected h id text) w
on_event-Counts (on_error h e) w = post-Counts (invoke_error h e) w

on_events-Counts : (es : List Event) (w : Wrapper) → Counts w (on_events es w) (errors es)
unfolding on_events
on_events-Counts [] w = Counts-refl w
on_events-Counts (e ∷ es) w =
    let one = on_event-Counts e w in
    let rest = on_events-Counts es (on_event e w) in
    let both = errors-append (e ∷ []) es in
    record { count = omega (arith, one.count, rest.count, both); core = rest.core ∙ one.core }

-- When the calls of the channel below have been made, what was due there is with thread W.
pub settle-Within :
    (r : ℕ) (s : Chan) (w : Wrapper)
    → Within (r + total w) s
    → Within (r + total (settle s w)) (settle s w).sync_io
unfolding settle
settle-Within r s w k =
    let cleared : Wrapper = record w { sync_io = record s { events = [] } } in
    let c = on_events-Counts s.events cleared in
    let now : Within (r + total (on_events s.events cleared)) (record s { events = [] }) = record {
      bound = omega (arith, c.count, k.bound);
      proto = k.proto;
    } in
    subst (Within (r + total (on_events s.events cleared))) (sym c.core) now

invoke_each-Counts : (h : ℕ) (ms : List MsgIn) (w : Wrapper) → Counts w (invoke_each h ms w) 0
unfolding invoke_each
invoke_each-Counts h [] w = Counts-refl w
invoke_each-Counts h (m ∷ ms) w =
    let one = call-Counts (handler (on_msg h m)) w refl in
    let rest = invoke_each-Counts h ms (call (handler (on_msg h m)) w) in
    record { count = omega (arith, one.count, rest.count); core = rest.core ∙ one.core }

-- An error is told to the handler, or the waiting request holds it.
on_error-Counts : (h : ℕ) (e : Option ErrorCode) (w : Wrapper) → Counts w (on_error_posted h e w) 1
unfolding on_error_posted call
on_error-Counts h e w =
    let one = told-append w.calls (handler (on_error h e) ∷ []) in
    record { count = ground (arith, one); core = ground arith }

end_sending-Counts :
    (o : Option ℕ) (e : Option ErrorCode) (w : Wrapper) → Counts w (end_sending o e w) 0
unfolding end_sending call
end_sending-Counts none e w = Counts-refl w
end_sending-Counts (some h) e w = record {
  count = omega (arith, told-append w.calls (end_sending_done h e ∷ []));
  core = refl;
}

pub run_posted-Counts : (p : Posted) (w : Wrapper) → Counts w (run_posted p w) (reporting p)
unfolding run_posted
run_posted-Counts (invoke h m) w = call-Counts (handler (on_msg h m)) w refl
run_posted-Counts (invoke_all h ms) w = invoke_each-Counts h ms w
run_posted-Counts (invoke_unexpected h m) w =
    call-Counts (handler (on_unexpected_response h m)) w refl
run_posted-Counts (invoke_remote_unexpected h id text) w =
    call-Counts (handler (on_remote_unexpected_response h id text)) w refl
run_posted-Counts (invoke_error h e) w = on_error-Counts h e w
run_posted-Counts (invoke_end_sending e) w =
    end_sending-Counts w.snd_end_sending_on_done_func_or_empty e w

-- Thread W takes a closure: the count stays.
pub taken-Counts :
    (p : Posted) (ps : List Posted) (w : Wrapper)
    → w.worker ≡ p ∷ ps
    → Counts w (run_posted p (record w { worker = ps })) 0
taken-Counts p ps w e =
    let c = run_posted-Counts p (record w { worker = ps }) in
    record { count = omega (arith, c.count, ap queued e); core = c.core }

pub take_first-Counts :
    (ps : List Posted) (w : Wrapper) → w.worker ≡ ps → Counts w (take_first ps w) 0
take_first-Counts [] w e = Counts-refl w
take_first-Counts (p ∷ ps) w e = taken-Counts p ps w e
