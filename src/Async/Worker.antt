-- ===== src/Async/Worker.antt =====
-- channel.hpp: what the closures do that the channel below calls, and what thread W does with the
-- closures that are posted to it.
use ipc_transport_structured.Prelude.{ℕ, Option, none, some, List, [], ◌∷◌}
use ipc_transport_structured.Error.{ErrorCode, object_shutdown_aborted_completion_handler}
use ipc_transport_structured.Msg.MsgIn.{MsgIn}
use ipc_transport_structured.Chan.State as Core
use ipc_transport_structured.Async.State.{
  Posted, invoke, invoke_all, invoke_unexpected, invoke_remote_unexpected, invoke_error,
  invoke_end_sending, handler, end_sending_done, Wrapper, Closure, around, of_request, decode, post,
  call,
}
use ipc_transport_structured.Sync.{on_response, on_error}

-- The closure that the channel below calls, with the mutex locked: it posts, or, if it belongs to a
-- blocking request, ends its wait.
unfoldable pub on_delivery : Closure → MsgIn → Wrapper → Wrapper
on_delivery (around h) m w = post (invoke h m) w
on_delivery (of_request id) m w = on_response id m w

unfoldable pub on_event : Core.Event → Wrapper → Wrapper
unfolding on_delivery
on_event (Core.on_msg n m) w = on_delivery (decode n) m w
on_event (Core.on_unexpected_response h m) w = post (invoke_unexpected h m) w
on_event (Core.on_remote_unexpected_response h id text) w =
    post (invoke_remote_unexpected h id text) w
on_event (Core.on_error h e) w = post (invoke_error h e) w

unfoldable pub on_events : List Core.Event → Wrapper → Wrapper
on_events [] w = w
on_events (e ∷ es) w = on_events es (on_event e w)

-- An operation of the channel below has left it as `s`. The calls that it made there, of closures
-- that touch nothing else of it, happen now.
unfoldable pub settle : Core.Chan → Wrapper → Wrapper
settle s w = on_events s.events (record w { sync_io = record s { events = [] } })

-- The loop over the cached messages.
unfoldable pub invoke_each : ℕ → List MsgIn → Wrapper → Wrapper
invoke_each h [] w = w
invoke_each h (m ∷ ms) w = invoke_each h ms (call (handler (Core.on_msg h m)) w)

-- The completion handler of the end of sending is taken out and called. It is there, by an assertion
-- of the source.
unfoldable pub end_sending : Option ℕ → Option ErrorCode → Wrapper → Wrapper
end_sending none e w = w
end_sending (some h) e w =
    call (end_sending_done h e) (record w { snd_end_sending_on_done_func_or_empty = none })

-- The body of a posted closure.
unfoldable pub run_posted : Posted → Wrapper → Wrapper
run_posted (invoke h m) w = call (handler (Core.on_msg h m)) w
run_posted (invoke_all h ms) w = invoke_each h ms w
run_posted (invoke_unexpected h m) w = call (handler (Core.on_unexpected_response h m)) w
run_posted (invoke_remote_unexpected h id text) w =
    call (handler (Core.on_remote_unexpected_response h id text)) w
run_posted (invoke_error h e) w = on_error h e w
run_posted (invoke_end_sending e) w = end_sending w.snd_end_sending_on_done_func_or_empty e w

-- Closures taken from the queue one after another.
unfoldable pub run_all_posted : List Posted → Wrapper → Wrapper
run_all_posted [] w = w
run_all_posted (p ∷ ps) w = run_all_posted ps (run_posted p (record w { worker = ps }))

-- Thread W takes the first closure, if there is one.
abbrev pub take_first : List Posted → Wrapper → Wrapper
take_first [] w = w
take_first (p ∷ ps) w = run_posted p (record w { worker = ps })

unfoldable pub run_next : Wrapper → Wrapper
run_next w = take_first w.worker w

-- The destructor: what is still posted runs, then an end of sending that is not done is told so.
abbrev pub abort_end_sending : Option ℕ → Wrapper → Wrapper
abort_end_sending none w = w
abort_end_sending (some h) w =
    call (end_sending_done h (some object_shutdown_aborted_completion_handler)) w

unfoldable pub destroy : Wrapper → Wrapper
destroy w =
    let u = run_all_posted w.worker w in abort_end_sending u.snd_end_sending_on_done_func_or_empty u
