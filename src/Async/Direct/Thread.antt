-- ===== src/Async/Direct/Thread.antt =====
-- The direct channel that a channel with a thread stands for: what thread W does leaves it as it is,
-- and what is posted is heard there at once.
use mathlib.Core.List.{append-nil, append_assoc}
use ipc_transport_structured.Prelude.{
  ℕ, ◌≡◌, refl, sym, ap, ◌∙◌, Option, none, some, List, [], ◌∷◌, ◌++◌, map, arith,
}
use ipc_transport_structured.Error.{ErrorCode, object_shutdown_aborted_completion_handler}
use ipc_transport_structured.Msg.MsgIn.{MsgIn}
use ipc_transport_structured.Chan.State.{
  Chan, Event, on_msg, on_unexpected_response, on_remote_unexpected_response, on_error,
}
use ipc_transport_structured.Async.State.{
  Posted, invoke, invoke_all, invoke_unexpected, invoke_remote_unexpected, invoke_error,
  invoke_end_sending, Call, handler, end_sending_done, Wrapper, Closure, around, of_request, decode,
  post, call,
}
use ipc_transport_structured.Async.Worker.{
  on_delivery, on_event, on_events, settle, invoke_each, end_sending, run_posted, take_first,
  run_all_posted, run_next, abort_end_sending, destroy,
}
use ipc_transport_structured.Async.Direct.{Direct, heard_by, hear, becomes}
use ipc_transport_structured.Sync.{on_response, on_error as on_error_posted}

-- The calls of handlers of messages among the calls made.
abbrev pub messages : List Call → List Event
messages [] = []
messages (handler (on_error h e) ∷ cs) = messages cs
messages (handler (on_msg h m) ∷ cs) = on_msg h m ∷ messages cs
messages (handler (on_unexpected_response h m) ∷ cs) = on_unexpected_response h m ∷ messages cs
messages (handler (on_remote_unexpected_response h id text) ∷ cs) =
    on_remote_unexpected_response h id text ∷ messages cs
messages (end_sending_done h e ∷ cs) = messages cs

-- The calls of handlers of messages that a posted closure will make.
abbrev promised_by : Posted → List Event
promised_by (invoke h m) = on_msg h m ∷ []
promised_by (invoke_all h ms) = map (on_msg h) ms
promised_by (invoke_unexpected h m) = on_unexpected_response h m ∷ []
promised_by (invoke_remote_unexpected h id text) = on_remote_unexpected_response h id text ∷ []
promised_by (invoke_error h e) = []
promised_by (invoke_end_sending e) = []

abbrev promised : List Posted → List Event
promised [] = []
promised (p ∷ ps) = promised_by p ++ promised ps

-- The direct channel that a channel with a thread stands for.
abbrev pub abstract : Wrapper → Direct
abstract w = record {
  core = w.sync_io;
  next_request = w.sync_op_state_id;
  heard = messages w.calls ++ promised w.worker;
}

messages-append : (cs ds : List Call) → messages (cs ++ ds) ≡ messages cs ++ messages ds
messages-append [] ds = refl
messages-append (handler (on_error h e) ∷ cs) ds = messages-append cs ds
messages-append (handler (on_msg h m) ∷ cs) ds = ap (λ es. on_msg h m ∷ es) (messages-append cs ds)
messages-append (handler (on_unexpected_response h m) ∷ cs) ds =
    ap (λ es. on_unexpected_response h m ∷ es) (messages-append cs ds)
messages-append (handler (on_remote_unexpected_response h id text) ∷ cs) ds =
    ap (λ es. on_remote_unexpected_response h id text ∷ es) (messages-append cs ds)
messages-append (end_sending_done h e ∷ cs) ds = messages-append cs ds

promised-append : (ps qs : List Posted) → promised (ps ++ qs) ≡ promised ps ++ promised qs
promised-append [] qs = refl
promised-append (p ∷ ps) qs =
    ap (λ es. promised_by p ++ es) (promised-append ps qs)
    ∙ sym (append_assoc (promised_by p) (promised ps) (promised qs))

-- What is posted is heard after all that was due before.
pub abstract-post :
    (p : Posted) (w : Wrapper)
    → abstract (post p w) ≡ record (abstract w) { heard = (abstract w).heard ++ promised_by p }
unfolding post
abstract-post p w =
    ap (λ es. record (abstract w) { heard = es })
      (ap (λ es. messages w.calls ++ es)
          (promised-append w.worker (p ∷ [])
            ∙ ap (λ es. promised w.worker ++ es) (append-nil (promised_by p)))
        ∙ sym (append_assoc (messages w.calls) (promised w.worker) (promised_by p)))

abstract-on_response :
    (id : ℕ) (m : MsgIn) (w : Wrapper) → abstract (on_response id m w) ≡ abstract w
unfolding on_response
abstract-on_response id m w = ground arith

abstract-on_delivery :
    (c : Closure) (m : MsgIn) (w : Wrapper)
    → abstract (on_delivery c m w)
      ≡ record (abstract w) { heard = (abstract w).heard ++ heard_by c m }
unfolding on_delivery
abstract-on_delivery (around h) m w = abstract-post (invoke h m) w
abstract-on_delivery (of_request id) m w =
    abstract-on_response id m w
    ∙ ap (λ es. record (abstract w) { heard = es }) (sym (append-nil (abstract w).heard))

abstract-on_event :
    (e : Event) (w : Wrapper)
    → abstract (on_event e w) ≡ record (abstract w) { heard = (abstract w).heard ++ hear (e ∷ []) }
unfolding on_event hear
abstract-on_event (on_msg n m) w =
    abstract-on_delivery (decode n) m w
    ∙ ap (λ es. record (abstract w) { heard = (abstract w).heard ++ es })
        (sym (append-nil (heard_by (decode n) m)))
abstract-on_event (on_unexpected_response h m) w = abstract-post (invoke_unexpected h m) w
abstract-on_event (on_remote_unexpected_response h id text) w =
    abstract-post (invoke_remote_unexpected h id text) w
abstract-on_event (on_error h e) w = abstract-post (invoke_error h e) w

hear-cons : (e : Event) (es : List Event) → hear (e ∷ es) ≡ hear (e ∷ []) ++ hear es
unfolding hear
hear-cons (on_msg n m) es = ap (λ xs. xs ++ hear es) (sym (append-nil (heard_by (decode n) m)))
hear-cons (on_unexpected_response h m) es = refl
hear-cons (on_remote_unexpected_response h id text) es = refl
hear-cons (on_error h e) es = refl

abstract-on_events :
    (es : List Event) (w : Wrapper)
    → abstract (on_events es w) ≡ record (abstract w) { heard = (abstract w).heard ++ hear es }
unfolding on_events
abstract-on_events [] w =
    unfold hear in
    ap (λ xs. record (abstract w) { heard = xs }) (sym (append-nil (abstract w).heard))
abstract-on_events (e ∷ es) w =
    abstract-on_events es (on_event e w)
    ∙ ap (λ (d : Direct). record d { heard = d.heard ++ hear es }) (abstract-on_event e w)
    ∙ ap (λ xs. record (abstract w) { heard = xs })
        (append_assoc (abstract w).heard (hear (e ∷ [])) (hear es)
          ∙ ap (λ xs. (abstract w).heard ++ xs) (sym (hear-cons e es)))

pub abstract-settle : (s : Chan) (w : Wrapper) → abstract (settle s w) ≡ becomes s (abstract w)
unfolding settle becomes
abstract-settle s w = abstract-on_events s.events (record w { sync_io = record s { events = [] } })

-- What thread W makes of a posted closure.
abstract-call :
    (c : Call) (w : Wrapper) (rest : List Event)
    → messages (call c w).calls ++ rest ≡ messages w.calls ++ (messages (c ∷ []) ++ rest)
unfolding call
abstract-call c w rest =
    ap (λ es. es ++ rest) (messages-append w.calls (c ∷ []))
    ∙ append_assoc (messages w.calls) (messages (c ∷ [])) rest

-- A closure that runs makes the calls that it promised, and changes nothing else that is abstracted.
record Runs (w u : Wrapper) (es : List Event) : Type 0 where
  core : u.sync_io ≡ w.sync_io
  id : u.sync_op_state_id ≡ w.sync_op_state_id
  worker : u.worker ≡ w.worker
  heard : messages u.calls ≡ messages w.calls ++ es

call-Runs : (c : Call) (w : Wrapper) → Runs w (call c w) (messages (c ∷ []))
unfolding call
call-Runs c w = record {
  core = refl;
  id = refl;
  worker = refl;
  heard = messages-append w.calls (c ∷ []);
}

invoke_each-Runs :
    (h : ℕ) (ms : List MsgIn) (w : Wrapper) → Runs w (invoke_each h ms w) (map (on_msg h) ms)
unfolding invoke_each
invoke_each-Runs h [] w = record {
  core = refl;
  id = refl;
  worker = refl;
  heard = sym (append-nil (messages w.calls));
}
invoke_each-Runs h (m ∷ ms) w =
    let c = handler (on_msg h m) in
    let rest = invoke_each-Runs h ms (call c w) in
    let one = call-Runs c w in
    record {
      core = rest.core ∙ one.core;
      id = rest.id ∙ one.id;
      worker = rest.worker ∙ one.worker;
      heard =
          rest.heard
          ∙ ap (λ es. es ++ map (on_msg h) ms) one.heard
          ∙ append_assoc (messages w.calls) (messages (c ∷ [])) (map (on_msg h) ms);
    }

silent-Runs :
    (w u : Wrapper)
    → u.sync_io ≡ w.sync_io
    → u.sync_op_state_id ≡ w.sync_op_state_id
    → u.worker ≡ w.worker
    → messages u.calls ≡ messages w.calls
    → Runs w u []
silent-Runs w u c i q e = record {
  core = c;
  id = i;
  worker = q;
  heard = e ∙ sym (append-nil (messages w.calls));
}

end_sending-Runs :
    (o : Option ℕ) (e : Option ErrorCode) (w : Wrapper) → Runs w (end_sending o e w) []
unfolding end_sending call
end_sending-Runs none e w = silent-Runs w w refl refl refl refl
end_sending-Runs (some h) e w = record {
  core = refl;
  id = refl;
  worker = refl;
  heard = messages-append w.calls (end_sending_done h e ∷ []);
}

run_posted-Runs : (p : Posted) (w : Wrapper) → Runs w (run_posted p w) (promised_by p)
unfolding run_posted on_error_posted call
run_posted-Runs (invoke h m) w = call-Runs (handler (on_msg h m)) w
run_posted-Runs (invoke_all h ms) w = invoke_each-Runs h ms w
run_posted-Runs (invoke_unexpected h m) w = call-Runs (handler (on_unexpected_response h m)) w
run_posted-Runs (invoke_remote_unexpected h id text) w =
    call-Runs (handler (on_remote_unexpected_response h id text)) w
run_posted-Runs (invoke_error h e) w =
    silent-Runs w _ (ground arith) (ground arith) (ground arith) (
      ground (
        arith,
        messages-append w.calls (handler (on_error h e) ∷ []),
        append-nil (messages w.calls),
      ))
run_posted-Runs (invoke_end_sending e) w =
    end_sending-Runs w.snd_end_sending_on_done_func_or_empty e w

abstract-run_posted :
    (p : Posted) (rest : List Posted) (w : Wrapper)
    → w.worker ≡ p ∷ rest
    → abstract (run_posted p (record w { worker = rest })) ≡ abstract w
abstract-run_posted p rest w e =
    let r = run_posted-Runs p (record w { worker = rest }) in
    λ i. record {
      core = r.core i;
      next_request = r.id i;
      heard =
          (ap (λ ps. messages (run_posted p (record w { worker = rest })).calls ++ promised ps)
                r.worker
              ∙ ap (λ es. es ++ promised rest) r.heard
              ∙ append_assoc (messages w.calls) (promised_by p) (promised rest)
              ∙ ap (λ ps. messages w.calls ++ promised ps) (sym e))
            i;
    }

abstract-take_first :
    (ps : List Posted) (w : Wrapper) → w.worker ≡ ps → abstract (take_first ps w) ≡ abstract w
abstract-take_first [] w e = refl
abstract-take_first (p ∷ ps) w e = abstract-run_posted p ps w e

pub abstract-run_next : (w : Wrapper) → abstract (run_next w) ≡ abstract w
unfolding run_next
abstract-run_next w = abstract-take_first w.worker w refl

-- The calls that have been made when all that was posted has run.
run_all_posted-messages :
    (ps : List Posted) (w : Wrapper)
    → messages (run_all_posted ps w).calls ≡ messages w.calls ++ promised ps
unfolding run_all_posted
run_all_posted-messages [] w = sym (append-nil (messages w.calls))
run_all_posted-messages (p ∷ ps) w =
    let v : Wrapper = record w { worker = ps } in
    run_all_posted-messages ps (run_posted p v)
    ∙ ap (λ es. es ++ promised ps) (run_posted-Runs p v).heard
    ∙ append_assoc (messages w.calls) (promised_by p) (promised ps)

abort-messages :
    (o : Option ℕ) (w : Wrapper) → messages (abort_end_sending o w).calls ≡ messages w.calls
unfolding call
abort-messages none w = refl
abort-messages (some h) w =
    messages-append w.calls
      (end_sending_done h (some object_shutdown_aborted_completion_handler) ∷ [])
    ∙ append-nil (messages w.calls)

-- The destructor lets no call of a handler of messages go by.
pub destroy-messages : (w : Wrapper) → messages (destroy w).calls ≡ (abstract w).heard
unfolding destroy
destroy-messages w =
    let u = run_all_posted w.worker w in
    abort-messages u.snd_end_sending_on_done_func_or_empty u ∙ run_all_posted-messages w.worker w
