-- ===== src/Sync/Race.antt =====
-- What ends the wait of a blocking request: its response, an error, or the timeout, whichever is first.
use ipc_transport_structured.Prelude.{
  ℕ, ◌+◌, ◌≤◌, ◌≡◌, ◌≢◌, refl, ◌∙◌, true, ◌⊎◌, inl, inr, Option, none, some, List, [], ◌∷◌, ◌++◌,
  arith, ◌==◌, Bool-cases, if◌then◌else◌,
}
use ipc_transport_structured.Error.{ErrorCode}
use ipc_transport_structured.Msg.MsgIn.{MsgIn}
use ipc_transport_structured.Chan.State as Core
use ipc_transport_structured.Chan.State.{MsgOut, Env}
use ipc_transport_structured.Async.State.{
  ResultIfAny, nothing, failed, request_result, SyncOpState, Call, handler, end_sending_done,
  Wrapper,
}
use ipc_transport_structured.Sync.{
  is_failed, on_response, on_error, Event, responds, fails, moves, happens, all_happen,
  begin_request, answer_of, end_request, sync_request,
}

-- The first event that decides the request `id`.
abbrev pub first_result : ℕ → List Event → ResultIfAny
first_result id [] = nothing
first_result id (responds i m ∷ xs) = if id == i then request_result m else first_result id xs
first_result id (fails h e ∷ xs) = failed e
first_result id (moves s ∷ xs) = first_result id xs

abbrev pub responses : ℕ → List Event → ℕ
responses id [] = 0
responses id (responds i m ∷ xs) = if id == i then 1 + responses id xs else responses id xs
responses id (fails h e ∷ xs) = responses id xs
responses id (moves s ∷ xs) = responses id xs

abbrev pub failures : List Event → ℕ
failures [] = 0
failures (fails h e ∷ xs) = 1 + failures xs
failures (responds i m ∷ xs) = failures xs
failures (moves s ∷ xs) = failures xs

abbrev pub op : ℕ → ResultIfAny → Option SyncOpState
op id r = some (record { id = id; result_if_any = r })

-- Once there is a result it stays, but for a second response.
settled_stays :
    (id : ℕ) (r : ResultIfAny) (xs : List Event) (w : Wrapper)
    → r ≢ nothing
    → responses id xs ≡ 0
    → w.sync_op_state ≡ op id r
    → (all_happen xs w).sync_op_state ≡ op id r
unfolding all_happen happens on_response on_error
settled_stays id r [] w n z e = e
settled_stays id r (responds i m ∷ xs) w n z e =
    settled_stays id r xs (happens (responds i m) w) n (ground arith) (ground arith)
settled_stays id r (fails h c ∷ xs) w n z e =
    settled_stays id r xs (happens (fails h c) w) n z (ground arith)
settled_stays id r (moves s ∷ xs) w n z e = settled_stays id r xs (happens (moves s) w) n z e

failed_stays :
    (id : ℕ) (c : Option ErrorCode) (xs : List Event) (w : Wrapper)
    → w.sync_op_state ≡ op id (failed c)
    → (all_happen xs w).sync_op_state ≡ op id (failed c)
unfolding all_happen happens on_response on_error
failed_stays id c [] w e = e
failed_stays id c (responds i m ∷ xs) w e =
    failed_stays id c xs (happens (responds i m) w) (ground arith)
failed_stays id c (fails h d ∷ xs) w e = failed_stays id c xs (happens (fails h d) w) (ground arith)
failed_stays id c (moves s ∷ xs) w e = failed_stays id c xs (happens (moves s) w) e

waits_for :
    (id : ℕ) (xs : List Event) (w : Wrapper)
    → responses id xs ≤ 1
    → w.sync_op_state ≡ op id nothing
    → (all_happen xs w).sync_op_state ≡ op id (first_result id xs)
unfolding all_happen happens on_response on_error
waits_for id [] w b e = e
waits_for id (responds i m ∷ xs) w b e = elim (Bool-cases (id == i)) [
  | inl h ↦ rw h (
      settled_stays id (request_result m) xs (happens (responds i m) w) (λ n. cc) (ground arith)
        (ground arith))
  | inr h ↦ rw h (waits_for id xs (happens (responds i m) w) (ground arith) (ground arith))
]
waits_for id (fails h c ∷ xs) w b e = failed_stays id c xs (happens (fails h c) w) (ground arith)
waits_for id (moves s ∷ xs) w b e = waits_for id xs (happens (moves s) w) b e

begun_state :
    (env : Env) (closure : ℕ → ℕ) (msg : MsgOut) (originating : Option MsgIn) (w : Wrapper)
    → (begin_request env closure msg originating w).waits ≡ true
    → (begin_request env closure msg originating w).wrapper.sync_op_state
      ≡ op w.sync_op_state_id nothing
unfolding begin_request
begun_state env closure msg originating w h = ground arith

ended :
    (id : ℕ) (r : ResultIfAny) (w : Wrapper)
    → w.sync_op_state ≡ op id r
    → ((end_request w).1 ≡ (answer_of r).0)
      × ((end_request w).2 ≡ (answer_of r).1)
      × ((end_request w).0.sync_op_state ≡ none)
unfolding end_request
ended id r w e = ground arith

-- A blocking request that was sent returns by the first of what happens while it waits: its response,
-- if that comes before any error of the channel, the error, if that comes first, and the timeout, if
-- neither comes. This holds whatever responses to other requests come in between, its own coming at
-- most once, and no request is under way afterwards.
pub sync_request-first_result :
    (env : Env) (closure : ℕ → ℕ) (msg : MsgOut) (originating : Option MsgIn) (xs : List Event)
    (w : Wrapper)
    → (begin_request env closure msg originating w).waits ≡ true
    → responses w.sync_op_state_id xs ≤ 1
    → let r = sync_request env closure msg originating xs w in
      let answer = answer_of (first_result w.sync_op_state_id xs) in
      (r.1 ≡ answer.0) × (r.2 ≡ answer.1) × (r.0.sync_op_state ≡ none)
unfolding sync_request
sync_request-first_result env closure msg originating xs w h b =
    let begun = (begin_request env closure msg originating w).wrapper in
    rw h (
      ended w.sync_op_state_id (first_result w.sync_op_state_id xs) (all_happen xs begun)
        (waits_for w.sync_op_state_id xs begun b (begun_state env closure msg originating w h)))

-- The calls of the error handler.
abbrev pub told : List Call → ℕ
told [] = 0
told (handler (Core.on_error h e) ∷ cs) = 1 + told cs
told (handler _ ∷ cs) = told cs
told (end_sending_done _ _ ∷ cs) = told cs

pub told-append : (cs ds : List Call) → told (cs ++ ds) ≡ told cs + told ds
told-append [] ds = omega arith
told-append (handler (Core.on_error h e) ∷ cs) ds = omega (arith, told-append cs ds)
told-append (handler (Core.on_msg h m) ∷ cs) ds = told-append cs ds
told-append (handler (Core.on_unexpected_response h m) ∷ cs) ds = told-append cs ds
told-append (handler (Core.on_remote_unexpected_response h id text) ∷ cs) ds = told-append cs ds
told-append (end_sending_done h e ∷ cs) ds = told-append cs ds

-- The errors that the waiting request holds, none or one.
abbrev pub held : Option SyncOpState → ℕ
held none = 0
held (some o) = if is_failed o.result_if_any then 1 else 0

happens-told :
    (x : Event) (xs : List Event) (w : Wrapper)
    → told (happens x w).calls + held (happens x w).sync_op_state + failures xs
      ≡ told w.calls + held w.sync_op_state + failures (x ∷ xs)
unfolding happens on_response on_error
happens-told (responds i m) xs w = ground arith
happens-told (moves s) xs w = refl
happens-told (fails h c) xs w =
    ground (arith, told-append w.calls (handler (Core.on_error h c) ∷ []))

-- Each error of the channel is given out exactly once, to the waiting request or to the error handler
-- of the user, whatever happens in whatever order.
pub all_happen-told :
    (xs : List Event) (w : Wrapper)
    → told (all_happen xs w).calls + held (all_happen xs w).sync_op_state
      ≡ told w.calls + held w.sync_op_state + failures xs
unfolding all_happen
all_happen-told [] w = omega arith
all_happen-told (x ∷ xs) w = all_happen-told xs (happens x w) ∙ happens-told x xs w

-- A response that comes after its request has ended, by a timeout or an error, changes nothing, be it
-- that no request waits or that one with another id does.
on_response-late :
    (id : ℕ) (m : MsgIn) (w : Wrapper) (later : ℕ) (r : ResultIfAny)
    → ((w.sync_op_state ≡ none) ⊎ ((w.sync_op_state ≡ op later r) × (later ≢ id)))
    → on_response id m w ≡ w
unfolding on_response
on_response-late id m w later r h = ground arith
