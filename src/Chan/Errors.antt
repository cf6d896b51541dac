-- ===== src/Chan/Errors.antt =====
-- How the error handler of the user comes to be called: `handle_new_error` posts a report of the
-- error, and `handlers_poll` runs it.
pub mod Reads
pub mod Steps
use mathlib.Core.List.{append_assoc}
use ipc_transport_structured.Prelude.{
  ℕ, ◌+◌, ◌≤◌, ◌≡◌, refl, sym, ap, ◌∙◌, true, false, inl, inr, Option, none, some, List, [], ◌∷◌,
  ◌++◌, arith, Option-cases, is_some, if◌then◌else◌,
}
use ipc_transport_structured.Error.{ErrorCode}
use ipc_transport_structured.Chan.State.{
  Task, deliver, unexpected_response, remote_unexpected_response, report_error, Event, on_msg,
  on_unexpected_response, on_remote_unexpected_response, on_error, Chan,
}
use ipc_transport_structured.Chan.Handlers.{
  handlers_post, run_task, run_tasks, handlers_poll, handle_new_error,
}
use ipc_transport_structured.Chan.Verdict.{reports, reports-append, Accepts}

-- How many events are calls of the error handler.
abbrev pub errors : List Event → ℕ
errors [] = 0
errors (on_error h e ∷ es) = 1 + errors es
errors (e ∷ es) = errors es

pub errors-append : (xs ys : List Event) → errors (xs ++ ys) ≡ errors xs + errors ys
errors-append [] ys = omega arith
errors-append (on_error h e ∷ es) ys = omega (arith, errors-append es ys)
errors-append (on_msg h m ∷ es) ys = errors-append es ys
errors-append (on_unexpected_response h m ∷ es) ys = errors-append es ys
errors-append (on_remote_unexpected_response h id text ∷ es) ys = errors-append es ys

-- At most one call of the error handler was made or is due, and none without an error.
pub record OneReport (s : Chan) : Type 0 where
  pub at_most_one : reports s.sync_io_handlers + errors s.events ≤ 1
  pub none_before :
      s.channel_err_code_or_ok ≡ none → reports s.sync_io_handlers + errors s.events ≡ 0

-- The same as a bound: the calls made and the reports due, and what the error code allows.
abbrev pub due : Chan → ℕ
due s = reports s.sync_io_handlers + errors s.events

abbrev pub allowed : Chan → ℕ
allowed s = if is_some s.channel_err_code_or_ok then 1 else 0

pub due-OneReport : (s : Chan) → due s ≤ allowed s → OneReport s
due-OneReport s b = record { at_most_one = ground arith; none_before = λ e. ground arith }

pub OneReport-due : (s : Chan) → OneReport s → due s ≤ allowed s
OneReport-due s o = ground (arith, o.at_most_one, o.none_before)

-- What running one task, or several, comes to.
run_task-errors :
    (t : Task) (s : Chan) → errors (run_task t s).events ≤ reports (t ∷ []) + errors s.events
unfolding run_task
run_task-errors (deliver h m) s = ground (arith, errors-append s.events (on_msg h m ∷ []))
run_task-errors (unexpected_response m) s = elim (Option-cases s.on_unexpected_response_func) [
  | inl e ↦ ground arith
  | inr (h, e) ↦ ground (arith, errors-append s.events (on_unexpected_response h m ∷ []))
]
run_task-errors (remote_unexpected_response id text) s =
    elim (Option-cases s.on_remote_unexpected_response_func) [
      | inl e ↦ ground arith
      | inr (h, e) ↦
          ground (arith, errors-append s.events (on_remote_unexpected_response h id text ∷ []))
    ]
run_task-errors report_error s = elim (Option-cases s.on_err_func) [
  | inl e ↦ ground arith
  | inr (h, e) ↦ ground (arith, errors-append s.events (on_error h s.channel_err_code_or_ok ∷ []))
]

-- The members that running tasks keeps.
pub record SamePart (s t : Chan) : Type 0 where
  pub err : t.channel_err_code_or_ok ≡ s.channel_err_code_or_ok
  pub proto : t.proto_neg_err_code_or_ok ≡ s.proto_neg_err_code_or_ok
  pub handlers : t.sync_io_handlers ≡ s.sync_io_handlers

run_task-SamePart : (t : Task) (s : Chan) → SamePart s (run_task t s)
unfolding run_task
run_task-SamePart t s = ground arith

run_tasks-SamePart : (ts : List Task) (s : Chan) → SamePart s (run_tasks ts s)
unfolding run_tasks
run_tasks-SamePart [] s = ground arith
run_tasks-SamePart (t ∷ ts) s =
    ground (arith, run_task-SamePart t s, run_tasks-SamePart ts (run_task t s))

reports-cons : (t : Task) (ts : List Task) → reports (t ∷ ts) ≡ reports (t ∷ []) + reports ts
reports-cons t ts = reports-append (t ∷ []) ts

run_tasks-errors :
    (ts : List Task) (s : Chan) → errors (run_tasks ts s).events ≤ reports ts + errors s.events
unfolding run_tasks
run_tasks-errors [] s = omega arith
run_tasks-errors (t ∷ ts) s =
    omega (arith, run_task-errors t s, run_tasks-errors ts (run_task t s), reports-cons t ts)

run_task-on_err :
    (t : Task) (s : Chan) → reports (t ∷ []) ≡ 0 → (run_task t s).on_err_func ≡ s.on_err_func
unfolding run_task
run_task-on_err t s q = ground arith

run_tasks-on_err :
    (ts : List Task) (s : Chan) → reports ts ≡ 0 → (run_tasks ts s).on_err_func ≡ s.on_err_func
unfolding run_tasks
run_tasks-on_err [] s q = refl
run_tasks-on_err (t ∷ ts) s q =
    let both = reports-cons t ts in
    run_tasks-on_err ts (run_task t s) (omega (arith, both, q))
    ∙ run_task-on_err t s (omega (arith, both, q))

run_tasks-append :
    (xs ys : List Task) (s : Chan) → run_tasks (xs ++ ys) s ≡ run_tasks ys (run_tasks xs s)
unfolding run_tasks
run_tasks-append [] ys s = refl
run_tasks-append (x ∷ xs) ys s = run_tasks-append xs ys (run_task x s)

-- Polling runs the reports that are due and keeps the rest of what matters for errors.
pub handlers_poll-SamePart :
    (s : Chan)
    → ((handlers_poll s).channel_err_code_or_ok ≡ s.channel_err_code_or_ok)
      × ((handlers_poll s).proto_neg_err_code_or_ok ≡ s.proto_neg_err_code_or_ok)
      × ((handlers_poll s).sync_io_handlers ≡ [])
unfolding handlers_poll
handlers_poll-SamePart s =
    let cleared : Chan = record s { sync_io_handlers = [] } in
    let same = run_tasks-SamePart s.sync_io_handlers cleared in
    (same.err, same.proto, same.handlers)

pub handlers_poll-OneReport : (s : Chan) → OneReport s → OneReport (handlers_poll s)
unfolding handlers_poll
handlers_poll-OneReport s o =
    let cleared : Chan = record s { sync_io_handlers = [] } in
    let same = run_tasks-SamePart s.sync_io_handlers cleared in
    let fewer = run_tasks-errors s.sync_io_handlers cleared in
    let empty = ap reports same.handlers in
    record {
      at_most_one = omega (arith, o.at_most_one, fewer, empty);
      none_before = λ e. omega (arith, o.none_before (sym same.err ∙ e), fewer, empty);
    }

-- Polling makes what is due into calls.
pub handlers_poll-due :
    (s : Chan) → (due (handlers_poll s) ≤ due s) × (allowed (handlers_poll s) ≡ allowed s)
unfolding handlers_poll
handlers_poll-due s =
    let cleared : Chan = record s { sync_io_handlers = [] } in
    let same = run_tasks-SamePart s.sync_io_handlers cleared in
    let fewer = run_tasks-errors s.sync_io_handlers cleared in
    let empty = ap reports same.handlers in (omega (arith, fewer, empty), ground (arith, same.err))

pub handlers_poll-on_err :
    (s : Chan) → reports s.sync_io_handlers ≡ 0 → (handlers_poll s).on_err_func ≡ s.on_err_func
unfolding handlers_poll
handlers_poll-on_err s q =
    run_tasks-on_err s.sync_io_handlers (record s { sync_io_handlers = [] }) q

-- A report that was posted last becomes the last event.
report_last :
    (ts : List Task) (s : Chan) (h : ℕ) (e : Option ErrorCode)
    → reports ts ≡ 0
    → s.on_err_func ≡ some h
    → s.channel_err_code_or_ok ≡ e
    → (run_tasks (ts ++ report_error ∷ []) s).events ≡ (run_tasks ts s).events ++ on_error h e ∷ []
unfolding run_tasks run_task
report_last ts s h e q o c =
    let handler : (run_tasks ts s).on_err_func ≡ some h = run_tasks-on_err ts s q ∙ o in
    let code : (run_tasks ts s).channel_err_code_or_ok ≡ e = (run_tasks-SamePart ts s).err ∙ c in
    ap (λ (u : Chan). u.events) (run_tasks-append ts (report_error ∷ []) s)
    ∙ ground (arith, handler, code)

-- A hosing that follows a quiet state is reported by the next poll.
pub hosed-reported :
    (s u : Chan) (h : ℕ) (e : Option ErrorCode)
    → Accepts s u
    → OneReport s
    → s.channel_err_code_or_ok ≡ none
    → s.on_err_func ≡ some h
    → (before : List Event) × ((handlers_poll (handle_new_error e u)).events
        ≡ before ++ on_error h e ∷ [])
unfolding handlers_poll handle_new_error handlers_post
hosed-reported s u h e a o c f =
    let cleared : Chan = record u { sync_io_handlers = []; channel_err_code_or_ok = e } in
    let quiet : reports u.sync_io_handlers ≡ 0 = omega (
      arith,
      ap reports a.handlers,
      reports-append s.sync_io_handlers a.posted,
      a.quiet,
      o.none_before c,
    ) in
    (
      (run_tasks u.sync_io_handlers cleared).events,
      report_last u.sync_io_handlers cleared h e quiet (a.on_err ∙ f) refl,
    )
