-- ===== src/Chan/Handlers.antt =====
-- Handlers that wait for the end of a low-level read, and the recording of errors.
use ipc_transport_structured.Prelude.{Bool, true, false, Option, none, some, List, [], ◌∷◌, ◌++◌}
use ipc_transport_structured.Error.{ErrorCode}
use ipc_transport_structured.Chan.State.{
  Task, deliver, unexpected_response, remote_unexpected_response, report_error, Event, on_msg,
  on_unexpected_response, on_remote_unexpected_response, on_error, Chan,
}

unfoldable pub handlers_post : Task → Chan → Chan
handlers_post task s = record s { sync_io_handlers = s.sync_io_handlers ++ task ∷ [] }

abbrev log : Event → Chan → Chan
log e s = record s { events = s.events ++ e ∷ [] }

-- The body of a posted closure. An empty function for errors breaks an assertion of the source;
-- nothing is called then.
unfoldable pub run_task : Task → Chan → Chan
run_task (deliver h m) s = log (on_msg h m) s
run_task (unexpected_response m) s = elim s.on_unexpected_response_func [
  | none ↦ s
  | some h ↦ log (on_unexpected_response h m) s
]
run_task (remote_unexpected_response id text) s = elim s.on_remote_unexpected_response_func [
  | none ↦ s
  | some h ↦ log (on_remote_unexpected_response h id text) s
]
run_task report_error s = elim s.on_err_func [
  | none ↦ s
  | some h ↦ record (log (on_error h s.channel_err_code_or_ok) s) { on_err_func = none }
]

unfoldable pub run_tasks : List Task → Chan → Chan
run_tasks [] s = s
run_tasks (t ∷ ts) s = run_tasks ts (run_task t s)

unfoldable pub handlers_poll : Chan → Chan
handlers_poll s = run_tasks s.sync_io_handlers (record s { sync_io_handlers = [] })

-- The source asserts that the code is a truthy one. A falsy one, without the assertion, leaves the
-- channel as it is for all that tests `m_channel_err_code_or_ok` later.
unfoldable pub handle_new_error : Option ErrorCode → Chan → Chan
handle_new_error e s = handlers_post report_error (record s { channel_err_code_or_ok = e })

-- `true` means that the channel is hosed and the reading stops.
unfoldable pub handle_async_err_code : Option ErrorCode → Chan → Chan × Bool
handle_async_err_code none s = elim s.channel_err_code_or_ok [
  | none ↦ (s, false)
  | some _ ↦ (s, true)
]
handle_async_err_code (some e) s = elim s.channel_err_code_or_ok [
  | none ↦ (handle_new_error (some e) s, true)
  | some _ ↦ (s, true)
]
