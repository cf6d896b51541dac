-- ===== src/Async/Errors/Once.antt =====
-- An error that hoses the channel is told to one party only.
use ipc_transport_structured.Chan.State.{Chan}
use ipc_transport_structured.Async.Errors.Sound.{Sound}
