-- ===== src/Lib.antt =====
-- The structured layer of ipc_transport: a channel that sends and receives capnp messages as
-- sequences of unstructured blobs, matches responses with requests, and hides the order in which two
-- pipes deliver.
--
-- How the parts interact. A user message is built (Msg_out), described by a metadata message
-- (Msg_mdt_out), and both are serialized by a builder, here the heap builder; the channel hands the
-- metadata and then the segments of the body to the channel below. On the other side each in-pipe
-- reads a metadata payload and then as many segments as it announces (Msg_in); the whole message is
-- checked against the session token and the sequence of ids, queued while an earlier one is missing,
-- and then dispatched: to the handler of the request it answers, to the handler that awaits its kind,
-- or to the cache of messages that nobody awaits yet. Handlers of the user are posted, and run when a
-- read is over.
--
-- Which file models what (paths below ipc/transport/struc):
--   Error          error.hpp: the codes; an Error_code* argument becomes Result or a field. The first
--                  code has the number zero, so that its Error_code is falsy: it is none where
--                  an Error_code is an Option, and the others are some.
--                  Error/Symbols is error.cpp, their texts, printing and reading.
--   Msg            msg.hpp, detail/msg_mdt_out.hpp, schema/detail/structured_msg.capnp: Msg/Mdt is the
--                  metadata and its writer, Msg/MsgIn the in-message under assembly and its readers,
--                  Msg/Out the out-message and the handle that it owns, Msg/Print the printing of
--                  both, Msg/RoundTrip and Msg/Out/Handles the theorems.
--   Chan           sync_io/channel.hpp. Chan/State has the data members as the record Chan, and as the
--                  record Env what the channel is built over. Operations, under the names of the source:
--                  Chan/Handlers (handlers_post, handlers_poll, handle_new_error,
--                  handle_async_err_code), Chan/Send (send, async_request, send_impl, send_core),
--                  Chan/Dispatch (rcv_struct_new_msg_in_is_next_expected and what it calls),
--                  Chan/Receive (rcv_struct_new_msg_in, whole and in stages), Chan/Expect (the
--                  expectations), Chan/Pipe (the read chain of an in-pipe), Chan/Init (constructors),
--                  Chan/Start (start_ops, start_and_poll, the protocol negotiation).
--                  Theorems: Chan/Frame, Chan/Reassembly, Chan/Order and Chan/Arrival on the order of
--                  messages, Chan/Verdict and Chan/Errors on errors
--                  (Chan/Errors/Steps has the runs of calls and reads), Chan/LogIn on the log-in,
--                  Chan/Sending on the sends, Chan/Pending on expectations, Chan/Framing on the
--                  assembly of messages from payloads, Chan/Transfer from the send of a message to
--                  its arrival, Chan/Stream from a row of sends to the calls of the handler on the
--                  other side, Chan/Weave the same over two pipes whose reads are interleaved.
--                  Chan/Tests and its children run a concrete channel.
--   Heap           heap_serializer.hpp, heap_serializer.cpp, heap_fixed_builder_capnp_msg_builder.cpp:
--                  Heap/Builder, Heap/HeapReader and the theorems of Heap/Sizes. Heap/Config has
--                  the configurations that channel.hpp computes for a channel.
--   Async          channel.hpp: the channel with a thread of its own. Async/State has its members as the
--                  record Wrapper and the closures posted to thread W, Async/Calls the constructor and
--                  the calls, under the names of the source, Async/Worker the handlers that the channel
--                  below calls, the thread and the destructor, Async/Actions a run as a sequence of
--                  all of these. Async/Direct is the abstract channel without a thread that it
--                  refines; Async/EndSending and Async/Errors have the theorems on the end of sending
--                  and on errors.
--   Sync           channel.hpp: its blocking request, and in Sync/Race the race of its response, an
--                  error and the timeout.
--   Prelude        shared names, tests, lists, maps and texts.
--
-- How the code is modelled. State is passed explicitly. Templates over the kind of pipes become the
-- field pipes of Env. Everything outside the repository is a parameter in Env: capnp's serialization
-- and deserialization, the memory of a serializer, the byte order of the machine, and the answers of
-- the owned channel to a send (transmit, a function of what was sent before). The negotiator of the
-- protocol version is the record Negotiators. A handler of the user is a number, and a call of it
-- an entry in the field events. A closure that is posted is an entry of the data type Task. Ids are
-- 64-bit and wrap round; the theorems that need it assume room below 2^64.
-- Asynchronous reads are a list of what the receives yield; the channel would block at its end. No
-- function needs fuel: the loops are recursions on lists.
--
-- Each operation of the channel with a thread is one step, as the mutex is held for it; the closures
-- that the channel below calls only post to the thread or end a wait, so they are run when the
-- operation is over. A run is any list of steps. What the owned channel answers to async_end_sending
-- is an argument, and that it accepts one such call and completes it once a hypothesis.
--
-- Where the source asserts that an error is a truthy one (handle_new_error) and the first code is
-- given, the model goes on as the code does without assertions. Theorems that this would contradict
-- exclude that read: misread and misreads of Chan/Errors/Reads tell it.
--
-- Not modelled: logging; the event waits of start_ops, which it only forwards; handlers of the user
-- that call the channel back while it is being destroyed; assertions, apart from what the theorems
-- assume; moves of a channel; the accessors of the owned channel; the classes Msg_out_impl and
-- Msg_in_impl, which only make methods public; the test utilities.
mod Prelude
pub mod Error
pub mod Msg
pub mod Chan
pub mod Heap
pub mod Sync
pub mod Async
