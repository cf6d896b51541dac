-- ===== src/Chan.antt =====
-- sync_io/channel.hpp: the structured channel, one module for each group of its methods.
pub mod State
pub mod Handlers
pub mod Send
pub mod Dispatch
pub mod Receive
pub mod Expect
pub mod Pipe
pub mod Frame
pub mod Reassembly
pub mod Order
pub mod Arrival
pub mod Init
pub mod Verdict
pub mod Errors
pub mod Sending
pub mod LogIn
pub mod Pending
pub mod Framing
pub mod Transfer
pub mod Stream
pub mod Weave
pub mod Start
pub mod Tests
