-- ===== src/Async.antt =====
-- channel.hpp, the channel with a thread of its own.
pub mod State
pub mod Worker
pub mod Calls
pub mod Actions
pub mod Direct
pub mod EndSending
pub mod Errors
mod Tests
