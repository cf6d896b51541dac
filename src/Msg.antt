-- ===== src/Msg.antt =====
-- msg.hpp, detail/msg_mdt_out.hpp and schema/detail/structured_msg.capnp: a structured message, its
-- metadata, and how the receiving side assembles it from unstructured payloads.
pub mod Mdt
pub mod MsgIn
pub mod Out
pub mod Print
pub mod RoundTrip
mod Tests
