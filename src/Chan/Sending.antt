-- ===== src/Chan/Sending.antt =====
-- What the sending calls hand to the owned channel, and what they do to the ids of messages.
pub mod Ids
pub mod Wire
pub mod Stale
