-- ===== src/Chan/Weave.antt =====
-- Two pipes that are read in turn.
pub mod Poll
pub mod Step
pub mod Handled
pub mod Pipes
pub mod Message
pub mod InOrder
pub mod Sent
pub mod Fed
pub mod EndToEnd
