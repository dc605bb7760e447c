-- ===== src/Node/Live.antt =====
-- What src/node.c does without a fault when there is memory, and which of its timers do not.
pub mod Sends
pub mod Ready
pub mod Finds
pub mod Fingers
pub mod Timers
pub mod Overflows
