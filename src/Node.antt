-- ===== src/Node.antt =====
-- src/node.c: the state of a node, what it sends, what it does with answers and requests, and its timers.
pub mod State
pub mod Send
pub mod Blocks
pub mod Freed
pub mod Found
pub mod Find
pub mod Maintain
pub mod Incoming
pub mod Loop
pub mod Life
pub mod Ring
pub mod Inv
pub mod Live
pub mod Checks
pub mod Replies
pub mod Headers
pub mod Requests
pub mod Exchange
pub mod Lookup
pub mod Names
pub mod Notify
pub mod Handled
pub mod Named
pub mod Answered
pub mod System
