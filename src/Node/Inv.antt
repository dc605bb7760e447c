-- ===== src/Node/Inv.antt =====
-- The invariant of a node of src/node.c, and what every callback does to it.
pub mod Defs
pub mod Sends
pub mod Founds
pub mod Finds
pub mod Upkeep
pub mod Requests
pub mod Events
pub mod Reach
