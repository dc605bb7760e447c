-- ===== src/Node/Ring.antt =====
-- What the choices of src/node.c mean on the ring: its predecessor, its successor and its fingers.
pub mod Predecessor
pub mod Alive
pub mod Fingers
pub mod Search
pub mod Successor
pub mod Fix
pub mod Alone
pub mod Join
