-- ===== src/Netio.antt =====
-- src/netio.c: the table of connections and the operations on it.
pub mod State
pub mod Server
pub mod Conn
pub mod Slots
pub mod Valid
pub mod Close
pub mod Closes
pub mod Create
pub mod Opens
pub mod Keeps
pub mod Accept
pub mod Hosts
pub mod Live
pub mod Table
pub mod Refines
