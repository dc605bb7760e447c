-- ===== src/Wire.antt =====
-- The wire formats of src/proto.h and src/node.c: numbers as the host's memory holds them, and the
-- header `%c%08X` that node_send_message prints and node_parse_message_header reads.
pub mod Memory
pub mod Header
