-- ===== src/Lib.antt =====
-- A verification library for the distributed hash table: a Chord ring of nodes over libevent.
--
-- The program's parts. src/netio.c keeps a table of 256 connections, each a bufferevent of libevent with
-- the callbacks of the layer above, and hands libevent's callbacks on to those. src/node.c is a node of
-- the ring: it keeps eight successors, a predecessor and 32 fingers, finds the successor of an id by its
-- own list or by asking another node, repairs its lists on timers, and answers the requests of others.
-- src/proto.h has the messages, src/libdht.c makes an id of a name, and src/libdht.h and src/libdhtnet.h
-- are the interfaces. The event loop runs one callback at a time.
--
-- The model. A function that can go wrong in C returns an Outcome: ok, or a fault that says which
-- undefined or blocking behaviour the code reaches (Prelude.Outcome: an index out of bounds, a NULL
-- pointer, freed memory, a lock that is held or not held, an overflow). Code with state is a function
-- Run S A, composed by do blocks in the order of the code. Numbers are natural numbers with the
-- wrap-around of the C type written out.
--
--   Prelude     lists, Boolean tests, outcomes, and pre- and postconditions with their rules: Leads for
--               what holds if a function returns, Returns for that it does
--   Ident       node_id_compare, node_id_in_range, two_to_the_n of src/node.c; get_id of src/libdht.c
--     Arc, Gap, Digest    arcs on the ring, and how they change from neighbour to neighbour; digests
--   Callback    the structs and the callback types; a function pointer is the function's name, and a
--               void* argument a value of the type that the code stores there
--   Platform    what libevent, the allocator and the sockets do: a parameter, with a state of its own
--   Netio       src/netio.c
--     State, Conn, Server    net_server, the functions on a connection, the server and its callbacks
--     Slots, Valid, Close, Closes, Create, Opens, Keeps, Accept, Hosts, Live    proofs
--     Table, Refines    the table of open numbers, and that netio.c implements it
--   Wire        Header: the length in a header, as printf writes and strtoul reads it; Memory: numbers
--               sent as they lie in the host's memory
--   Node        src/node.c
--     State      node_self, its lock, reads and writes of its arrays
--     Send       node_send_message and the requests: node_find_successor_remote and its like
--     Found      the node_found callbacks and node_found_remote_cb
--     Find       node_find_successor, node_closest_preceding_node, node_fix_fingers
--     Maintain   node_notified, node_network_stabalize, the checks of other nodes
--     Incoming   incoming_read_cb, the handle_ functions, incoming_connection
--     Loop       callbacks by name, node_network_joined, one event of the loop (handle_event)
--                and a run of it (run_loop)
--     Names      node_msg_type_str
--     Life       node_create, node_destroy, node_network_create, node_network_join
--     Ring       proofs about the choices of a node
--     Inv        the invariant of a node and its server, through every callback
--     Live       that the requests return, and which of the periodic timers do
--     Blocks, Freed    proofs about the blocks from malloc, and about callbacks that free their argument
--     Checks, Replies, Headers    proofs about checks, replies and headers
--     Requests, Exchange, Lookup, Notify    proofs about a request for a successor, its answer and a
--               notification between two nodes
--     Handled, Named, Answered    proofs about requests with no body: the request for a predecessor, and
--               the one whether a node is alive
--     System     several nodes whose runs alternate in any order, as a step relation, while no check
--               of another node fails
--       Runs, Inv, Advance, Closer, Right    what a run leaves of a node, who is known to whom, what a
--               run does to a node's places on the ring, and what holds after every sequence of runs
--       Route  a search that goes from node to node
--   NetWrapper  src/net_wrapper.c
--     Handlers, Numbers, Connects, NodeNet    proofs about the places of handlers, their dispatch, their
--               numbers and their connections, and about a node behind the wrapper
--   Textsend    example/textsend.c: the callbacks, a round of the input thread, and main
--     Keeps, Reads, Peer    proofs about the node's invariant, a received text and a peer's address
--   Tests       a platform and a node that can be run, and the theorems at concrete inputs
--
-- Loops run over lists, or on the rounds that are left: 256 for the table, 8 for the successors, 31 and
-- 32 for the fingers, as the code's bounds have it, so no fuel can run out.
--
-- Parameters. Platform is libevent, malloc and the sockets; App is the application's callbacks; SHA1
-- is a function from bytes to bytes; Calls is what the example alone calls; Machine is the host's byte
-- order and what uninitialised memory holds. What is assumed of them is a hypothesis of the theorem
-- that needs it: that the application's callbacks keep the invariant (AppKeeps), what evbuffer_remove
-- takes from a buffer (Removes), that evbuffer_add appends (Adds), that an input and an output buffer
-- are two (Apart), that malloc always gives a block (Gives), and that it leaves the buffers (Leaves).
-- A run of the event loop is the list of the events that it hands over before it returns.
--
-- Not modelled: the block that incoming_read_cb takes from malloc and never uses; the calls of
-- netw_destroy and netw_net_connection_create that node.c makes instead in a build with USE_NETW, as
-- functions of a node; the logging macros; the two getters node_get_net and net_get_base, which return
-- a field; the prompts of the example program and its waiting for a line; threads at work at the same
-- time, as the rounds of the example's input thread and the events are taken one after the other.
pub mod Prelude
pub mod Ident
pub mod Callback
pub mod Platform
pub mod Netio
pub mod Wire
pub mod Node
pub mod NetWrapper
pub mod Textsend
pub mod Tests
