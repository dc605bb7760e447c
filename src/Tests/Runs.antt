-- ===== src/Tests/Runs.antt =====
-- A node is made and handles events: the invariant at a concrete run.
use fyp_dht.Node.Blocks.{Gives}
use fyp_dht.Callback.{node_tm_check_succs}
use fyp_dht.Node.Live.Overflows.{handle_event-overflows}
use fyp_dht.Prelude.Outcome.{fault, out_of_bounds}
use fyp_dht.Tests.Toy.{node_at}
use fyp_dht.Netio.State.{NetConnection, net_empty_connection_slot, empty_slot_from, alter}
use fyp_dht.Platform.{zero_sin}
use fyp_dht.Prelude.{none, set, ℕ, ◌≡◌, ◌≢◌, negsuc, arith, refl, false, List, [], ◌∷◌, some}
use fyp_dht.Prelude.Outcome.{ok, ◌>>=◌}
use fyp_dht.Ident.{get_id}
use fyp_dht.Callback.{
  node_tm_check_pred, node_tm_update_succs, incoming_read_cb, incoming_event_cb, self_arg,
}
use fyp_dht.Netio.Server.{
  Host, net_server_create, listen_evt_cb, accept_open, accept_slot, attach, accept_run, on_net,
}
use fyp_dht.Netio.Conn.{
  net_code, net_connection_set_read_cb, net_connection_set_event_cb, net_connection_set_cb_arg,
  net_connection_get_bufev,
}
use fyp_dht.Node.Loop.{run_event_cb, with_self}
use fyp_dht.Node.Incoming.{incoming}
use fyp_dht.Node.State.{NodeSelf, the_node, node_first_alive_succ, first_alive_from}
use fyp_dht.Node.Life.{node_create, init_node, with_net, common_timeout, node_set_node_msg_handler}
use fyp_dht.Node.Loop.{accepted, expired, handle_event, run_timer_cb}
use fyp_dht.Node.Maintain.{node_check_predecessor}
use fyp_dht.Node.Inv.Defs.{Inv}
use fyp_dht.Node.Inv.Reach.{Reach, sets_handler, handles, start, step, life-Inv}
use fyp_dht.Tests.Toy.{toy, quiet, quiet-AppKeeps, little, closed_slots, server, node_ten, process}
use fyp_dht.Netio.Valid.{IsValid}
use fyp_dht.Node.Live.Ready.{Runs}
use fyp_dht.Node.Live.Timers.{handle_event-Runs}
use fyp_dht.Tests.Nodes.{process-Inv}
use fyp_dht.Tests.Nets.{closed_slots-Owned}

abbrev pub digest : List ℕ → List ℕ
digest name = 0 ∷ 0 ∷ 0 ∷ 10 ∷ []

abbrev pub block : NodeSelf
block = record node_ten { has_pred = false }

abbrev pub made : Host (List ℕ) NodeSelf
made = with_net toy (init_node digest block 4000 (97 ∷ [])) (server [])

is_made : node_create toy digest block closed_slots 4000 (97 ∷ []) [] ≡ some made
unfolding node_create net_server_create
is_made = refl

abbrev with_handler : Host (List ℕ) NodeSelf
with_handler = record made { upper = node_set_node_msg_handler 3 4 made.upper }

checks :
    handle_event toy quiet little (expired node_tm_check_pred) with_handler ≡ ok (tt, with_handler)
unfolding handle_event run_timer_cb node_check_predecessor the_node ◌>>=◌ with_net init_node
    node_set_node_msg_handler common_timeout
checks = refl

-- A descriptor is accepted in entry 0, with the callbacks of an incoming connection.
abbrev pub accepted_slot : NetConnection
accepted_slot = record {
  bev = some 7;
  sin = zero_sin;
  read_cb = some incoming_read_cb;
  write_cb = none;
  evt_cb = some incoming_event_cb;
  upper_cb_arg = some self_arg;
  net_cb_arg = some 0;
}

abbrev pub with_connection : Host (List ℕ) NodeSelf
with_connection = record with_handler {
  net = record (with_handler.net) {
    connections = set with_handler.net.connections 0 accepted_slot;
  };
}

accepts : handle_event toy quiet little (accepted 5) with_handler ≡ ok (tt, with_connection)
unfolding handle_event ◌>>=◌ listen_evt_cb net_code accept_open accept_slot attach accept_run on_net
    run_event_cb with_self incoming the_node with_net init_node node_set_node_msg_handler
    common_timeout net_empty_connection_slot empty_slot_from net_connection_set_read_cb
    net_connection_set_event_cb net_connection_set_cb_arg alter net_connection_get_bufev
accepts = refl

a_run : Reach toy quiet little made with_connection
a_run =
    step with_handler with_connection
      (step with_handler with_handler (step made with_handler start (sets_handler 3 4 refl))
        (handles (expired node_tm_check_pred) checks))
      (handles (accepted 5) accepts)

life-Inv_example : Inv (get_id digest (97 ∷ [])) false with_connection
life-Inv_example =
    life-Inv toy quiet little digest block closed_slots 4000 (97 ∷ []) [] made with_connection
      (quiet-AppKeeps (get_id digest (97 ∷ []))) refl closed_slots-Owned refl is_made a_run

ten_alive : node_first_alive_succ node_ten ≢ negsuc 0
unfolding node_first_alive_succ first_alive_from
ten_alive e = cc

pub toy-Gives : Gives toy
toy-Gives = record { given = λ ev. refl }

handle_event-Runs_example :
    (t : Host (List ℕ) NodeSelf) × (handle_event toy quiet little
        (expired node_tm_update_succs)
        (process [])
      ≡ ok (tt, t))
    × Runs 10 false t
handle_event-Runs_example =
    handle_event-Runs toy toy-Gives quiet little 10 node_tm_update_succs (process []) tt
      (omega arith) ((process-Inv []).0, record { inv = (process-Inv []).1; alive = ten_alive })

-- The timer of node 10 that checks its successors, of which 40 is the first.
handle_event-overflows_example :
    handle_event toy quiet little (expired node_tm_check_succs) (process []) ≡ fault out_of_bounds
handle_event-overflows_example =
    handle_event-overflows toy toy-Gives quiet little 10 node_tm_check_succs (process [])
      (process-Inv []) (0, node_at 40, refl, omega arith, λ e. omega arith)

pub with_connection-IsValid : IsValid with_connection.net
with_connection-IsValid =
    (life-Inv toy quiet little digest block closed_slots 4000 (97 ∷ []) [] made with_connection
      (quiet-AppKeeps (get_id digest (97 ∷ []))) refl closed_slots-Owned refl is_made a_run).0
