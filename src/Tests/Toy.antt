-- ===== src/Tests/Toy.antt =====
-- A platform whose state is the bytes of one buffer, an application that does nothing, and a node.
use fyp_dht.Prelude.{
  ℕ, ◌+◌, true, false, List, [], ◌∷◌, ◌++◌, some, none, replicate, take, drop, refl,
}
use fyp_dht.Prelude.Outcome.{pure}
use fyp_dht.Prelude.Leads.{Leads-pure}
use fyp_dht.Platform.{Platform, Evbuffer, zero_sin}
use fyp_dht.Callback.{NodeInfo, null_node, NodeMessage, self_arg, incoming_connection}
use fyp_dht.Netio.State.{NetConnection, NetServer}
use fyp_dht.Netio.Server.{Host}
use fyp_dht.Node.State.{NodeSelf, Machine}
use fyp_dht.Node.Found.{App}
use fyp_dht.Node.Inv.Founds.{AppKeeps}
use fyp_dht.Node.Replies.{Removes}

abbrev pub toy : Platform (List ℕ)
toy = record {
  malloc = λ ev. (true, ev);
  mutex_init = λ ev. (true, ev);
  event_base_new = λ ev. (true, ev);
  event_base_free = λ ev. ev;
  event_base_loopbreak = λ ev. ev;
  evconnlistener_new_bind = λ ev port. (true, ev);
  evconnlistener_free = λ ev. ev;
  bufferevent_socket_new = λ ev fd. (some 7, ev);
  bufferevent_free = λ ev b. ev;
  bufferevent_setcb = λ ev b i. ev;
  bufferevent_enable = λ ev b. ev;
  bufferevent_set_timeouts = λ ev b r w. ev;
  bufferevent_setwatermark = λ ev b n. ev;
  bufferevent_socket_connect = λ ev b sin. (true, ev);
  getpeername = λ ev b. 9;
  evbuffer_remove = λ ev b w. (some (take w ev), drop w ev);
  evbuffer_add = λ ev b bytes. (true, ev ++ bytes);
  evbuffer_add_printf = λ ev b bytes. (true, ev);
  evbuffer_get_length = λ ev b. 0;
  evbuffer_readln = λ ev b. (none, ev);
  event_base_init_common_timeout = λ ev secs. (some secs, ev);
  event_new = λ ev persist cb. (some 1, ev);
  event_add = λ ev e tm. ev;
  event_active = λ ev e. ev;
  event_base_loop = λ ev. ev;
}

-- Every buffer of the platform is the one it has.
abbrev pub bytes_of : List ℕ → Evbuffer → List ℕ
bytes_of ev b = ev

pub toy-Removes : Removes toy bytes_of
toy-Removes = record { bytes = λ ev b w. refl; rest = λ ev b w. refl }

abbrev pub quiet : App (List ℕ)
quiet = record {
  joined_cb = λ f. pure tt;
  found_cb = λ f n hops. pure tt;
  message_cb = λ f msg conn arg. pure tt;
  data_cb = λ f conn arg. pure tt;
  event_cb = λ f conn what arg. pure tt;
}

pub quiet-AppKeeps : (me : ℕ) → AppKeeps quiet me
quiet-AppKeeps me = record {
  joined = λ held f. Leads-pure tt;
  found = λ held f n hops. Leads-pure tt;
  message = λ held f msg conn arg. Leads-pure tt;
  reads = λ held f conn arg. Leads-pure tt;
  events = λ held f conn what arg. Leads-pure tt;
}

abbrev pub no_message : NodeMessage
no_message = record { to = null_node; from = null_node; type = 0; len = 0; content = none }

abbrev pub little : Machine
little = record {
  big = false;
  found_data = null_node;
  found_hops = 0;
  result_char = 0;
  request_id = 0;
  notifier = null_node;
  header_message = no_message;
}

abbrev pub closed_slot : NetConnection
closed_slot = record {
  bev = none;
  sin = zero_sin;
  read_cb = none;
  write_cb = none;
  evt_cb = none;
  upper_cb_arg = none;
  net_cb_arg = none;
}

abbrev pub closed_slots : List NetConnection
closed_slots = replicate 256 closed_slot

abbrev pub server : List ℕ → NetServer (List ℕ)
server ev = record {
  ev = ev;
  connections = closed_slots;
  connections_lock = false;
  incoming_handler = incoming_connection;
  incoming_handler_arg = some self_arg;
}

abbrev pub node_at : ℕ → NodeInfo
node_at id = record { id = id; ip = 100 + id; port = 4000 }

-- Node 10, whose first successor is node 40 and whose last is node 90; its finger 3 is node 20.
abbrev pub node_ten : NodeSelf
node_ten = record {
  self = node_at 10;
  successor =
      node_at 40
      ∷ null_node
      ∷ null_node
      ∷ null_node
      ∷ null_node
      ∷ null_node
      ∷ null_node
      ∷ node_at 90
      ∷ [];
  succs_lock = false;
  predecessor = node_at 5;
  has_pred = true;
  finger_table = null_node ∷ null_node ∷ null_node ∷ node_at 20 ∷ replicate 28 null_node;
  msg_cb = 0;
  msg_cb_arg = 0;
  wait_tm_default = none;
  wait_tm_long = none;
}

abbrev pub process : List ℕ → Host (List ℕ) NodeSelf
process ev = record { net = server ev; upper = node_ten }
