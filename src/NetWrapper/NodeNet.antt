-- ===== src/NetWrapper/NodeNet.antt =====
-- A node of src/node.c in a build with USE_NETW: its server behind src/net_wrapper.c.
use fyp_dht.Prelude.{ℕ, false, List, some, none, set}
use fyp_dht.Platform.{Platform}
use fyp_dht.Callback.{self_arg, incoming_connection}
use fyp_dht.Netio.State.{NetServer}
use fyp_dht.Netio.Server.{Host}
use fyp_dht.NetWrapper.{NetwHandler, Netw, init_max_handlers}
use fyp_dht.NetWrapper.Handlers.{handler}

-- The globals before and after the one handler of the node is registered.
abbrev pub unused : Netw
unused = record {
  handlers_lock = false;
  netw_num_handlers = 0;
  netw_max_handlers = init_max_handlers;
  handlers = none;
}

abbrev pub registered : List NetwHandler → Netw
registered block = record {
  handlers_lock = false;
  netw_num_handlers = 1;
  netw_max_handlers = init_max_handlers;
  handlers = some (set block 1 (handler incoming_connection (some self_arg)));
}

module _ {Ev : Type 0} (p : Platform Ev) (fresh : ℕ → List NetwHandler) where
  -- The process with that handler.
  abbrev pub serving : NetServer Ev → Host Ev Netw
  serving srv = record { net = srv; upper = registered (fresh init_max_handlers) }
