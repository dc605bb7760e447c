-- ===== src/Node/Life.antt =====
-- A node of src/node.c is made, creates or joins a network, and is destroyed.
use fyp_dht.Prelude.{
  ℕ, true, false, List, Option, none, some, ℤ, pos, negsuc, if◌then◌else◌, replicate,
}
use fyp_dht.Prelude.Outcome.{Outcome, ◌>>=◌, ◌>>◌, pure, if_some}
use fyp_dht.Ident.{get_id}
use fyp_dht.Platform.{Platform}
use fyp_dht.Callback.{
  NodeInfo, null_node, node_network_join_succ_found, self_arg, incoming_connection,
  node_network_joined,
}
use fyp_dht.Netio.State.{NetConnection, NetServer}
use fyp_dht.Netio.Conn.{ask, call}
use fyp_dht.Netio.Server.{Host, on_net, net_server_create, net_server_destroy}
use fyp_dht.Node.State.{NodeSelf, Machine, NodeM, the_node, change, num_of_succs, write_succ}
use fyp_dht.Node.Send.{node_find_successor_remote, new_block, new_found}
use fyp_dht.Node.Found.{App}
use fyp_dht.Node.Loop.{LoopEvent, run_loop}

abbrev pub node_timeout : ℕ
node_timeout = 20

-- 127.0.0.1
abbrev pub loopback : ℕ
loopback = 0x7F000001

unfoldable pub node_set_node_msg_handler : ℕ → ℕ → NodeSelf → NodeSelf
node_set_node_msg_handler node_msg_cb cb_arg self = record self {
  msg_cb = node_msg_cb;
  msg_cb_arg = cb_arg;
}

-- The fields that node_create writes, over what the two blocks from malloc hold.
unfoldable pub init_node : (List ℕ → List ℕ) → NodeSelf → ℕ → List ℕ → NodeSelf
init_node sha1 block listen_port name = record block {
  self = record { id = get_id sha1 name; ip = loopback; port = listen_port };
  predecessor = null_node;
  successor = replicate num_of_succs null_node;
  succs_lock = false;
}

module _ {Ev : Type 0} (p : Platform Ev) where
  -- A timeout that is still NULL is made.
  unfoldable pub common_timeout : Option ℕ → ℕ → Ev → Option ℕ × Ev
  common_timeout (some tm) secs ev = (some tm, ev)
  common_timeout none secs ev = p.event_base_init_common_timeout ev secs

  unfoldable pub with_net : NodeSelf → NetServer Ev → Host Ev NodeSelf
  with_net node net =
      let (default_tm, ev1) = common_timeout node.wait_tm_default node_timeout net.ev in
      let (long_tm, ev2) = common_timeout node.wait_tm_long 60 ev1 in
      record {
        net = record net { ev = ev2 };
        upper = record node { wait_tm_default = default_tm; wait_tm_long = long_tm };
      }

  -- `block` is what the memory of the node, its fingers and the two global timeouts hold.
  unfoldable pub node_create :
      (List ℕ → List ℕ)
      → NodeSelf
      → List NetConnection
      → ℕ
      → List ℕ
      → Ev
      → Option (Host Ev NodeSelf)
  node_create sha1 block connections listen_port name ev0 =
      let (got, ev1) = p.malloc ev0 in
      let (inited, ev2) = p.mutex_init ev1 in
      let (fingers, ev3) = p.malloc ev2 in
      let (net, ev4) =
        net_server_create p connections listen_port incoming_connection (some self_arg) ev3 in
      if got
      then (if inited
          then (if fingers
              then elim net [
                | some srv ↦ some (with_net (init_node sha1 block listen_port name) srv)
                | none ↦ none
              ]
              else none)
          else none)
      else none

  unfoldable pub node_destroy : Host Ev NodeSelf → Outcome Ev
  node_destroy h = net_server_destroy p h.net

module _ {Ev : Type 0} (p : Platform Ev) (app : App Ev) (mc : Machine) where
  -- `events` are those that the loop hands over before it ends.
  unfoldable pub net_server_run : List LoopEvent → NodeM Ev ℤ
  net_server_run events = run_loop p app mc events >> pure (pos 0)

  unfoldable pub node_network_create : List LoopEvent → ℕ → NodeM Ev ℤ
  node_network_create events joined = do
    s ← the_node
    write_succ 0 s.self
    change (λ s. record s { predecessor = s.self; has_pred = true })
    new_block p
    crtevt ← on_net (ask (λ ev. p.event_new ev false (node_network_joined joined)))
    if_some crtevt (λ e. on_net (call (λ ev. p.event_active ev e)) >> net_server_run events)
        (pure (negsuc 0))

  unfoldable pub node_network_join : List LoopEvent → NodeInfo → ℕ → NodeM Ev ℤ
  node_network_join events node joined = do
    new_block p
    new_block p
    change (λ s. record s { has_pred = false })
    s ← the_node
    rc ←
        node_find_successor_remote p mc node s.self.id
          (new_found mc (node_network_join_succ_found joined))
    net_server_run events
