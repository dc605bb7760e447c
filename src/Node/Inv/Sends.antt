-- ===== src/Node/Inv/Sends.antt =====
-- The requests that src/node.c sends, and the invariants: `Q` is what holds of the node.
use fyp_dht.Prelude.{ℕ, Bool, List, Option, ℤ}
use fyp_dht.Prelude.Leads.{Keeps}
use fyp_dht.Platform.{Platform, Evbuffer}
use fyp_dht.Callback.{
  NodeInfo, NodeMessage, NodeFoundCbData, FoundCb, NodeCheckCb, CbArg, DataCb, EventCb,
}
use fyp_dht.Netio.Keeps.{net_ops}
use fyp_dht.Node.State.{NodeSelf, Machine}
use fyp_dht.Node.Send.{
  new_block, write_fields, add_bytes, send_text, node_send_message, configure, connected_send,
  node_connect_and_send_message, add_request_id, node_find_successor_remote,
  node_get_predecessor_remote, node_notify_node, node_check_node,
}
use fyp_dht.Netio.Valid.{IsValid}
use fyp_dht.Netio.Hosts.{HostInv}
use fyp_dht.Node.Inv.Defs.{node_rules}

module _ {Ev : Type 0} (p : Platform Ev) (Q : NodeSelf → Type 0) where
  pub new_block-Keeps : Keeps (HostInv Q IsValid) (new_block p)
  unfolding new_block
  new_block-Keeps = search (node_rules, net_ops) depth 8

  write_fields-Keeps : (size width : ℕ) → Keeps (HostInv Q IsValid) (write_fields p size width)
  unfolding write_fields
  write_fields-Keeps size width = search node_rules depth 8

  pub add_bytes-Keeps :
      (buffer : Option Evbuffer) (bytes : List ℕ)
      → Keeps (HostInv Q IsValid) (add_bytes p buffer bytes)
  unfolding add_bytes
  add_bytes-Keeps buffer bytes = search (node_rules, net_ops) depth 8

  send_text-Keeps :
      (conn : ℤ) (printed : Bool) → Keeps (HostInv Q IsValid) (send_text p conn printed)
  unfolding send_text
  send_text-Keeps conn printed = search (node_rules, net_ops) depth 8

  pub node_send_message-Keeps :
      (msg : NodeMessage) (conn : ℤ) → Keeps (HostInv Q IsValid) (node_send_message p msg conn)
  unfolding node_send_message
  node_send_message-Keeps msg conn = search (node_rules, net_ops, send_text-Keeps) depth 8

  configure-Keeps :
      (conn : ℤ) (r : Option DataCb) (e : Option EventCb) (a : Option CbArg) (t : Option ℕ)
      → Keeps (HostInv Q IsValid) (configure p conn r e a t)
  unfolding configure
  configure-Keeps conn r e a t = search (node_rules, net_ops) depth 10

  connected_send-Keeps :
      (conn : ℤ) (msg : NodeMessage) (r : Option DataCb) (e : Option EventCb) (a : Option CbArg)
      (t : Option ℕ)
      → Keeps (HostInv Q IsValid) (connected_send p conn msg r e a t)
  unfolding connected_send
  connected_send-Keeps conn msg r e a t =
      search (node_rules, configure-Keeps, node_send_message-Keeps) depth 8

  pub node_connect_and_send_message-Keeps :
      (msg : NodeMessage) (r : Option DataCb) (e : Option EventCb) (a : Option CbArg) (t : Option ℕ)
      → Keeps (HostInv Q IsValid) (node_connect_and_send_message p msg r e a t)
  unfolding node_connect_and_send_message
  node_connect_and_send_message-Keeps msg r e a t =
      search (node_rules, net_ops, connected_send-Keeps) depth 8

  module _ (mc : Machine) where
    add_request_id-Keeps :
        (conn : ℤ) (id : ℕ) → Keeps (HostInv Q IsValid) (add_request_id p mc conn id)
    unfolding add_request_id
    add_request_id-Keeps conn id = search (node_rules, net_ops, add_bytes-Keeps) depth 8

    pub node_find_successor_remote-Keeps :
        (n : NodeInfo) (id : ℕ) (d : NodeFoundCbData)
        → Keeps (HostInv Q IsValid) (node_find_successor_remote p mc n id d)
    unfolding node_find_successor_remote
    node_find_successor_remote-Keeps n id d =
        search (node_rules, node_connect_and_send_message-Keeps, add_request_id-Keeps) depth 8

    pub node_get_predecessor_remote-Keeps :
        (n : NodeInfo) (cb : FoundCb)
        → Keeps (HostInv Q IsValid) (node_get_predecessor_remote p mc n cb)
    unfolding node_get_predecessor_remote
    node_get_predecessor_remote-Keeps n cb =
        search (node_rules, new_block-Keeps, node_connect_and_send_message-Keeps) depth 8

    pub node_notify_node-Keeps :
        (n : NodeInfo) → Keeps (HostInv Q IsValid) (node_notify_node p mc n)
    unfolding node_notify_node
    node_notify_node-Keeps n =
        search (node_rules, net_ops, node_connect_and_send_message-Keeps, add_bytes-Keeps) depth 10

    pub node_check_node-Keeps :
        (n : NodeInfo) (cb : NodeCheckCb) → Keeps (HostInv Q IsValid) (node_check_node p mc n cb)
    unfolding node_check_node
    node_check_node-Keeps n cb =
        search
          (node_rules, new_block-Keeps, write_fields-Keeps, node_connect_and_send_message-Keeps)
          depth 8
