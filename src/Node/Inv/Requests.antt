-- ===== src/Node/Inv/Requests.antt =====
-- The answers of src/node.c to requests, the reading of an incoming connection, and the invariant.
use fyp_dht.Prelude.{ℕ, Bool, false, Option, List, ℤ}
use fyp_dht.Prelude.Leads.{Keeps, keeps_rules, Keeps-bind}
use fyp_dht.Platform.{Platform, Evbuffer}
use fyp_dht.Callback.{NodeInfo, NodeMessage, DataCb}
use fyp_dht.Netio.Keeps.{net_ops}
use fyp_dht.Node.State.{Machine}
use fyp_dht.Node.Found.{App}
use fyp_dht.Node.Incoming.{
  forget_message, add_literal, succ_request, pred_request, alive_request, read_notifier,
  notif_request, node_parse_message_header, node_message, await, await_body, handle_body,
  handle_message, incoming_read, incoming_event, incoming,
}
use fyp_dht.Node.Inv.Defs.{
  NodeInv, Inv, node_rules, leave_freed-Keeps, change-Keeps, the_node-Keeps,
}
use fyp_dht.Node.Inv.Sends.{new_block-Keeps, add_bytes-Keeps}
use fyp_dht.Node.Inv.Founds.{AppKeeps, read_var-Keeps}
use fyp_dht.Node.Inv.Finds.{node_find_successor-Keeps}
use fyp_dht.Node.Inv.Upkeep.{node_notified-Inv}

module _ {Ev : Type 0} (p : Platform Ev) (app : App Ev) (mc : Machine) (me : ℕ) (held : Bool) where
  pub pred_request-Keeps : (conn : ℤ) → Keeps (Inv me held) (pred_request p app mc conn)
  unfolding pred_request
  pred_request-Keeps conn = search (node_rules, net_ops, add_bytes-Keeps) depth 10

  add_literal-Keeps :
      (b : Option Evbuffer) (bytes : List ℕ) (n : ℕ)
      → Keeps (Inv me held) (add_literal p app mc b bytes n)
  unfolding add_literal
  add_literal-Keeps b bytes n = search (node_rules, add_bytes-Keeps) depth 8

  pub alive_request-Keeps : (conn : ℤ) → Keeps (Inv me held) (alive_request p app mc conn)
  unfolding alive_request
  alive_request-Keeps conn = search (node_rules, net_ops, add_literal-Keeps) depth 8

  read_notifier-Keeps :
      (b : Evbuffer) (n : NodeInfo) → Keeps (Inv me held) (read_notifier p app mc b n)
  unfolding read_notifier
  read_notifier-Keeps b n = search (node_rules, read_var-Keeps) depth 10

  pub notif_request-Keeps : (conn : ℤ) → Keeps (Inv me held) (notif_request p app mc conn)
  unfolding notif_request
  notif_request-Keeps conn =
      search (node_rules, net_ops, read_notifier-Keeps, change-Keeps, node_notified-Inv) depth 12

  node_parse_message_header-Keeps :
      (b : Evbuffer) → Keeps (Inv me held) (node_parse_message_header p app mc b)
  unfolding node_parse_message_header
  node_parse_message_header-Keeps b = search (node_rules, net_ops, read_var-Keeps) depth 10

  await-Keeps : (conn : ℤ) (cb : DataCb) → Keeps (Inv me held) (await p app mc conn cb)
  unfolding await
  await-Keeps conn cb = search (node_rules, net_ops) depth 8

  await_body-Keeps :
      (conn : ℤ) (msg : NodeMessage) → Keeps (Inv me held) (await_body p app mc conn msg)
  unfolding await_body
  await_body-Keeps conn msg = search (node_rules, net_ops, new_block-Keeps, await-Keeps) depth 14

  pub incoming_event-Keeps :
      (conn : ℤ) (what : ℕ) → Keeps (Inv me held) (incoming_event p app mc conn what)
  unfolding incoming_event
  incoming_event-Keeps conn what = search (node_rules, net_ops) depth 8

  pub incoming-Keeps : (conn : ℤ) → Keeps (Inv me held) (incoming p app mc conn)
  unfolding incoming
  incoming-Keeps conn = search (node_rules, net_ops) depth 14

module _ {Ev : Type 0} (p : Platform Ev) (app : App Ev) (mc : Machine) (me : ℕ)
    (keeps : AppKeeps app me) where
  pub node_message-Keeps :
      (conn : ℤ) (msg : NodeMessage) → Keeps (Inv me false) (node_message p app mc conn msg)
  unfolding node_message
  node_message-Keeps conn msg = Keeps-bind _ _ the_node-Keeps (λ s.
      Keeps-bind _ _ (keeps.message false s.msg_cb msg conn s.msg_cb_arg)
        (λ _. leave_freed-Keeps (NodeInv me false) conn forget_message))

  pub succ_request-Keeps : (conn : ℤ) → Keeps (Inv me false) (succ_request p app mc conn)
  unfolding succ_request
  succ_request-Keeps conn =
      search (node_rules, net_ops, new_block-Keeps, read_var-Keeps, node_find_successor-Keeps) depth
        12

  handle_body-Keeps :
      (conn : ℤ) (msg : NodeMessage) → Keeps (Inv me false) (handle_body p app mc conn msg)
  unfolding handle_body
  handle_body-Keeps conn msg =
      search
        (
          keeps_rules, new_block-Keeps, succ_request-Keeps, pred_request-Keeps, alive_request-Keeps,
          notif_request-Keeps, node_message-Keeps,
        )
        depth 14

  handle_message-Keeps :
      (conn : ℤ) (b : Evbuffer) (msg : NodeMessage)
      → Keeps (Inv me false) (handle_message p app mc conn b msg)
  unfolding handle_message
  handle_message-Keeps conn b msg =
      search (node_rules, net_ops, await_body-Keeps, handle_body-Keeps) depth 12

  pub incoming_read-Keeps : (conn : ℤ) → Keeps (Inv me false) (incoming_read p app mc conn)
  unfolding incoming_read
  incoming_read-Keeps conn =
      search (node_rules, net_ops, node_parse_message_header-Keeps, handle_message-Keeps) depth 12
