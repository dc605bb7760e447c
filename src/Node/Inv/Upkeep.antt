-- ===== src/Node/Inv/Upkeep.antt =====
-- The upkeep of a node of src/node.c, and the invariant.
use fyp_dht.Prelude.{ℕ, zero, suc, Bool, true, false, Option, some, ℤ, if◌then◌else◌}
use fyp_dht.Prelude.Leads.{Keeps, keeps_rules, Leads-bind, Keeps-bind}
use fyp_dht.Platform.{Platform}
use fyp_dht.Callback.{
  NodeInfo, NodeCheckCb, node_check_pred_result, node_check_succ_result, CbArg, self_arg, check_arg,
}
use fyp_dht.Netio.Keeps.{net_ops}
use fyp_dht.Node.State.{NodeSelf, Machine}
use fyp_dht.Node.Found.{App}
use fyp_dht.Node.Maintain.{
  node_notified, no_predecessor, check_pred_result, check_succ_result, check_result, check_reply,
  check_node_reply, check_event, check_node_event, notify_rep_event, node_network_stabalize,
  node_update_succs, check_from, node_check_successors, node_check_predecessor,
}
use fyp_dht.Node.Inv.Defs.{
  NodeInv, Inv, node_rules, change-Keeps, Leads-then, lock_succs-Leads, unlock_succs-Leads,
}
use fyp_dht.Node.Inv.Sends.{
  new_block-Keeps, node_get_predecessor_remote-Keeps, node_check_node-Keeps,
}
use fyp_dht.Node.Inv.Founds.{node_update_succ-Keeps}

module _ {me : ℕ} {held : Bool} where
  no_predecessor-Inv : (s : NodeSelf) → NodeInv me held s → NodeInv me held (no_predecessor s)
  no_predecessor-Inv s v = record { id = v.id; lock = v.lock; succs = v.succs; fingers = v.fingers }

  if-Inv :
      (b : Bool) {s t : NodeSelf}
      → NodeInv me held s
      → NodeInv me held t
      → NodeInv me held (if b then s else t)
  if-Inv true v w = v
  if-Inv false v w = w

  pub node_notified-Inv :
      (s : NodeSelf) (n : NodeInfo) → NodeInv me held s → NodeInv me held (node_notified s n)
  unfolding node_notified
  node_notified-Inv s n v =
      if-Inv _ record { id = v.id; lock = v.lock; succs = v.succs; fingers = v.fingers } v

module _ {Ev : Type 0} (me : ℕ) (held : Bool) where
  check_pred_result-Keeps :
      (success : Bool) → Keeps (Inv {Ev = Ev} me held) (check_pred_result success)
  unfolding check_pred_result
  check_pred_result-Keeps success = search (node_rules, change-Keeps, no_predecessor-Inv)

  check_result-Keeps :
      (cb : NodeCheckCb) (success : Bool) → Keeps (Inv {Ev = Ev} me held) (check_result cb success)
  unfolding check_result check_succ_result
  check_result-Keeps node_check_pred_result success = check_pred_result-Keeps success
  check_result-Keeps (node_check_succ_result sn) success = search node_rules

module _ {Ev : Type 0} (p : Platform Ev) (app : App Ev) (mc : Machine) (me : ℕ) (held : Bool) where
  check_reply-Keeps :
      (conn : ℤ) (cb : NodeCheckCb) → Keeps (Inv me held) (check_reply p app mc conn cb)
  unfolding check_reply
  check_reply-Keeps conn cb = search (node_rules, net_ops, check_result-Keeps) depth 10

  pub check_node_reply-Keeps :
      (conn : ℤ) (arg : Option CbArg) → Keeps (Inv me held) (check_node_reply p app mc conn arg)
  unfolding check_node_reply
  check_node_reply-Keeps conn (some (check_arg cb)) = check_reply-Keeps conn cb
  check_node_reply-Keeps conn _ = search keeps_rules

  check_event-Keeps :
      (conn : ℤ) (what : ℕ) (cb : NodeCheckCb)
      → Keeps (Inv me held) (check_event p app mc conn what cb)
  unfolding check_event
  check_event-Keeps conn what cb = search (node_rules, net_ops, check_result-Keeps) depth 10

  pub check_node_event-Keeps :
      (conn : ℤ) (what : ℕ) (arg : Option CbArg)
      → Keeps (Inv me held) (check_node_event p app mc conn what arg)
  unfolding check_node_event
  check_node_event-Keeps conn what (some (check_arg cb)) = check_event-Keeps conn what cb
  check_node_event-Keeps conn what _ = search keeps_rules

  pub notify_rep_event-Keeps :
      (conn : ℤ) (what : ℕ) (arg : Option CbArg)
      → Keeps (Inv me held) (notify_rep_event p app mc conn what arg)
  unfolding notify_rep_event
  notify_rep_event-Keeps conn what (some self_arg) = search (node_rules, net_ops) depth 8
  notify_rep_event-Keeps conn what _ = search keeps_rules

  pub node_network_stabalize-Keeps : Keeps (Inv me held) (node_network_stabalize p app mc)
  unfolding node_network_stabalize
  node_network_stabalize-Keeps = search (node_rules, node_get_predecessor_remote-Keeps) depth 8

  check_from-Keeps : (left i : ℕ) → Keeps (Inv me held) (check_from p app mc left i)
  unfolding check_from
  check_from-Keeps zero i = search keeps_rules
  check_from-Keeps (suc left) i = Keeps-bind _ _ (search node_rules) (λ n.
      Keeps-bind _ _ (search (node_rules, new_block-Keeps, node_check_node-Keeps))
        (λ _. check_from-Keeps left (suc i)))

  pub node_check_successors-Keeps : Keeps (Inv me held) (node_check_successors p app mc)
  unfolding node_check_successors
  node_check_successors-Keeps = check_from-Keeps 8 0

  pub node_check_predecessor-Keeps : Keeps (Inv me held) (node_check_predecessor p app mc)
  unfolding node_check_predecessor
  node_check_predecessor-Keeps = search (node_rules, node_check_node-Keeps) depth 8

module _ {Ev : Type 0} (p : Platform Ev) (app : App Ev) (mc : Machine) (me : ℕ) where
  pub node_update_succs-Keeps : Keeps (Inv me false) (node_update_succs p app mc)
  unfolding node_update_succs
  node_update_succs-Keeps =
      Leads-bind _ _ lock_succs-Leads
        (λ _. search (node_rules, Leads-then, node_update_succ-Keeps, unlock_succs-Leads) depth 8)
