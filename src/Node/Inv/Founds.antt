-- ===== src/Node/Inv/Founds.antt =====
-- The node_found callbacks of src/node.c and the invariant, with the lock held or not.
use fyp_dht.Prelude.{ℕ, Bool, true, false, Option, some, ℤ}
use fyp_dht.Prelude.Leads.{Keeps, keeps_rules, Leads-bind}
use fyp_dht.Platform.{Platform, Evbuffer}
use fyp_dht.Callback.{
  NodeInfo, NodeMessage, NodeFoundCbData, FoundCb, node_network_join_succ_found,
  node_stabilize_sp_found, node_update_succs_found, finger_update, node_successor_found_for_remote,
  app_found, CbArg, found_arg,
}
use fyp_dht.Netio.Keeps.{net_ops}
use fyp_dht.Node.State.{Machine}
use fyp_dht.Node.Found.{
  App, join_succ_found, take_successor, notify_successor, stabilize_sp_found, node_update_succ,
  update_succs_found, update_finger, successor_found_for_remote, run_found, node_found, read_var,
  read_found, read_reply, found_reply, node_found_remote,
}
use fyp_dht.Node.Inv.Defs.{
  Inv, node_rules, Leads-then, lock_succs-Leads, unlock_succs-Leads, locked_out,
}
use fyp_dht.Node.Inv.Sends.{
  new_block-Keeps, add_bytes-Keeps, node_find_successor_remote-Keeps, node_notify_node-Keeps,
}

-- The application's callbacks keep the invariant.
pub record AppKeeps {Ev : Type 0} (app : App Ev) (me : ℕ) : Type 0 where
  pub joined : (held : Bool) (f : ℕ) → Keeps (Inv me held) (app.joined_cb f)
  pub found :
      (held : Bool) (f : ℕ) (n : NodeInfo) (hops : ℕ) → Keeps (Inv me held) (app.found_cb f n hops)
  pub message :
      (held : Bool) (f : ℕ) (msg : NodeMessage) (conn : ℤ) (arg : ℕ)
      → Keeps (Inv me held) (app.message_cb f msg conn arg)
  pub reads :
      (held : Bool) (f : ℕ) (conn : ℤ) (arg : Option CbArg)
      → Keeps (Inv me held) (app.data_cb f conn arg)
  pub events :
      (held : Bool) (f : ℕ) (conn : ℤ) (what : ℕ) (arg : Option CbArg)
      → Keeps (Inv me held) (app.event_cb f conn what arg)

-- The code between a lock and its unlock.
ruleset locked_rules = (node_rules, net_ops, Leads-then, unlock_succs-Leads)

module _ {Ev : Type 0} (p : Platform Ev) (app : App Ev) (mc : Machine) (me : ℕ) where
  join_succ_found-Keeps :
      (held : Bool) (n : NodeInfo) (joined : ℕ)
      → Keeps (Inv me held) (join_succ_found p app mc n joined)
  unfolding join_succ_found
  join_succ_found-Keeps held n joined = search (node_rules, net_ops) depth 10

  take_successor-Keeps :
      (held : Bool) (n : NodeInfo) → Keeps (Inv me held) (take_successor p app mc n)
  unfolding take_successor
  take_successor-Keeps true n = locked_out _
  take_successor-Keeps false n = Leads-bind _ _ lock_succs-Leads (λ _. search locked_rules depth 10)

  notify_successor-Keeps : (held : Bool) → Keeps (Inv me held) (notify_successor p app mc)
  unfolding notify_successor
  notify_successor-Keeps true = locked_out _
  notify_successor-Keeps false =
      Leads-bind _ _ lock_succs-Leads (λ _. search (locked_rules, node_notify_node-Keeps) depth 10)

  stabilize_sp_found-Keeps :
      (held : Bool) (n : NodeInfo) → Keeps (Inv me held) (stabilize_sp_found p app mc n)
  unfolding stabilize_sp_found
  stabilize_sp_found-Keeps held n =
      search (node_rules, take_successor-Keeps, notify_successor-Keeps) depth 8

  pub node_update_succ-Keeps :
      (held : Bool) (n : ℤ) → Keeps (Inv me held) (node_update_succ p app mc n)
  unfolding node_update_succ
  node_update_succ-Keeps held n =
      search (node_rules, new_block-Keeps, node_find_successor_remote-Keeps) depth 8

  update_succs_found-Keeps :
      (held : Bool) (n : NodeInfo) (i : ℕ) → Keeps (Inv me held) (update_succs_found p app mc n i)
  unfolding update_succs_found
  update_succs_found-Keeps true n i = locked_out _
  update_succs_found-Keeps false n i =
      Leads-bind _ _ lock_succs-Leads (λ _. search (locked_rules, node_update_succ-Keeps) depth 10)

  update_finger-Keeps :
      (held : Bool) (n : NodeInfo) (i : ℕ) → Keeps (Inv me held) (update_finger p app mc n i)
  unfolding update_finger
  update_finger-Keeps held n i = search node_rules depth 8

  successor_found_for_remote-Keeps :
      (held : Bool) (n : NodeInfo) (conn : ℤ) (hops : ℕ)
      → Keeps (Inv me held) (successor_found_for_remote p app mc n conn hops)
  unfolding successor_found_for_remote
  successor_found_for_remote-Keeps held n conn hops =
      search (node_rules, net_ops, add_bytes-Keeps) depth 14

  module _ (keeps : AppKeeps app me) (held : Bool) where
    run_found-Keeps :
        (cb : FoundCb) (n : NodeInfo) (hops : ℕ)
        → Keeps (Inv me held) (run_found p app mc cb n hops)
    unfolding run_found
    run_found-Keeps (node_network_join_succ_found j) n hops = join_succ_found-Keeps held n j
    run_found-Keeps node_stabilize_sp_found n hops = stabilize_sp_found-Keeps held n
    run_found-Keeps (node_update_succs_found i) n hops = update_succs_found-Keeps held n i
    run_found-Keeps (finger_update i) n hops = update_finger-Keeps held n i
    run_found-Keeps (node_successor_found_for_remote c) n hops =
        successor_found_for_remote-Keeps held n c hops
    run_found-Keeps (app_found f) n hops = keeps.found held f n hops

    pub node_found-Keeps : (d : NodeFoundCbData) → Keeps (Inv me held) (node_found p app mc d)
    unfolding node_found
    node_found-Keeps d = run_found-Keeps d.cb d.node d.hops

  pub read_var-Keeps :
      (held : Bool) (b : Evbuffer) (w old : ℕ) → Keeps (Inv me held) (read_var p app mc b w old)
  unfolding read_var
  read_var-Keeps held b w old = search (node_rules, net_ops) depth 8

  read_found-Keeps :
      (held : Bool) (b : Evbuffer) (d : NodeFoundCbData)
      → Keeps (Inv me held) (read_found p app mc b d)
  unfolding read_found
  read_found-Keeps held b d = search (node_rules, read_var-Keeps) depth 14

  read_reply-Keeps :
      (held : Bool) (conn : ℤ) (b : Evbuffer) (d : NodeFoundCbData)
      → Keeps (Inv me held) (read_reply p app mc conn b d)
  unfolding read_reply
  read_reply-Keeps held conn b d =
      search (node_rules, net_ops, read_var-Keeps, read_found-Keeps) depth 12

  module _ (keeps : AppKeeps app me) (held : Bool) where
    found_reply-Keeps :
        (conn : ℤ) (d : NodeFoundCbData) → Keeps (Inv me held) (found_reply p app mc conn d)
    unfolding found_reply
    found_reply-Keeps conn d =
        search (node_rules, net_ops, read_reply-Keeps, node_found-Keeps, keeps) depth 12

    pub node_found_remote-Keeps :
        (conn : ℤ) (arg : Option CbArg) → Keeps (Inv me held) (node_found_remote p app mc conn arg)
    unfolding node_found_remote
    node_found_remote-Keeps conn (some (found_arg d)) = found_reply-Keeps conn d
    node_found_remote-Keeps conn _ = search keeps_rules
