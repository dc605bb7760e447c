-- ===== src/Node/Inv/Events.antt =====
-- The callbacks of src/node.c by name, the events of the loop, and the invariant.
use fyp_dht.Prelude.{ℕ, false, Option, some, ℤ, List, [], ◌∷◌}
use fyp_dht.Prelude.Leads.{Keeps, keeps_rules, Keeps-bind}
use fyp_dht.Platform.{Platform}
use fyp_dht.Callback.{
  NodeMessage, CbArg, self_arg, msg_arg, DataCb, node_found_remote_cb, node_check_node_reply,
  incoming_read_cb, handle_succ_request, handle_pred_request, handle_alive_request,
  handle_notif_request, handle_node_message, app_data, EventCb, node_remote_find_event,
  node_notify_rep_event, node_check_node_event, incoming_event_cb, incoming_event_msg_cb,
  incoming_connection, app_event, TimerCb, node_tm_stabilise, node_tm_fix_fingers,
  node_tm_check_pred, node_tm_check_succs, node_tm_update_succs, node_network_joined,
}
use fyp_dht.Netio.Keeps.{net_ops}
use fyp_dht.Netio.Hosts.{
  listen_evt_cb-Keeps, net_connection_event_cb-Keeps, net_connection_read_cb-Keeps,
  net_connection_write_cb-Keeps,
}
use fyp_dht.Node.State.{Machine, NodeM}
use fyp_dht.Node.Found.{App}
use fyp_dht.Node.Loop.{
  LoopEvent, accepted, readable, writable, happened, expired, with_self, with_message, run_data_cb,
  run_event_cb, start_timer, network_joined, run_timer_cb, handle_event, run_loop,
}
use fyp_dht.Node.Inv.Defs.{NodeInv, Inv, node_rules}
use fyp_dht.Node.Inv.Founds.{AppKeeps, node_found_remote-Keeps}
use fyp_dht.Node.Inv.Finds.{node_fix_fingers-Keeps}
use fyp_dht.Node.Inv.Upkeep.{
  check_node_reply-Keeps, check_node_event-Keeps, notify_rep_event-Keeps,
  node_network_stabalize-Keeps, node_update_succs-Keeps, node_check_successors-Keeps,
  node_check_predecessor-Keeps,
}
use fyp_dht.Node.Inv.Requests.{
  incoming_read-Keeps, incoming_event-Keeps, incoming-Keeps, succ_request-Keeps, pred_request-Keeps,
  alive_request-Keeps, notif_request-Keeps, node_message-Keeps,
}

module _ {Ev : Type 0} (me : ℕ) where
  with_self-Keeps :
      (arg : Option CbArg) (m : NodeM Ev (Unit {0}))
      → Keeps (Inv me false) m
      → Keeps (Inv me false) (with_self arg m)
  unfolding with_self
  with_self-Keeps (some self_arg) m km = km
  with_self-Keeps _ m km = search keeps_rules

  with_message-Keeps :
      (arg : Option CbArg) (f : NodeMessage → NodeM Ev (Unit {0}))
      → ((msg : NodeMessage) → Keeps (Inv me false) (f msg))
      → Keeps (Inv me false) (with_message arg f)
  unfolding with_message
  with_message-Keeps (some (msg_arg msg)) f km = km msg
  with_message-Keeps _ f km = search keeps_rules

module _ {Ev : Type 0} (p : Platform Ev) (app : App Ev) (mc : Machine) (me : ℕ)
    (keeps : AppKeeps app me) where
  run_data_cb-Keeps :
      (cb : DataCb) (conn : ℤ) (arg : Option CbArg)
      → Keeps (Inv me false) (run_data_cb p app mc cb conn arg)
  unfolding run_data_cb
  run_data_cb-Keeps node_found_remote_cb c arg =
      node_found_remote-Keeps p app mc me keeps false c arg
  run_data_cb-Keeps node_check_node_reply c arg = check_node_reply-Keeps p app mc me false c arg
  run_data_cb-Keeps incoming_read_cb c arg =
      with_self-Keeps me arg _ (incoming_read-Keeps p app mc me keeps c)
  run_data_cb-Keeps handle_succ_request c arg =
      with_self-Keeps me arg _ (succ_request-Keeps p app mc me keeps c)
  run_data_cb-Keeps handle_pred_request c arg =
      with_self-Keeps me arg _ (pred_request-Keeps p app mc me false c)
  run_data_cb-Keeps handle_alive_request c arg =
      with_self-Keeps me arg _ (alive_request-Keeps p app mc me false c)
  run_data_cb-Keeps handle_notif_request c arg =
      with_self-Keeps me arg _ (notif_request-Keeps p app mc me false c)
  run_data_cb-Keeps handle_node_message c arg =
      with_message-Keeps me arg _ (node_message-Keeps p app mc me keeps c)
  run_data_cb-Keeps (app_data f) c arg = keeps.reads false f c arg

  run_event_cb-Keeps :
      (cb : EventCb) (conn : ℤ) (what : ℕ) (arg : Option CbArg)
      → Keeps (Inv me false) (run_event_cb p app mc cb conn what arg)
  unfolding run_event_cb
  run_event_cb-Keeps node_remote_find_event c what arg = search keeps_rules
  run_event_cb-Keeps node_notify_rep_event c what arg =
      notify_rep_event-Keeps p app mc me false c what arg
  run_event_cb-Keeps node_check_node_event c what arg =
      check_node_event-Keeps p app mc me false c what arg
  run_event_cb-Keeps incoming_event_cb c what arg =
      with_self-Keeps me arg _ (incoming_event-Keeps p app mc me false c what)
  run_event_cb-Keeps incoming_event_msg_cb c what arg =
      with_message-Keeps me arg _ (λ _. incoming_event-Keeps p app mc me false c what)
  run_event_cb-Keeps incoming_connection c what arg =
      with_self-Keeps me arg _ (incoming-Keeps p app mc me false c)
  run_event_cb-Keeps (app_event f) c what arg = keeps.events false f c what arg

  start_timer-Keeps :
      (tm : Option ℕ) (cb : TimerCb) → Keeps (Inv me false) (start_timer p app mc tm cb)
  unfolding start_timer
  start_timer-Keeps tm cb = search (node_rules, net_ops) depth 8

  network_joined-Keeps : (joined : ℕ) → Keeps (Inv me false) (network_joined p app mc joined)
  unfolding network_joined
  network_joined-Keeps joined = Keeps-bind _ _ (keeps.joined false joined) (λ _.
      search
        (
          node_rules, net_ops, start_timer-Keeps, node_network_stabalize-Keeps,
          node_update_succs-Keeps, node_fix_fingers-Keeps,
        )
        depth 14)

  run_timer_cb-Keeps : (cb : TimerCb) → Keeps (Inv me false) (run_timer_cb p app mc cb)
  unfolding run_timer_cb
  run_timer_cb-Keeps node_tm_stabilise = node_network_stabalize-Keeps p app mc me false
  run_timer_cb-Keeps node_tm_fix_fingers = node_fix_fingers-Keeps p app mc me keeps
  run_timer_cb-Keeps node_tm_check_pred = node_check_predecessor-Keeps p app mc me false
  run_timer_cb-Keeps node_tm_check_succs = node_check_successors-Keeps p app mc me false
  run_timer_cb-Keeps node_tm_update_succs = node_update_succs-Keeps p app mc me
  run_timer_cb-Keeps (node_network_joined joined) = network_joined-Keeps joined

  -- If the application's callbacks keep the invariant, every event that the loop hands over keeps it
  -- when it returns: the id stays, the lock is released again, the tables keep their sizes, and the
  -- connections stay well formed.
  pub handle_event-Keeps : (e : LoopEvent) → Keeps (Inv me false) (handle_event p app mc e)
  unfolding handle_event
  handle_event-Keeps (accepted fd) =
      listen_evt_cb-Keeps p (NodeInv me false) (run_event_cb p app mc) run_event_cb-Keeps fd
  handle_event-Keeps (readable conn) =
      net_connection_read_cb-Keeps p (NodeInv me false) (run_data_cb p app mc) run_data_cb-Keeps
        conn
  handle_event-Keeps (writable conn) =
      net_connection_write_cb-Keeps p (NodeInv me false) (run_data_cb p app mc) run_data_cb-Keeps
        conn
  handle_event-Keeps (happened conn what) =
      net_connection_event_cb-Keeps p (NodeInv me false) (run_event_cb p app mc) run_event_cb-Keeps
        what conn
  handle_event-Keeps (expired cb) = run_timer_cb-Keeps cb

  pub run_loop-Keeps : (events : List LoopEvent) → Keeps (Inv me false) (run_loop p app mc events)
  unfolding run_loop
  run_loop-Keeps [] = search (node_rules, net_ops)
  run_loop-Keeps (e ∷ events) =
      Keeps-bind _ _ (Keeps-bind _ _ (search (node_rules, net_ops)) (λ _. handle_event-Keeps e))
        (λ _. run_loop-Keeps events)
