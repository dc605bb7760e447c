-- ===== src/Node/Loop.antt =====
-- The callbacks of src/node.c by name, as libevent and netio.c call them, and one step of the event loop.
use fyp_dht.Prelude.{ℕ, true, Option, some, ℤ, List, [], ◌∷◌}
use fyp_dht.Prelude.Outcome.{
  null_pointer, wrong_argument, freed_memory, ◌>>=◌, ◌>>◌, pure, fail, need,
}
use fyp_dht.Platform.{Platform}
use fyp_dht.Callback.{
  NodeMessage, CbArg, self_arg, msg_arg, freed_arg, DataCb, node_found_remote_cb,
  node_check_node_reply, incoming_read_cb, handle_succ_request, handle_pred_request,
  handle_alive_request, handle_notif_request, handle_node_message, app_data, EventCb,
  node_remote_find_event, node_notify_rep_event, node_check_node_event, incoming_event_cb,
  incoming_event_msg_cb, incoming_connection, app_event, TimerCb, node_tm_stabilise,
  node_tm_fix_fingers, node_tm_check_pred, node_tm_check_succs, node_tm_update_succs,
  node_network_joined,
}
use fyp_dht.Netio.Conn.{ask, call}
use fyp_dht.Netio.Server.{
  on_net, listen_evt_cb, net_connection_read_cb, net_connection_write_cb, net_connection_event_cb,
}
use fyp_dht.Node.State.{Machine, NodeM}
use fyp_dht.Node.Found.{App, node_found_remote}
use fyp_dht.Node.Find.{node_fix_fingers}
use fyp_dht.Node.Maintain.{
  check_node_reply, check_node_event, notify_rep_event, node_network_stabalize, node_update_succs,
  node_check_successors, node_check_predecessor,
}
use fyp_dht.Node.Incoming.{
  incoming_read, incoming_event, incoming, succ_request, pred_request, alive_request, notif_request,
  node_message,
}

pub data LoopEvent : Type 0 where
  accepted : ℕ → LoopEvent
  readable writable : ℤ → LoopEvent
  happened : ℤ → ℕ → LoopEvent
  expired : TimerCb → LoopEvent

abbrev pub stabilize_period : ℕ
stabilize_period = 30

module _ {Ev : Type 0} where
  -- A callback that casts its argument to a node_self.
  unfoldable pub with_self : Option CbArg → NodeM Ev (Unit {0}) → NodeM Ev (Unit {0})
  with_self (some self_arg) m = m
  with_self _ m = fail wrong_argument

  -- One that casts it to a node_msg_arg, and reads it.
  unfoldable pub with_message :
      Option CbArg → (NodeMessage → NodeM Ev (Unit {0})) → NodeM Ev (Unit {0})
  with_message (some (msg_arg msg)) f = f msg
  with_message (some freed_arg) f = fail freed_memory
  with_message _ f = fail wrong_argument

module _ {Ev : Type 0} (p : Platform Ev) (app : App Ev) (mc : Machine) where
  unfoldable pub run_data_cb : DataCb → ℤ → Option CbArg → NodeM Ev (Unit {0})
  run_data_cb node_found_remote_cb conn arg = node_found_remote p app mc conn arg
  run_data_cb node_check_node_reply conn arg = check_node_reply p app mc conn arg
  run_data_cb incoming_read_cb conn arg = with_self arg (incoming_read p app mc conn)
  run_data_cb handle_succ_request conn arg = with_self arg (succ_request p app mc conn)
  run_data_cb handle_pred_request conn arg = with_self arg (pred_request p app mc conn)
  run_data_cb handle_alive_request conn arg = with_self arg (alive_request p app mc conn)
  run_data_cb handle_notif_request conn arg = with_self arg (notif_request p app mc conn)
  run_data_cb handle_node_message conn arg = with_message arg (node_message p app mc conn)
  run_data_cb (app_data f) conn arg = app.data_cb f conn arg

  unfoldable pub run_event_cb : EventCb → ℤ → ℕ → Option CbArg → NodeM Ev (Unit {0})
  run_event_cb node_remote_find_event conn what arg = pure tt
  run_event_cb node_notify_rep_event conn what arg = notify_rep_event p app mc conn what arg
  run_event_cb node_check_node_event conn what arg = check_node_event p app mc conn what arg
  run_event_cb incoming_event_cb conn what arg = with_self arg (incoming_event p app mc conn what)
  run_event_cb incoming_event_msg_cb conn what arg =
      with_message arg (λ msg. incoming_event p app mc conn what)
  run_event_cb incoming_connection conn what arg = with_self arg (incoming p app mc conn)
  run_event_cb (app_event f) conn what arg = app.event_cb f conn what arg

  -- A persistent timer with the common timeout `tm`.
  unfoldable pub start_timer : Option ℕ → TimerCb → NodeM Ev (Unit {0})
  start_timer tm cb = do
    event ← on_net (ask (λ ev. p.event_new ev true cb))
    e ← need event null_pointer
    on_net (call (λ ev. p.event_add ev e tm))

  -- Both timeouts are made from `stab_tm`; `stab_check_tm` is not used.
  unfoldable pub network_joined : ℕ → NodeM Ev (Unit {0})
  network_joined joined = do
    app.joined_cb joined
    stab_tm_comm ← on_net (ask (λ ev. p.event_base_init_common_timeout ev stabilize_period))
    stab_check_tm_comm ← on_net (ask (λ ev. p.event_base_init_common_timeout ev stabilize_period))
    start_timer stab_tm_comm node_tm_stabilise
    start_timer stab_tm_comm node_tm_fix_fingers
    start_timer stab_tm_comm node_tm_check_pred
    start_timer stab_check_tm_comm node_tm_check_succs
    start_timer stab_tm_comm node_tm_update_succs
    node_network_stabalize p app mc
    node_update_succs p app mc
    node_fix_fingers p app mc

  unfoldable pub run_timer_cb : TimerCb → NodeM Ev (Unit {0})
  run_timer_cb node_tm_stabilise = node_network_stabalize p app mc
  run_timer_cb node_tm_fix_fingers = node_fix_fingers p app mc
  run_timer_cb node_tm_check_pred = node_check_predecessor p app mc
  run_timer_cb node_tm_check_succs = node_check_successors p app mc
  run_timer_cb node_tm_update_succs = node_update_succs p app mc
  run_timer_cb (node_network_joined joined) = network_joined joined

  -- What the event loop hands to netio.c and node.c: an accepted descriptor, a connection that can be
  -- read or written, an event of a connection, a timer.
  unfoldable pub handle_event : LoopEvent → NodeM Ev (Unit {0})
  handle_event (accepted fd) = listen_evt_cb p run_event_cb fd
  handle_event (readable conn) = net_connection_read_cb p run_data_cb conn
  handle_event (writable conn) = net_connection_write_cb p run_data_cb conn
  handle_event (happened conn what) = net_connection_event_cb p run_event_cb what conn
  handle_event (expired cb) = run_timer_cb cb

  -- A whole run of event_base_loop: the events that it hands over before it returns, in their order.
  unfoldable pub run_loop : List LoopEvent → NodeM Ev (Unit {0})
  run_loop [] = on_net (call p.event_base_loop)
  run_loop (e ∷ events) = on_net (call p.event_base_loop) >> handle_event e >> run_loop events
