-- ===== src/Callback.antt =====
-- The structs and the callback types of src/libdht.h, src/libdhtnet.h and src/node.c.
-- A function pointer is the name of the function that the code takes the address of. A `void*`
-- argument is a value of the type that the code stores there, so a callback that gets a `void*` of
-- another type than it casts to can be told apart.
use fyp_dht.Prelude.{ℕ, List, Option, ℤ}

pub record NodeInfo : Type 0 where
  pub id : ℕ
  pub ip : ℕ
  pub port : ℕ

abbrev pub null_node : NodeInfo
null_node = record { id = 0; ip = 0; port = 0 }

-- `content` is none for NULL, and a string without its terminator otherwise.
pub record NodeMessage : Type 0 where
  pub to : NodeInfo
  pub from : NodeInfo
  pub type : ℕ
  pub len : ℕ
  pub content : Option (List ℕ)

-- A node_found_cb_t with the found_cb_arg that the code hands over beside it; the two always stand
-- together. `app_found` is a callback of the application's.
pub data FoundCb : Type 0 where
  -- Its argument is the application's on_join_cb_t with its argument.
  node_network_join_succ_found : ℕ → FoundCb
  node_stabilize_sp_found : FoundCb
  -- The successor's number.
  node_update_succs_found : ℕ → FoundCb
  -- The finger's number.
  finger_update : ℕ → FoundCb
  -- The connection that waits for the answer.
  node_successor_found_for_remote : ℤ → FoundCb
  app_found : ℕ → FoundCb

pub record NodeFoundCbData : Type 0 where
  pub cb : FoundCb
  pub node : NodeInfo
  pub hops : ℕ

-- A node_check_cb with its argument, the number of the successor.
pub data NodeCheckCb : Type 0 where
  node_check_pred_result : NodeCheckCb
  node_check_succ_result : ℕ → NodeCheckCb

-- What a connection's upper_cb_arg points to.
pub data CbArg : Type 0 where
  self_arg : CbArg
  found_arg : NodeFoundCbData → CbArg
  check_arg : NodeCheckCb → CbArg
  msg_arg : NodeMessage → CbArg
  app_arg : ℕ → CbArg
  -- The block that it points to has been freed.
  freed_arg : CbArg

-- The functions that are used as a net_connection_data_cb_t.
pub data DataCb : Type 0 where
  node_found_remote_cb node_check_node_reply incoming_read_cb : DataCb
  handle_succ_request handle_pred_request handle_alive_request : DataCb
  handle_notif_request handle_node_message : DataCb
  app_data : ℕ → DataCb

-- The functions that are used as a net_connection_event_cb_t.
pub data EventCb : Type 0 where
  node_remote_find_event node_notify_rep_event node_check_node_event : EventCb
  incoming_event_cb incoming_event_msg_cb incoming_connection : EventCb
  app_event : ℕ → EventCb

-- The callbacks of timers and of events that are made active by hand.
pub data TimerCb : Type 0 where
  node_tm_stabilise node_tm_fix_fingers node_tm_check_pred : TimerCb
  node_tm_check_succs node_tm_update_succs : TimerCb
  -- Its argument is the application's on_join_cb_t with its argument.
  node_network_joined : ℕ → TimerCb
