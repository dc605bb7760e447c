-- ===== src/Node/Send.antt =====
-- What a node of src/node.c sends: the messages, and the requests that it makes of other nodes.
use fyp_dht.Prelude.{
  is_negative, ℕ, ◌+◌, ◌*◌, Bool, false, List, ◌∷◌, ◌++◌, Option, none, some, ◌==◌, leb,
  if◌then◌else◌, ℤ, pos, negsuc,
}
use fyp_dht.Prelude.Outcome.{null_pointer, out_of_bounds, ◌>>=◌, ◌>>◌, pure, fail, need, if_some}
use fyp_dht.Platform.{Platform, Evbuffer}
use fyp_dht.Callback.{
  NodeInfo, NodeMessage, NodeFoundCbData, FoundCb, NodeCheckCb, CbArg, self_arg, found_arg,
  check_arg, DataCb, EventCb, node_found_remote_cb, node_remote_find_event, node_notify_rep_event,
  node_check_node_reply, node_check_node_event,
}
use fyp_dht.Wire.Memory.{memory_bytes}
use fyp_dht.Wire.Header.{print_len}
use fyp_dht.Netio.Conn.{
  ask, net_connection_create, net_connection_set_timeouts, net_connection_set_read_cb,
  net_connection_set_event_cb, net_connection_set_cb_arg, net_connection_get_write_buffer,
  net_connection_activate,
}
use fyp_dht.Netio.Server.{on_net}
use fyp_dht.Node.State.{Machine, NodeM, the_node, id_bytes}

-- The message types of src/proto.h.
abbrev pub msg_t_succ_req : ℕ
msg_t_succ_req = b'S'

abbrev pub msg_t_pred_req : ℕ
msg_t_pred_req = b'P'

abbrev pub msg_t_notif : ℕ
msg_t_notif = b'N'

abbrev pub msg_t_alive_req : ℕ
msg_t_alive_req = b'A'

abbrev pub msg_t_node_msg : ℕ
msg_t_node_msg = b'M'

-- MSG_FMT_CONTENT with the content, MSG_FMT with the length 0 without.
unfoldable pub message_text : NodeMessage → List ℕ
message_text msg = elim msg.content [
  | some content ↦ msg.type ∷ (print_len msg.len ++ content)
  | none ↦ msg.type ∷ print_len 0
]

abbrev pub is_zero : ℤ → Bool
is_zero (pos n) = n == 0
is_zero (negsuc n) = false

-- The fields that the requests set.
abbrev pub request : NodeInfo → NodeInfo → ℕ → ℕ → NodeMessage
request from to type len = record { to = to; from = from; type = type; len = len; content = none }

-- What a found node's block holds when its callback is written to it.
abbrev pub new_found : Machine → FoundCb → NodeFoundCbData
new_found mc cb = record { cb = cb; node = mc.found_data; hops = mc.found_hops }

-- The size of a pointer, and that of a node_check_arg, which is three of them.
abbrev pub pointer_bytes : ℕ
pointer_bytes = 8

abbrev pub check_arg_bytes : ℕ
check_arg_bytes = 3 * pointer_bytes

module _ {Ev : Type 0} (p : Platform Ev) where
  -- A block from malloc that is written to with no test for NULL.
  unfoldable pub new_block : NodeM Ev (Unit {0})
  new_block = do got ← on_net (ask p.malloc); if got then pure tt else fail null_pointer

  -- Fields of `width` bytes altogether, written to a block of `size`.
  unfoldable pub write_fields : ℕ → ℕ → NodeM Ev (Unit {0})
  write_fields size width = if leb width size then pure tt else fail out_of_bounds

  -- Calls of evbuffer_add whose result is not tested; a NULL buffer is a fault.
  unfoldable pub add_bytes : Option Evbuffer → List ℕ → NodeM Ev (Unit {0})
  add_bytes buffer bytes = do
    b ← need buffer null_pointer
    added ← on_net (ask (λ ev. p.evbuffer_add ev b bytes))
    pure tt

  -- After the text is in the buffer: the connection is opened if it went in.
  unfoldable pub send_text : ℤ → Bool → NodeM Ev ℤ
  send_text connection printed =
      if printed then on_net (net_connection_activate p connection) else pure (negsuc 0)

  unfoldable pub node_send_message : NodeMessage → ℤ → NodeM Ev ℤ
  node_send_message msg connection = do
    write_buf ← on_net (net_connection_get_write_buffer p connection)
    if_some write_buf
        (λ b. do
          printed ← on_net (ask (λ ev. p.evbuffer_add_printf ev b (message_text msg)))
          send_text connection printed)
        (pure (negsuc 0))

  -- The callbacks, the argument and the timeout that are not NULL.
  unfoldable pub configure :
      ℤ → Option DataCb → Option EventCb → Option CbArg → Option ℕ → NodeM Ev (Unit {0})
  configure connection read_cb event_cb cb_arg timeout = do
    if_some timeout (λ t. on_net (net_connection_set_timeouts p connection (some t) (some t)))
        (pure tt)
    if_some read_cb (λ cb. on_net (net_connection_set_read_cb p connection cb) >>= λ rc. pure tt)
        (pure tt)
    if_some event_cb (λ cb. on_net (net_connection_set_event_cb p connection cb) >>= λ rc. pure tt)
        (pure tt)
    if_some cb_arg (λ arg. on_net (net_connection_set_cb_arg p connection arg) >>= λ rc. pure tt)
        (pure tt)

  unfoldable pub connected_send :
      ℤ → NodeMessage → Option DataCb → Option EventCb → Option CbArg → Option ℕ → NodeM Ev ℤ
  connected_send connection msg read_cb event_cb cb_arg timeout = do
    configure connection read_cb event_cb cb_arg timeout
    rc ← node_send_message msg connection
    if is_zero rc then pure connection else pure rc

  unfoldable pub node_connect_and_send_message :
      NodeMessage → Option DataCb → Option EventCb → Option CbArg → Option ℕ → NodeM Ev ℤ
  node_connect_and_send_message msg read_cb event_cb cb_arg timeout = do
    connection ← on_net (net_connection_create p msg.to.ip msg.to.port)
    if is_negative connection
        then pure connection
        else connected_send connection msg read_cb event_cb cb_arg timeout

  module _ (mc : Machine) where
    unfoldable pub add_request_id : ℤ → ℕ → NodeM Ev ℤ
    add_request_id conn id = do
      write_buf ← on_net (net_connection_get_write_buffer p conn)
      if_some write_buf (λ b. add_bytes (some b) (memory_bytes mc.big id_bytes id) >> pure (pos 0))
          (pure (negsuc 0))

    unfoldable pub node_find_successor_remote : NodeInfo → ℕ → NodeFoundCbData → NodeM Ev ℤ
    node_find_successor_remote n id cb_data = do
      s ← the_node
      conn ←
          node_connect_and_send_message (request s.self n msg_t_succ_req id_bytes)
            (some node_found_remote_cb) (some node_remote_find_event) (some (found_arg cb_data))
            s.wait_tm_long
      if is_negative conn then pure conn else add_request_id conn id

    unfoldable pub node_get_predecessor_remote : NodeInfo → FoundCb → NodeM Ev (Unit {0})
    node_get_predecessor_remote n cb = do
      s ← the_node
      new_block
      conn ←
          node_connect_and_send_message (request s.self n msg_t_pred_req 0)
            (some node_found_remote_cb) (some node_remote_find_event)
            (some (found_arg (new_found mc cb))) s.wait_tm_long
      pure tt

    unfoldable pub node_notify_node : NodeInfo → NodeM Ev (Unit {0})
    node_notify_node node = do
      s ← the_node
      conn ←
          node_connect_and_send_message (request s.self node msg_t_notif (id_bytes + 2)) none
            (some node_notify_rep_event) (some self_arg) s.wait_tm_default
      write_buf ← on_net (net_connection_get_write_buffer p conn)
      add_bytes write_buf (memory_bytes mc.big id_bytes s.self.id)
      add_bytes write_buf (memory_bytes mc.big 2 s.self.port)

    -- `malloc(sizeof(nc_arg))` asks for the size of the pointer, not of the struct.
    unfoldable pub node_check_node : NodeInfo → NodeCheckCb → NodeM Ev (Unit {0})
    node_check_node node cb = do
      s ← the_node
      new_block
      write_fields pointer_bytes check_arg_bytes
      conn ←
          node_connect_and_send_message (request s.self node msg_t_alive_req 0)
            (some node_check_node_reply) (some node_check_node_event) (some (check_arg cb))
            s.wait_tm_default
      pure tt
