-- ===== src/Node/Incoming.antt =====
-- The requests that a node of src/node.c answers, and how an incoming connection is read.
use mathlib.Core.Option
use fyp_dht.Prelude.{
  ℕ, ◌+◌, Bool, true, false, not, List, [], ◌∷◌, Option, none, some, ◌==◌, ltb, leb, take, length,
  if◌then◌else◌, ℤ, is_some,
}
use fyp_dht.Prelude.Outcome.{
  null_pointer, out_of_bounds, ◌>>=◌, ◌>>◌, pure, fail, need, get, when, if_some,
}
use fyp_dht.Platform.{Platform, Evbuffer}
use fyp_dht.Callback.{
  NodeInfo, NodeMessage, node_successor_found_for_remote, CbArg, self_arg, msg_arg, freed_arg,
  DataCb, incoming_read_cb, incoming_event_cb, incoming_event_msg_cb, handle_succ_request,
  handle_pred_request, handle_alive_request, handle_notif_request, handle_node_message,
}
use fyp_dht.Wire.Memory.{memory_bytes}
use fyp_dht.Wire.Header.{parse_len, len_str_bytes}
use fyp_dht.Netio.Conn.{
  ask, call, net_connection_get_read_buffer, net_connection_get_write_buffer, net_connection_close,
  net_connection_set_read_cb, net_connection_set_event_cb, net_connection_set_cb_arg,
  net_connection_set_timeouts, net_connection_get_bufev, net_connection_get_remote_address,
}
use fyp_dht.Netio.Server.{on_net, bev_event_eof}
use fyp_dht.Node.State.{Machine, NodeM, the_node, change, id_bytes, leave_freed}
use fyp_dht.Node.Send.{
  add_bytes, new_block, msg_t_succ_req, msg_t_pred_req, msg_t_alive_req, msg_t_notif,
  msg_t_node_msg,
}
use fyp_dht.Node.Found.{App, read_var}
use fyp_dht.Node.Find.{node_find_successor}
use fyp_dht.Node.Maintain.{node_notified, has_bits}

-- A pointer to a message that has been freed.
abbrev pub forget_message : Option CbArg → Option CbArg
forget_message (some (msg_arg m)) = some freed_arg
forget_message arg = arg

-- BEV_ERROR of libevent's bufferevent.h, which the incoming event callbacks test, is a result of its
-- filters; the bit of an event that reports an error is BEV_EVENT_ERROR.
abbrev pub bev_error : ℕ
bev_error = 0x02

-- What is before the first 0 of the buffer: the bytes read, with zeros behind them.
abbrev pub c_string : List ℕ → List ℕ
c_string [] = []
c_string (c ∷ cs) = if c == 0 then [] else c ∷ c_string cs

module _ {Ev : Type 0} (p : Platform Ev) (app : App Ev) (mc : Machine) where
  unfoldable pub succ_request : ℤ → NodeM Ev (Unit {0})
  succ_request connection = do
    read_buf ← on_net (net_connection_get_read_buffer p connection)
    buffer ← need read_buf null_pointer
    r_id ← read_var p app mc buffer id_bytes mc.request_id
    when (not (is_some r_id)) (on_net (net_connection_close p connection))
    new_block p
    rc ←
        node_find_successor p app mc (Option.get_or r_id mc.request_id)
          (node_successor_found_for_remote connection)
    pure tt

  unfoldable pub pred_request : ℤ → NodeM Ev (Unit {0})
  pred_request connection = do
    write_buf ← on_net (net_connection_get_write_buffer p connection)
    s ← the_node
    if s.has_pred
        then (do
          add_bytes p write_buf (b'Y' ∷ [])
          add_bytes p write_buf (memory_bytes mc.big id_bytes s.predecessor.id)
          add_bytes p write_buf (memory_bytes mc.big 4 s.predecessor.ip)
          add_bytes p write_buf (memory_bytes mc.big 2 s.predecessor.port))
        else add_bytes p write_buf (b'N' ∷ [])

  -- Calls of evbuffer_add with a string literal, its terminator with it, and a number of bytes.
  unfoldable pub add_literal : Option Evbuffer → List ℕ → ℕ → NodeM Ev (Unit {0})
  add_literal buffer literal n =
      if leb n (length literal) then add_bytes p buffer (take n literal) else fail out_of_bounds

  -- `evbuffer_add(write_buf, "Y\n", 6)`: the literal has three bytes.
  unfoldable pub alive_request : ℤ → NodeM Ev (Unit {0})
  alive_request connection = do
    write_buf ← on_net (net_connection_get_write_buffer p connection)
    add_literal write_buf (b'Y' ∷ 10 ∷ 0 ∷ []) 6

  -- The reads of a notification, each made only if those before it succeeded: whether all did, and
  -- what the variable then holds.
  unfoldable pub read_notifier : Evbuffer → NodeInfo → NodeM Ev (Bool × NodeInfo)
  read_notifier buffer other = if other.ip == 0 then pure (false, other) else (do
    id ← read_var p app mc buffer id_bytes other.id
    if_some id
        (λ id. do
          port ← read_var p app mc buffer 2 other.port
          if_some port (λ port. pure (true, record other { id = id; port = port }))
              (pure (false, record other { id = id })))
        (pure (false, other)))

  -- On an error the connection is closed and the code goes on: the fields that were not read hold
  -- what the stack held.
  unfoldable pub notif_request : ℤ → NodeM Ev (Unit {0})
  notif_request connection = do
    read_buf ← on_net (net_connection_get_read_buffer p connection)
    ip ← on_net (net_connection_get_remote_address p connection)
    buffer ← need read_buf null_pointer
    other ← read_notifier buffer (record (mc.notifier) { ip = ip })
    when (not other.0) (on_net (net_connection_close p connection))
    change (λ s. node_notified s other.1)
    on_net (net_connection_close p connection)

  -- none for a result of -1.
  unfoldable pub node_parse_message_header : Evbuffer → NodeM Ev (Option NodeMessage)
  node_parse_message_header buffer = do
    type ← read_var p app mc buffer 1 mc.header_message.type
    if_some type
        (λ type. do
          buf ← on_net (ask (λ ev. p.evbuffer_remove ev buffer len_str_bytes))
          if_some buf
              (λ buf.
                pure (
                  some
                    (record (mc.header_message) { type = type; len = parse_len (c_string buf) })))
              (pure none))
        (pure none)

  -- The block of the message is freed; an entry that it was taken from keeps the address.
  unfoldable pub node_message : ℤ → NodeMessage → NodeM Ev (Unit {0})
  node_message connection msg = do
    s ← the_node
    app.message_cb s.msg_cb msg connection s.msg_cb_arg
    leave_freed connection forget_message

  unfoldable pub await : ℤ → DataCb → NodeM Ev (Unit {0})
  await connection cb = on_net (net_connection_set_read_cb p connection cb) >>= λ rc. pure tt

  -- The body is still to come: the handler that will get it, by the type.
  unfoldable pub await_body : ℤ → NodeMessage → NodeM Ev (Unit {0})
  await_body connection msg =
      if msg.type == msg_t_succ_req
      then await connection handle_succ_request
      else if msg.type == msg_t_pred_req
      then await connection handle_pred_request
      else if msg.type == msg_t_alive_req
      then await connection handle_alive_request
      else if msg.type == msg_t_notif
      then await connection handle_notif_request
      else if msg.type == msg_t_node_msg
      then (do
        new_block p
        await connection handle_node_message
        rc ← on_net (net_connection_set_event_cb p connection incoming_event_msg_cb)
        rc ← on_net (net_connection_set_cb_arg p connection (msg_arg msg))
        pure tt)
      else pure tt

  -- The body is in the buffer: the handler runs at once.
  unfoldable pub handle_body : ℤ → NodeMessage → NodeM Ev (Unit {0})
  handle_body connection msg =
      if msg.type == msg_t_succ_req
      then succ_request connection
      else if msg.type == msg_t_pred_req
      then pred_request connection
      else if msg.type == msg_t_alive_req
      then alive_request connection
      else if msg.type == msg_t_notif
      then notif_request connection
      else if msg.type == msg_t_node_msg
      then new_block p >> node_message connection msg
      else pure tt

  unfoldable pub handle_message : ℤ → Evbuffer → NodeMessage → NodeM Ev (Unit {0})
  handle_message connection buffer msg = do
    h ← get
    if ltb (p.evbuffer_get_length h.net.ev buffer) msg.len
        then (do
          await_body connection msg
          bufev ← on_net (net_connection_get_bufev p connection)
          b ← need bufev null_pointer
          on_net (call (λ ev. p.bufferevent_setwatermark ev b msg.len)))
        else handle_body connection msg

  -- The block that the code takes from malloc at its start, and never uses, is left out.
  unfoldable pub incoming_read : ℤ → NodeM Ev (Unit {0})
  incoming_read connection = do
    read_buf ← on_net (net_connection_get_read_buffer p connection)
    buffer ← need read_buf null_pointer
    msg ← node_parse_message_header buffer
    if_some msg (handle_message connection buffer) (on_net (net_connection_close p connection))

  unfoldable pub incoming_event : ℤ → ℕ → NodeM Ev (Unit {0})
  incoming_event connection what =
      when (has_bits what (bev_error + bev_event_eof)) (on_net (net_connection_close p connection))

  unfoldable pub incoming : ℤ → NodeM Ev (Unit {0})
  incoming connection = do
    s ← the_node
    rc ← on_net (net_connection_set_read_cb p connection incoming_read_cb)
    rc ← on_net (net_connection_set_event_cb p connection incoming_event_cb)
    rc ← on_net (net_connection_set_cb_arg p connection self_arg)
    on_net (net_connection_set_timeouts p connection s.wait_tm_default s.wait_tm_default)
    bufev ← on_net (net_connection_get_bufev p connection)
    b ← need bufev null_pointer
    on_net (call (λ ev. p.bufferevent_setwatermark ev b (1 + len_str_bytes)))
