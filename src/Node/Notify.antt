-- ===== src/Node/Notify.antt =====
-- The notification that a node of src/node.c sends to its successor, and what the successor makes of it.
use fyp_dht.Prelude.{
  ℕ, ◌+◌, ◌^◌, ◌≡◌, ◌≢◌, ◌<◌, refl, ap, sym, subst, ◌∙◌, false, arith, List, ◌++◌, some, ℤ, ltb,
  ◌==◌,
}
use fyp_dht.Prelude.Outcome.{ok, ◌>>=◌, >>=-ok, need, pure, if_some, get, when}
use fyp_dht.Platform.{Platform, Evbuffer, input}
use fyp_dht.Callback.{NodeInfo, NodeMessage}
use fyp_dht.Wire.Memory.{memory_bytes}
use fyp_dht.Netio.State.{NetServer, with_ev}
use fyp_dht.Netio.Conn.{
  net_connection_get_read_buffer, net_connection_get_remote_address, net_connection_close,
}
use fyp_dht.Netio.Server.{Host, on_net}
use fyp_dht.Netio.Hosts.{on_net-ok}
use fyp_dht.Netio.Valid.{IsValid}
use fyp_dht.Netio.Closes.{ClosedOnly, net_connection_close-ClosedOnly}
use fyp_dht.Netio.Live.{IsOpen, moved_on, with_ev-IsValid, bev_of-IsOpen, read_buffer-open}
use fyp_dht.Node.State.{NodeSelf, Machine, id_bytes, change}
use fyp_dht.Node.Send.{message_text, request, msg_t_notif}
use fyp_dht.Node.Found.{App, read_var}
use fyp_dht.Node.Maintain.{node_notified}
use fyp_dht.Node.Incoming.{
  node_parse_message_header, incoming_read, handle_message, handle_body, notif_request,
  read_notifier,
}
use fyp_dht.Node.Replies.{Removes, read_var-memory_bytes}
use fyp_dht.Node.Headers.{header-message_text}
use fyp_dht.Node.Requests.{header-OnlyPlatform, read_var-OnlyPlatform}

module _ {Ev : Type 0} (p : Platform Ev) where
  remote_address-open :
      (conn : ℤ) (srv : NetServer Ev) (is_open : IsOpen conn srv)
      → net_connection_get_remote_address p conn srv ≡ ok (p.getpeername srv.ev is_open.handle, srv)
  unfolding net_connection_get_remote_address get ◌>>=◌
  remote_address-open conn srv is_open = rw (is_open.in_range, bev_of-IsOpen p is_open) refl

module _ {Ev : Type 0} (p : Platform Ev) (app : App Ev) (mc : Machine) where
  notif_body :
      (t : Host Ev NodeSelf) (conn : ℤ) (b : Evbuffer) (msg : NodeMessage)
      → msg.len ≡ 0
      → msg.type ≡ msg_t_notif
      → handle_message p app mc conn b msg t ≡ notif_request p app mc conn t
  unfolding handle_message handle_body get ◌>>=◌
  notif_body t conn b msg none_announced is =
      let come : ltb (p.evbuffer_get_length t.net.ev b) msg.len ≡ false = ground arith in
      rw (come, is) refl

  -- With the id and the port in the buffer: the reads, the update and the close.
  notif_request-updates :
      (t u v : Host Ev NodeSelf) (w : NetServer Ev) (conn : ℤ) (b : Evbuffer) (id ip port : ℕ)
      → on_net (net_connection_get_read_buffer p conn) t ≡ ok (some b, t)
      → on_net (net_connection_get_remote_address p conn) t ≡ ok (ip, t)
      → ip ≢ 0
      → read_var p app mc b id_bytes mc.notifier.id t ≡ ok (some id, u)
      → read_var p app mc b 2 mc.notifier.port u ≡ ok (some port, v)
      → net_connection_close p conn v.net ≡ ok (tt, w)
      → notif_request p app mc conn t
        ≡ ok (
          tt,
          record {
            net = w;
            upper = node_notified v.upper (record { id = id; ip = ip; port = port });
          },
        )
  unfolding notif_request read_notifier need if_some when pure change ◌>>=◌
  notif_request-updates t u v w conn b id ip port buffered address up reads reads' closes =
      let set_up : (ip == 0) ≡ false = ground arith in
      let notified : Host Ev NodeSelf = record v {
        upper = node_notified v.upper (record { id = id; ip = ip; port = port });
      } in
      let closed = on_net-ok (net_connection_close p conn) notified closes in
      rw (buffered, address, set_up, reads, reads') closed

module _ {Ev : Type 0} (p : Platform Ev) (contents : Ev → Evbuffer → List ℕ)
    (laws : Removes p contents) (app : App Ev) (mc : Machine) where
  -- A notification, as node_notify_node of a node of the same byte order writes it, is in the input buffer of
  -- an open connection, and the address of the peer is not 0: incoming_read_cb returns with no fault, the
  -- node has taken notice of a node with the id and the port that were sent and the peer's address, the
  -- server is well formed, and the entry of the connection and no other is freed.
  pub incoming_read-notified :
      (h : Host Ev NodeSelf) (conn : ℤ) (is_open : IsOpen conn h.net) (from to : NodeInfo)
      (id ip port : ℕ) (more : List ℕ)
      → id < 2 ^ 32
      → port < 2 ^ 16
      → ip ≢ 0
      → ((ev : Ev) → p.getpeername ev is_open.handle ≡ ip)
      → contents h.net.ev (input is_open.handle)
        ≡ message_text (request from to msg_t_notif (id_bytes + 2))
          ++ (memory_bytes mc.big id_bytes id ++ (memory_bytes mc.big 2 port ++ more))
      → (t : Host Ev NodeSelf) × (incoming_read p app mc conn h ≡ ok (tt, t))
        × (t.upper ≡ node_notified h.upper (record { id = id; ip = ip; port = port }))
        × IsValid t.net
        × ClosedOnly p conn h.net t.net
  unfolding incoming_read need if_some pure ◌>>=◌
  incoming_read-notified h conn is_open from to id ip port more small short up peer holds =
      let b = input is_open.handle in
      let (t, runs, left, same) =
        header-message_text p contents laws app mc b h (request from to msg_t_notif (id_bytes + 2))
          _ (omega arith) (omega arith) holds in
      let (u, reads, left', same') =
        read_var-memory_bytes p contents laws app mc b t id_bytes id mc.notifier.id _ small left in
      let (v, reads', left'', same'') =
        read_var-memory_bytes p contents laws app mc b u 2 port mc.notifier.port more short left' in
      let one = header-OnlyPlatform h p app mc b runs in
      let two = read_var-OnlyPlatform h p app mc b t id_bytes mc.notifier.id one reads in
      let three = read_var-OnlyPlatform h p app mc b u 2 mc.notifier.port two reads' in
      let now = moved_on h.net t.net.ev is_open in
      let again : net_connection_get_read_buffer p conn t.net ≡ ok (some b, t.net) =
        subst (λ n. net_connection_get_read_buffer p conn n ≡ ok (some b, n)) one
          (read_buffer-open p conn (with_ev h.net t.net.ev) now) in
      let address : net_connection_get_remote_address p conn t.net ≡ ok (ip, t.net) =
        subst (λ n. net_connection_get_remote_address p conn n ≡ ok (ip, n)) one
          (remote_address-open p conn (with_ev h.net t.net.ev) now
            ∙ ap (λ a. ok (a, with_ev h.net t.net.ev)) (peer t.net.ev)) in
      let valid : IsValid v.net =
        subst IsValid three (with_ev-IsValid h.net v.net.ev is_open.valid) in
      let (w, closes, valid', only) = net_connection_close-ClosedOnly p v.net conn valid in
      (
        record {
          net = w;
          upper = node_notified v.upper (record { id = id; ip = ip; port = port });
        },
        >>=-ok (on_net (net_connection_get_read_buffer p conn)) _ h (
              on_net-ok (net_connection_get_read_buffer p conn) h
                (read_buffer-open p conn h.net is_open))
            ∙ >>=-ok (node_parse_message_header p app mc b) _ h runs
            ∙ notif_body p app mc t conn b _ refl refl
            ∙ notif_request-updates p app mc t u v w conn b id ip port
                (on_net-ok (net_connection_get_read_buffer p conn) t again)
                (on_net-ok (net_connection_get_remote_address p conn) t address) up reads reads'
                closes,
        ap (λ s. node_notified s (record { id = id; ip = ip; port = port }))
            (same'' ∙ same' ∙ same),
        valid',
        subst (λ s. ClosedOnly p conn s w) (sym three) only,
      )
