-- ===== src/NetWrapper/Connects.antt =====
-- netw_net_server_create and netw_net_connection_create of src/net_wrapper.c.
use fyp_dht.Prelude.{
  ℕ, ◌≡◌, ◌⊎◌, ◌++◌, inl, inr, refl, ◌∙◌, Option, Bool-cases, is_negative, true, false, List, [],
  ◌∷◌, none, some, ℤ, pos, negsuc, length,
}
use fyp_dht.Prelude.Outcome.{ok, fault, null_pointer, ◌>>=◌, need, pure, modify}
use fyp_dht.Prelude.Returns.{Total-ok}
use fyp_dht.Platform.{Platform, output}
use fyp_dht.Callback.{CbArg, EventCb}
use fyp_dht.Wire.Header.{hex_digits}
use fyp_dht.Netio.State.{
  net_valid_connection_num, NetConnection, NetServer, with_ev, max_open_connections,
}
use fyp_dht.Netio.Conn.{ask, net_connection_create, net_connection_get_write_buffer}
use fyp_dht.Netio.Server.{Host, on_net, net_server_create, net_server_set_incoming_cb_arg}
use fyp_dht.Netio.Hosts.{on_net-ok}
use fyp_dht.Netio.Valid.{IsValid, Owned}
use fyp_dht.Netio.Live.{IsOpen, write_buffer-open, net_connection_create-Connected}
use fyp_dht.NetWrapper.{
  NetwHandler, Netw, netw, lock_handlers, unlock_handlers, no_handler, handler_index, trimmed,
  netw_net_connection_create, netw_net_server_create,
}

-- The test does not look at the lock.
pub same_handlers :
    (handler_id : ℤ) (w : Netw)
    → no_handler handler_id (record w { handlers_lock = true }) ≡ no_handler handler_id w
same_handlers (pos n) w = refl
same_handlers (negsuc n) w = refl

module _ {Ev : Type 0} (p : Platform Ev) where
  no_write_buffer :
      (conn : ℤ) (srv : NetServer Ev)
      → is_negative conn ≡ true
      → net_connection_get_write_buffer p conn srv ≡ ok (none, srv)
  unfolding net_connection_get_write_buffer net_valid_connection_num pure
  no_write_buffer (pos i) srv e = cc
  no_write_buffer (negsuc n) srv e = refl

  module _ (fresh : ℕ → List NetwHandler) where
    -- The line that tells the peer the handler.
    abbrev pub handler_line : ℤ → List ℕ
    handler_line handler_id = trimmed (hex_digits 8 (handler_index handler_id)) ++ (10 ∷ [])

    -- With the lock free and a well-formed server: for a number above that of the handlers nothing is
    -- done and the result is -1; for another one, if the connection can be created, its number is returned
    -- and it is open, with the handler's line in its write buffer; and if it cannot, a NULL buffer is
    -- handed to evbuffer_add_printf.
    pub netw_net_connection_create-opens :
        (ip port : ℕ) (handler_id : ℤ) (h : Host Ev Netw)
        → h.upper.handlers_lock ≡ false
        → IsValid h.net
        → ((no_handler handler_id h.upper ≡ true)
            × (netw_net_connection_create p fresh ip port handler_id h ≡ ok (negsuc 0, h)))
          ⊎ (((no_handler handler_id h.upper ≡ false)
                × ((r : ℤ) × (n : NetServer Ev) × (is_open : IsOpen r n) × (net_connection_create p
                        ip port h.net
                      ≡ ok (r, n))
                    × (netw_net_connection_create p fresh ip port handler_id h
                        ≡ ok (
                          r,
                          record h {
                            net =
                                with_ev n
                                  (p.evbuffer_add_printf n.ev
                                    (output is_open.handle)
                                    (handler_line handler_id)).1;
                          },
                        ))))
              ⊎ ((no_handler handler_id h.upper ≡ false)
                  × ((r : ℤ) × (n : NetServer Ev) × (is_negative r ≡ true)
                      × (net_connection_create p ip port h.net ≡ ok (r, n))
                      × (netw_net_connection_create p fresh ip port handler_id h
                          ≡ fault null_pointer))))
    unfolding netw_net_connection_create netw lock_handlers unlock_handlers need ◌>>=◌ on_net ask
    netw_net_connection_create-opens ip port handler_id h free v =
        elim (Bool-cases (no_handler handler_id h.upper)) [
          | inl out ↦ inl (out, rw (free, same_handlers handler_id h.upper ∙ out) refl)
          | inr known ↦
              let (r, n, runs, connected) =
                Total-ok (net_connection_create p ip port h.net)
                  ((net_connection_create-Connected p ip port).at h.net v) in
              let unlocked : Host Ev Netw = record h {
                upper = record (h.upper) { handlers_lock = false };
              } in
              let created = on_net-ok (net_connection_create p ip port) unlocked runs in
              let found = same_handlers handler_id h.upper ∙ known in
              elim connected [
                | inl (e, valid) ↦
                    let buffer =
                      on_net-ok (net_connection_get_write_buffer p r) (record unlocked { net = n })
                        (no_write_buffer r n e) in
                    inr (inr (known, (r, n, e, runs, rw (free, found, created, buffer) refl)))
                | inr (e, is_open) ↦
                    let buffer =
                      on_net-ok (net_connection_get_write_buffer p r) (record unlocked { net = n })
                        (write_buffer-open p r n is_open) in
                    inr (inl (known, (r, n, is_open, runs, rw (free, found, created, buffer) refl)))
              ]
        ]

module _ {Ev : Type 0} (p : Platform Ev) where
  made_or_none :
      (cb : EventCb) (arg : Option CbArg) (cs : List NetConnection) (port : ℕ) (ev : Ev)
      → ((ev' : Ev) × ((net_server_create p cs port cb arg ev).0
            ≡ some (record {
              ev = ev';
              connections = cs;
              connections_lock = false;
              incoming_handler = cb;
              incoming_handler_arg = arg;
            })))
        ⊎ ((net_server_create p cs port cb arg ev).0 ≡ none)
  unfolding net_server_create
  made_or_none cb arg cs port ev =
      let ev1 = (p.malloc ev).1 in
      let ev2 = (p.event_base_new ev1).1 in
      let ev3 = (p.evconnlistener_new_bind ev2 port).1 in
      elim (Bool-cases (p.malloc ev).0) [
        | inr e ↦ inr (rw e refl)
        | inl got ↦ elim (Bool-cases (p.event_base_new ev1).0) [
          | inr e ↦ inr (rw (got, e) refl)
          | inl based ↦ elim (Bool-cases (p.evconnlistener_new_bind ev2 port).0) [
            | inr e ↦ inr (rw (got, based, e) refl)
            | inl bound ↦ elim (Bool-cases (p.mutex_init ev3).0) [
              | inr e ↦ inr (rw (got, based, bound, e) refl)
              | inl inited ↦ inl ((p.mutex_init ev3).1, rw (got, based, bound, inited) refl)
            ]
          ]
        ]
      ]

module _ {Ev : Type 0} (p : Platform Ev) (fresh : ℕ → List NetwHandler) where
  -- If the block of the server holds a table of 256 entries in which an entry has its context exactly while
  -- it has a bufferevent: either a server is made, well formed, which calls netw_incomming_cb with itself
  -- for a connection that it accepts, or none can be made, and NULL is followed.
  pub netw_net_server_create-IsValid :
      (netw_incomming : EventCb) (srv_arg : CbArg) (cs : List NetConnection) (port : ℕ) (ev : Ev)
      → length cs ≡ max_open_connections
      → Owned cs
      → ((srv : NetServer Ev) × (netw_net_server_create p fresh netw_incomming srv_arg cs port ev
            ≡ ok srv)
          × IsValid srv
          × (srv.incoming_handler ≡ netw_incomming)
          × (srv.incoming_handler_arg ≡ some srv_arg))
        ⊎ (((net_server_create p cs port netw_incomming none ev).0 ≡ none)
            × (netw_net_server_create p fresh netw_incomming srv_arg cs port ev
                ≡ fault null_pointer))
  unfolding netw_net_server_create modify net_server_set_incoming_cb_arg
  netw_net_server_create-IsValid netw_incomming srv_arg cs port ev size owned =
      elim (made_or_none p netw_incomming none cs port ev) [
        | inl (ev', e) ↦ inl (
          record {
            ev = ev';
            connections = cs;
            connections_lock = false;
            incoming_handler = netw_incomming;
            incoming_handler_arg = some srv_arg;
          },
          rw (netw_net_server_create, e) refl,
          record { size = size; unlocked = refl; owned = owned },
          refl,
          refl,
        )
        | inr e ↦ inr (e, rw (netw_net_server_create, e) refl)
      ]
