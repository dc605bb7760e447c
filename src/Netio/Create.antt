-- ===== src/Netio/Create.antt =====
-- net_connection_create of src/netio.c on every branch.
use fyp_dht.Prelude.{ℕ, ◌<◌, ◌≡◌, true, false, List, none, some, pos, negsuc, get_elem?, arith}
use fyp_dht.Prelude.Outcome.{ok}
use fyp_dht.Platform.{Platform}
use fyp_dht.Netio.State.{
  NetConnection, NetServer, alter, max_open_connections, net_empty_connection_slot,
}
use fyp_dht.Netio.Conn.{net_code, closed, net_connection_create}
use fyp_dht.Netio.Slots.{get_elem?-alter_self, alter-alter}

abbrev pub opened : ℕ → ℕ → ℕ → ℕ → NetConnection → NetConnection
opened i b ip port c = record c {
  bev = some b;
  sin = record { is_inet = true; sin_addr = ip; sin_port = port };
  net_cb_arg = some i;
}

abbrev addressed : ℕ → ℕ → NetConnection → NetConnection
addressed ip port c = record c { sin = record { is_inet = true; sin_addr = ip; sin_port = port } }

-- The writes to the new entry, one after the other, on the two branches that have a bufferevent.
opened_writes :
    (cs : List NetConnection) (i b ip port : ℕ)
    → alter
        (alter (alter cs i (λ c. record c { bev = some b })) i (addressed ip port))
        i
        (λ c. record c { net_cb_arg = some i })
      ≡ alter cs i (opened i b ip port)
opened_writes cs i b ip port = rw (alter-alter, alter-alter)

closed_writes :
    (cs : List NetConnection) (i b ip port : ℕ)
    → alter
        (alter
          (alter (alter cs i (λ c. record c { bev = some b })) i (addressed ip port))
          i
          (λ c. record c { net_cb_arg = none }))
        i
        closed
      ≡ alter cs i closed
closed_writes cs i b ip port = rw (alter-alter, alter-alter, alter-alter)

module _ {Ev : Type 0} (p : Platform Ev) where
  -- What the call leaves, branch by branch: the table is full; there is no bufferevent; there is no
  -- memory for the context, and the entry is closed again; the entry is set up.
  pub create_full :
      (ip port : ℕ) (srv : NetServer Ev)
      → srv.connections_lock ≡ false
      → net_empty_connection_slot srv.connections ≡ negsuc 0
      → net_connection_create p ip port srv ≡ ok (negsuc 0, srv)
  unfolding net_code
  create_full ip port srv free full = ground arith

  module _ (ip port : ℕ) (srv : NetServer Ev) (i : ℕ) (unlocked : srv.connections_lock ≡ false)
      (found : net_empty_connection_slot srv.connections ≡ pos i) where
    pub create_no_bev :
        (ev1 : Ev)
        → p.bufferevent_socket_new srv.ev none ≡ (none, ev1)
        → net_connection_create p ip port srv
          ≡ ok (
            negsuc 0,
            record srv {
              ev = ev1;
              connections = alter srv.connections i (λ c. record c { bev = none });
            },
          )
    unfolding net_code
    create_no_bev ev1 new = ground arith

    pub create_ok :
        (b : ℕ) (ev1 ev2 : Ev)
        → p.bufferevent_socket_new srv.ev none ≡ (some b, ev1)
        → p.malloc ev1 ≡ (true, ev2)
        → net_connection_create p ip port srv
          ≡ ok (
            pos i,
            record srv {
              ev = p.bufferevent_setcb ev2 b i;
              connections = alter srv.connections i (opened i b ip port);
            },
          )
    unfolding net_code
    create_ok b ev1 ev2 new got = ground (arith, opened_writes srv.connections i b ip port)

    pub create_no_memory :
        (c : NetConnection) (b : ℕ) (ev1 ev2 : Ev)
        → i < max_open_connections
        → get_elem? srv.connections i ≡ some c
        → p.bufferevent_socket_new srv.ev none ≡ (some b, ev1)
        → p.malloc ev1 ≡ (false, ev2)
        → net_connection_create p ip port srv
          ≡ ok (
            negsuc 0,
            record srv {
              ev = p.bufferevent_free ev2 b;
              connections = alter srv.connections i closed;
            },
          )
    unfolding net_code
    create_no_memory c b ev1 ev2 bound at new got =
        ground (arith, closed_writes srv.connections i b ip port, written)
      where
        written :
            get_elem?
              (alter
                (alter
                  (alter srv.connections i (λ c. record c { bev = some b }))
                  i
                  (addressed ip port))
                i
                (λ c. record c { net_cb_arg = none }))
              i
            ≡ some (record c { bev = some b; sin = (addressed ip port c).sin; net_cb_arg = none })
        written =
            get_elem?-alter_self _ i (λ c. record c { net_cb_arg = none })
              (get_elem?-alter_self _ i (addressed ip port)
                (get_elem?-alter_self srv.connections i (λ c. record c { bev = some b }) at))
