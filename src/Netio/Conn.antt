-- ===== src/Netio/Conn.antt =====
-- The connection operations of src/netio.c. A number that is no index of the table is refused as
-- the code refuses it; a bufferevent that is NULL in an entry that libevent is called with is a fault.
-- The server pointer is never NULL here.
use fyp_dht.Prelude.{ℕ, true, Option, none, some, ℤ, pos, negsuc, if◌then◌else◌}
use fyp_dht.Prelude.Outcome.{
  Run, ok, null_pointer, ◌>>=◌, ◌>>◌, pure, get, modify, need, when, if_some,
}
use fyp_dht.Platform.{Platform, zero_sin, Evbuffer, input, output}
use fyp_dht.Callback.{CbArg, DataCb, EventCb}
use fyp_dht.Netio.State.{
  NetConnection, NetServer, net_valid_connection_num, net_empty_connection_slot, write_slot,
  with_ev, lock_connections, unlock_connections, read_slot,
}

abbrev pub closed : NetConnection → NetConnection
closed c = record c { bev = none; sin = zero_sin; net_cb_arg = none }

abbrev pub index : ℤ → ℕ
index (pos i) = i
index (negsuc n) = 0

abbrev pub NetM : Type 0 → Type 0 → Type 0
NetM Ev A = Run (NetServer Ev) A

-- Calls into the platform, without and with a result.
unfoldable pub call : {Ev : Type 0} → (Ev → Ev) → NetM Ev (Unit {0})
call f srv = ok (tt, with_ev srv (f srv.ev))

unfoldable pub ask : {Ev A : Type 0} → (Ev → A × Ev) → NetM Ev A
ask f srv = let (a, ev') = f srv.ev in ok (a, with_ev srv ev')

module _ {Ev : Type 0} (p : Platform Ev) where
  unfoldable pub free_bev : Option ℕ → NetM Ev (Unit {0})
  free_bev bev = if_some bev (λ b. call (λ ev. p.bufferevent_free ev b)) (pure tt)

  unfoldable pub close_slot : ℕ → NetM Ev (Unit {0})
  close_slot i = do c ← read_slot i; free_bev c.bev; modify (write_slot i closed)

  unfoldable pub net_connection_close : ℤ → NetM Ev (Unit {0})
  net_connection_close conn = when (net_valid_connection_num conn) (close_slot (index conn))

  -- The rest of net_connection_create once slot `i` has the handle `b`.
  unfoldable pub set_up : ℕ → ℕ → ℕ → ℕ → NetM Ev ℤ
  set_up i b ip port = do
    modify (
        write_slot i
          (λ c. record c { sin = record { is_inet = true; sin_addr = ip; sin_port = port } }))
    got ← ask p.malloc
    if got
        then (do
          modify (write_slot i (λ c. record c { net_cb_arg = some i }))
          call (λ ev. p.bufferevent_setcb ev b i)
          unlock_connections
          pure (pos i))
        else (do
          modify (write_slot i (λ c. record c { net_cb_arg = none }))
          net_connection_close (pos i)
          unlock_connections
          pure (negsuc 0))

  unfoldable pub create_in : ℤ → ℕ → ℕ → NetM Ev ℤ
  create_in (negsuc n) ip port = unlock_connections >> pure (negsuc 0)
  create_in (pos i) ip port = do
    bev ← ask (λ ev. p.bufferevent_socket_new ev none)
    modify (write_slot i (λ c. record c { bev = bev }))
    if_some bev (λ b. set_up i b ip port) (unlock_connections >> pure (negsuc 0))

  unfoldable pub net_connection_create : ℕ → ℕ → NetM Ev ℤ
  net_connection_create ip port = do
    lock_connections
    srv ← get
    create_in (net_empty_connection_slot srv.connections) ip port

  -- The setters: 0, or -1 for a number that is no index.
  unfoldable pub set_field : ℤ → (NetConnection → NetConnection) → NetM Ev ℤ
  set_field conn f =
      if net_valid_connection_num conn
      then modify (write_slot (index conn) f) >> pure (pos 0)
      else pure (negsuc 0)

  unfoldable pub net_connection_set_read_cb : ℤ → DataCb → NetM Ev ℤ
  net_connection_set_read_cb conn cb = set_field conn (λ c. record c { read_cb = some cb })

  unfoldable pub net_connection_set_write_cb : ℤ → DataCb → NetM Ev ℤ
  net_connection_set_write_cb conn cb = set_field conn (λ c. record c { write_cb = some cb })

  unfoldable pub net_connection_set_event_cb : ℤ → EventCb → NetM Ev ℤ
  net_connection_set_event_cb conn cb = set_field conn (λ c. record c { evt_cb = some cb })

  unfoldable pub net_connection_set_cb_arg : ℤ → CbArg → NetM Ev ℤ
  net_connection_set_cb_arg conn arg = set_field conn (λ c. record c { upper_cb_arg = some arg })

  unfoldable pub net_connection_get_cb_arg : ℤ → NetM Ev (Option CbArg)
  net_connection_get_cb_arg conn =
      if net_valid_connection_num conn
      then (do c ← read_slot (index conn); pure c.upper_cb_arg)
      else pure none

  -- The handle of an entry, for a call into libevent that follows the pointer.
  unfoldable pub bev_of : ℤ → NetM Ev ℕ
  bev_of conn = do c ← read_slot (index conn); need c.bev null_pointer

  unfoldable pub net_connection_set_timeouts : ℤ → Option ℕ → Option ℕ → NetM Ev (Unit {0})
  net_connection_set_timeouts conn read_tm write_tm =
      when (net_valid_connection_num conn)
        (do b ← bev_of conn; call (λ ev. p.bufferevent_set_timeouts ev b read_tm write_tm))

  unfoldable pub net_connection_activate : ℤ → NetM Ev ℤ
  net_connection_activate conn =
      if net_valid_connection_num conn
      then (do
        c ← read_slot (index conn)
        b ← need c.bev null_pointer
        connected ← ask (λ ev. p.bufferevent_socket_connect ev b c.sin)
        if connected
            then call (λ ev. p.bufferevent_enable ev b) >> pure (pos 0)
            else net_connection_close conn >> pure (negsuc 0))
      else pure (negsuc 0)

  unfoldable pub net_connection_get_bufev : ℤ → NetM Ev (Option ℕ)
  net_connection_get_bufev conn =
      if net_valid_connection_num conn
      then (do c ← read_slot (index conn); pure c.bev)
      else pure none

  unfoldable pub net_connection_get_read_buffer : ℤ → NetM Ev (Option Evbuffer)
  net_connection_get_read_buffer conn =
      if net_valid_connection_num conn
      then (do b ← bev_of conn; pure (some (input b)))
      else pure none

  unfoldable pub net_connection_get_write_buffer : ℤ → NetM Ev (Option Evbuffer)
  net_connection_get_write_buffer conn =
      if net_valid_connection_num conn
      then (do b ← bev_of conn; pure (some (output b)))
      else pure none

  -- The result of getpeername is not tested: its address is returned as it stands.
  unfoldable pub net_connection_get_remote_address : ℤ → NetM Ev ℕ
  net_connection_get_remote_address conn =
      if net_valid_connection_num conn
      then (do b ← bev_of conn; srv ← get; pure (p.getpeername srv.ev b))
      else pure 0

-- To unfold this is to unfold the operations above into what they do to the state.
unfoldable pub net_code : Unit {0}
unfolding call ask free_bev close_slot net_connection_close set_up create_in net_connection_create
    set_field bev_of net_connection_set_timeouts net_connection_activate write_slot read_slot
    lock_connections unlock_connections net_valid_connection_num ◌>>=◌
net_code = tt
