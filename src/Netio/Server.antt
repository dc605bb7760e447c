-- ===== src/Netio/Server.antt =====
-- The server of src/netio.c: its creation and end, the accept callback, and the callbacks of libevent
-- that call the upper layer's. The upper layer's state is `U`; its callbacks are run by arguments.
use fyp_dht.Prelude.{
  ℕ, zero, suc, Bool, true, false, List, Option, none, some, ℤ, pos, negsuc, if◌then◌else◌,
}
use fyp_dht.Prelude.Outcome.{Run, Outcome, ok, fault, ◌>>=◌, ◌>>◌, pure, get, modify, when, if_some}
use fyp_dht.Platform.{Platform}
use fyp_dht.Callback.{CbArg, DataCb, EventCb}
use fyp_dht.Netio.State.{
  NetConnection, NetServer, net_valid_connection_num, net_empty_connection_slot, write_slot,
  lock_connections, unlock_connections, read_slot, max_open_connections,
}
use fyp_dht.Netio.Conn.{NetM, call, ask, index, net_connection_close}

-- The process: the server and the state of the layer above it.
pub record Host (Ev U : Type 0) : Type 0 where
  pub net : NetServer Ev
  pub upper : U

abbrev pub HostM : Type 0 → Type 0 → Type 0 → Type 0
HostM Ev U A = Run (Host Ev U) A

module _ {Ev U : Type 0} where
  unfoldable pub on_net : {A : Type 0} → NetM Ev A → HostM Ev U A
  on_net m h = elim (m h.net) [ ok (a, n) ↦ ok (a, record h { net = n }) | fault e ↦ fault e ]

-- BEV_EVENT_CONNECTED and the other bits of an event's type.
abbrev pub bev_event_connected : ℕ
bev_event_connected = 0x80

abbrev pub bev_event_timeout : ℕ
bev_event_timeout = 0x40

abbrev pub bev_event_error : ℕ
bev_event_error = 0x20

abbrev pub bev_event_eof : ℕ
bev_event_eof = 0x10

module _ {Ev : Type 0} (p : Platform Ev) where
  -- The table comes from malloc and is not cleared: `connections` is what the block holds.
  unfoldable pub net_server_create :
      List NetConnection → ℕ → EventCb → Option CbArg → Ev → Option (NetServer Ev) × Ev
  net_server_create connections port incoming_connection_cb incoming_cb_arg ev0 =
      let (got, ev1) = p.malloc ev0 in
      let (based, ev2) = p.event_base_new ev1 in
      let (bound, ev3) = p.evconnlistener_new_bind ev2 port in
      let (inited, ev4) = p.mutex_init ev3 in
      if got
      then (if based
          then (if bound
              then (if inited
                  then (
                    some (record {
                      ev = ev4;
                      connections = connections;
                      connections_lock = false;
                      incoming_handler = incoming_connection_cb;
                      incoming_handler_arg = incoming_cb_arg;
                    }),
                    ev4,
                  )
                  else (none, p.event_base_free (p.evconnlistener_free ev4)))
              else (none, p.event_base_free ev3))
          else (none, ev2))
      else (none, ev1)

  unfoldable pub net_server_set_incoming_cb_arg : Option CbArg → NetM Ev (Unit {0})
  net_server_set_incoming_cb_arg arg = modify (λ srv. record srv { incoming_handler_arg = arg })

  -- `for (i = ...; i < MAX_OPEN_CONNECTIONS; ++i)`, with the rounds that are left.
  unfoldable pub close_from : ℕ → ℕ → NetM Ev (Unit {0})
  close_from zero i = pure tt
  close_from (suc left) i = net_connection_close p (pos i) >> close_from left (suc i)

  unfoldable pub net_server_stop : NetM Ev (Unit {0})
  net_server_stop = close_from max_open_connections 0 >> call p.event_base_loopbreak

  -- What is left after the server is freed is the platform's state.
  unfoldable pub net_server_destroy : NetServer Ev → Outcome Ev
  net_server_destroy srv = elim (close_from max_open_connections 0 srv) [
    | ok (u, s) ↦ ok (p.event_base_free (p.evconnlistener_free (p.event_base_loopbreak s.ev)))
    | fault e ↦ fault e
  ]

  -- The part of listen_evt_cb before the handler runs: the new entry with its handle, if there is one.
  unfoldable pub accept_slot : ℕ → ℤ → NetM Ev (Option (ℕ × ℕ))
  accept_slot fd (negsuc n) = unlock_connections >> pure none
  accept_slot fd (pos i) = do
    bev ← ask (λ ev. p.bufferevent_socket_new ev (some fd))
    modify (write_slot i (λ c. record c { bev = bev }))
    unlock_connections
    if_some bev (λ b. pure (some (i, b))) (pure none)

  unfoldable pub attach : ℕ → ℕ → NetM Ev Bool
  attach i b = do
    got ← ask p.malloc
    if got
        then (do
          modify (write_slot i (λ c. record c { net_cb_arg = some i }))
          call (λ ev. p.bufferevent_setcb ev b i)
          pure true)
        else (do
          modify (write_slot i (λ c. record c { net_cb_arg = none }))
          net_connection_close p (pos i)
          pure false)

  unfoldable pub accept_open : ℕ → NetM Ev (Option (ℕ × ℕ))
  accept_open fd = do
    lock_connections
    srv ← get
    accept_slot fd (net_empty_connection_slot srv.connections)

  module _ {U : Type 0} (event_cb : EventCb → ℤ → ℕ → Option CbArg → HostM Ev U (Unit {0})) where
    unfoldable pub accept_run : ℕ → ℕ → Bool → HostM Ev U (Unit {0})
    accept_run i b false = pure tt
    accept_run i b true = do
      h ← get
      event_cb h.net.incoming_handler (pos i) bev_event_connected h.net.incoming_handler_arg
      on_net (call (λ ev. p.bufferevent_enable ev b))

    -- The listener accepted the descriptor `fd`.
    unfoldable pub listen_evt_cb : ℕ → HostM Ev U (Unit {0})
    listen_evt_cb fd = do
      entry ← on_net (accept_open fd)
      if_some entry (λ e. do attached ← on_net (attach e.0 e.1); accept_run e.0 e.1 attached)
          (pure tt)

    unfoldable pub net_connection_event_cb : ℕ → ℤ → HostM Ev U (Unit {0})
    net_connection_event_cb what conn = when (net_valid_connection_num conn) (do
      c ← on_net (read_slot (index conn))
      if_some c.evt_cb (λ cb. event_cb cb conn what c.upper_cb_arg) (pure tt))

  module _ {U : Type 0} (data_cb : DataCb → ℤ → Option CbArg → HostM Ev U (Unit {0})) where
    unfoldable pub net_connection_read_cb : ℤ → HostM Ev U (Unit {0})
    net_connection_read_cb conn = when (net_valid_connection_num conn) (do
      c ← on_net (read_slot (index conn))
      if_some c.read_cb (λ cb. data_cb cb conn c.upper_cb_arg) (pure tt))

    unfoldable pub net_connection_write_cb : ℤ → HostM Ev U (Unit {0})
    net_connection_write_cb conn = when (net_valid_connection_num conn) (do
      c ← on_net (read_slot (index conn))
      if_some c.write_cb (λ cb. data_cb cb conn c.upper_cb_arg) (pure tt))
