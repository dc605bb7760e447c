-- ===== src/NetWrapper.antt =====
-- src/net_wrapper.c: several handlers behind one server, told apart by a number that the peer sends first.
pub mod Handlers
pub mod Numbers
pub mod Connects
pub mod NodeNet
use fyp_dht.Prelude.{
  ℕ, zero, suc, ◌+◌, ◌*◌, ◌-◌, ◌%◌, ◌^◌, Bool, true, false, not, List, [], ◌∷◌, ◌++◌, Option, none,
  some, ◌==◌, ltb, leb, ◌||◌, if◌then◌else◌, ℤ, pos, negsuc, get_elem?, set, length,
}
use fyp_dht.Prelude.Outcome.{
  Run, Outcome, ok, fault, deadlock, not_locked, out_of_bounds, null_pointer, overflow, ◌>>=◌, ◌>>◌,
  pure, fail, need, get, when, if_some,
}
use fyp_dht.Platform.{Platform}
use fyp_dht.Callback.{CbArg, EventCb, self_arg, incoming_connection}
use fyp_dht.Wire.Header.{hex_digits, is_space, unprefixed}
use fyp_dht.Netio.Conn.{
  ask, net_connection_create, net_connection_get_read_buffer, net_connection_get_write_buffer,
}
use fyp_dht.Netio.State.{NetConnection, NetServer}
use fyp_dht.Netio.Server.{Host, HostM, on_net, net_server_create, net_server_set_incoming_cb_arg}

pub record NetwHandler : Type 0 where
  pub incoming_connection_cb : Option EventCb
  pub incoming_cb_arg : Option CbArg

-- The file's globals; the lock says whether it is held, and `handlers` is none for NULL.
pub record Netw : Type 0 where
  pub handlers_lock : Bool
  pub netw_num_handlers : ℕ
  pub netw_max_handlers : ℕ
  pub handlers : Option (List NetwHandler)

abbrev pub init_max_handlers : ℕ
init_max_handlers = 8

-- An int from the low 32 bits of a number.
abbrev pub to_int : ℕ → ℤ
to_int n = if ltb (n % 2 ^ 32) (2 ^ 31) then pos (n % 2 ^ 32) else negsuc (2 ^ 32 - 1 - n % 2 ^ 32)

-- The value of strtol with base 16, clamped to a 64-bit long, then as an int.
unfoldable pub clamped : Bool → ℕ → ℤ
clamped false n = to_int (if ltb n (2 ^ 63) then n else 2 ^ 63 - 1)
clamped true n = to_int (2 ^ 64 - (if leb n (2 ^ 63) then n else 2 ^ 63))

unfoldable pub with_sign : List ℕ → ℤ
with_sign [] = pos 0
with_sign (c ∷ cs) =
    if c == b'-'
    then clamped true (unprefixed cs)
    else if c == b'+'
    then clamped false (unprefixed cs)
    else clamped false (unprefixed (c ∷ cs))

unfoldable pub strtol16 : List ℕ → ℤ
strtol16 [] = pos 0
strtol16 (c ∷ cs) = if is_space c then strtol16 cs else with_sign (c ∷ cs)

-- printf's `%X`: no leading zeros, and at least one digit.
unfoldable pub trimmed : List ℕ → List ℕ
trimmed [] = b'0' ∷ []
trimmed (c ∷ cs) = if c == b'0' then trimmed cs else c ∷ cs

abbrev pub NetwM : Type 0 → Type 0 → Type 0
NetwM Ev A = HostM Ev Netw A

-- `handler_id < 0 || handler_id > netw_num_handlers`.
abbrev pub no_handler : ℤ → Netw → Bool
no_handler (pos n) w = ltb w.netw_num_handlers n
no_handler (negsuc n) w = true

abbrev pub handler_index : ℤ → ℕ
handler_index (pos n) = n
handler_index (negsuc n) = 0

module _ {Ev : Type 0} where
  unfoldable pub netw : NetwM Ev Netw
  netw h = ok (h.upper, h)

  unfoldable pub set_netw : (Netw → Netw) → NetwM Ev (Unit {0})
  set_netw f h = ok (tt, record h { upper = f h.upper })

  unfoldable pub lock_handlers : NetwM Ev (Unit {0})
  lock_handlers h =
      if h.upper.handlers_lock
      then fault deadlock
      else ok (tt, record h { upper = record (h.upper) { handlers_lock = true } })

  unfoldable pub unlock_handlers : NetwM Ev (Unit {0})
  unlock_handlers h =
      if h.upper.handlers_lock
      then ok (tt, record h { upper = record (h.upper) { handlers_lock = false } })
      else fault not_locked

  -- `handlers[i]`, read and written.
  unfoldable pub read_handler : ℕ → NetwM Ev NetwHandler
  read_handler i = do
    w ← netw
    hs ← need w.handlers null_pointer
    need (get_elem? hs i) out_of_bounds

  unfoldable pub write_handler : ℕ → (NetwHandler → NetwHandler) → NetwM Ev (Unit {0})
  write_handler i f = do
    w ← netw
    hs ← need w.handlers null_pointer
    x ← need (get_elem? hs i) out_of_bounds
    set_netw (λ w. record w { handlers = some (set hs i (f x)) })

  -- The two setters of a handler's fields.
  unfoldable pub handler_set : ℤ → (NetwHandler → NetwHandler) → NetwM Ev ℤ
  handler_set handler_id f = do
    lock_handlers
    w ← netw
    if no_handler handler_id w
        then unlock_handlers >> pure (negsuc 0)
        else (do write_handler (handler_index handler_id) f; unlock_handlers; pure (pos 0))

  unfoldable pub netw_handler_set_cb : ℤ → EventCb → NetwM Ev ℤ
  netw_handler_set_cb handler_id incoming_connection_cb =
      handler_set handler_id
        (λ h. record h { incoming_connection_cb = some incoming_connection_cb })

  unfoldable pub netw_handler_set_cb_arg : ℤ → CbArg → NetwM Ev ℤ
  netw_handler_set_cb_arg handler_id incoming_cb_arg =
      handler_set handler_id (λ h. record h { incoming_cb_arg = some incoming_cb_arg })

-- `fresh n` is what a block from malloc for n handlers holds.
module _ {Ev : Type 0} (p : Platform Ev) (fresh : ℕ → List NetwHandler) where
  unfoldable pub netw_init : Netw → Ev → (ℤ × Netw) × Ev
  netw_init w ev =
      let (got, ev') = p.malloc ev in
      (
        (
          if got then pos 0 else negsuc 0,
          record w {
            handlers_lock = false;
            handlers = if got then some (fresh w.netw_max_handlers) else none;
          },
        ),
        ev',
      )

  -- `netw_incomming` and `srv_arg` are the names of netw_incomming_cb and of the server as its argument. A
  -- server that could not be made is written to all the same.
  unfoldable pub netw_net_server_create :
      EventCb → CbArg → List NetConnection → ℕ → Ev → Outcome (NetServer Ev)
  netw_net_server_create netw_incomming srv_arg connections port ev =
      elim ((net_server_create p connections port netw_incomming none ev).0) [
        | some srv ↦ elim (net_server_set_incoming_cb_arg p (some srv_arg) srv) [
          | ok (u, srv') ↦ ok srv'
          | fault e ↦ fault e
        ]
        | none ↦ fault null_pointer
      ]

  -- What is left after the table is freed and the mutex is destroyed is the server.
  unfoldable pub netw_destroy : Host Ev Netw → Outcome (NetServer Ev)
  netw_destroy h = elim ((lock_handlers >> unlock_handlers) h) [
    | ok (u, t) ↦ ok t.net
    | fault e ↦ fault e
  ]

  -- `memcpy(handlers, tmp_hand, ...)` copies from the new block to the old one, which is then freed.
  unfoldable pub grow : NetwM Ev (Unit {0})
  grow = do
    w ← netw
    got ← on_net (ask p.malloc)
    when (not got) (fail null_pointer)
    old ← need w.handlers null_pointer
    when (leb (2 ^ 31) (w.netw_max_handlers * 2)) (fail overflow)
    set_netw (λ w. record w {
      netw_max_handlers = w.netw_max_handlers * 2;
      handlers = some (fresh (w.netw_max_handlers * 2));
    })

  unfoldable pub netw_register_handler : EventCb → Option CbArg → NetwM Ev ℤ
  netw_register_handler incoming_connection_cb incoming_cb_arg = do
    lock_handlers
    w ← netw
    when (w.netw_num_handlers == w.netw_max_handlers) grow
    set_netw (λ w. record w { netw_num_handlers = w.netw_num_handlers + 1 })
    write_handler (w.netw_num_handlers + 1) (λ h. record {
      incoming_connection_cb = some incoming_connection_cb;
      incoming_cb_arg = incoming_cb_arg;
    })
    unlock_handlers
    pure (pos w.netw_num_handlers)

  -- What node_create of src/node.c does for its server in a build with USE_NETW. The results of netw_init
  -- and of netw_register_handler are not looked at.
  unfoldable pub netw_node_net :
      EventCb → CbArg → Netw → List NetConnection → ℕ → Ev → Outcome (ℤ × Host Ev Netw)
  netw_node_net netw_incomming srv_arg w connections listen_port ev =
      let ((rc, w'), ev') = netw_init w ev in
      elim (netw_net_server_create netw_incomming srv_arg connections listen_port ev') [
        | ok srv ↦
            netw_register_handler incoming_connection (some self_arg)
              (record { net = srv; upper = w' })
        | fault e ↦ fault e
      ]

  unfoldable pub netw_net_connection_create : ℕ → ℕ → ℤ → NetwM Ev ℤ
  netw_net_connection_create ip port handler_id = do
    lock_handlers
    w ← netw
    if no_handler handler_id w then unlock_handlers >> pure (negsuc 0) else (do
      unlock_handlers
      conn ← on_net (net_connection_create p ip port)
      wbuf ← on_net (net_connection_get_write_buffer p conn)
      b ← need wbuf null_pointer
      printed ← on_net (
          ask (λ ev.
            p.evbuffer_add_printf ev b
              (trimmed (hex_digits 8 (handler_index handler_id)) ++ (10 ∷ []))))
      pure conn)

  -- `run` is the call of a handler's callback.
  unfoldable pub netw_incomming_cb :
      (EventCb → ℤ → ℕ → Option CbArg → NetwM Ev (Unit {0})) → ℤ → ℕ → NetwM Ev (Unit {0})
  netw_incomming_cb run connection what = do
    read_buf ← on_net (net_connection_get_read_buffer p connection)
    buffer ← need read_buf null_pointer
    line ← on_net (ask (λ ev. p.evbuffer_readln ev buffer))
    token ← need line null_pointer
    lock_handlers
    w ← netw
    if no_handler (strtol16 token) w then unlock_handlers else (do
      lock_handlers
      h ← read_handler (handler_index (strtol16 token))
      cb ← need h.incoming_connection_cb null_pointer
      run cb connection what h.incoming_cb_arg)
