-- ===== src/Platform.antt =====
-- What the code calls and does not implement: libevent, the allocator and the sockets. `Ev` is
-- their state, which every call threads; the code's own part is in the other files.
use fyp_dht.Prelude.{ℕ, List, Option, Bool, false}
use fyp_dht.Callback.{TimerCb}

-- The input and the output buffer of the bufferevent with a given handle.
pub data Evbuffer : Type 0 where
  input output : ℕ → Evbuffer

-- A sockaddr_in; the address and the port as numbers, whatever the byte order that they are kept in.
pub record SockaddrIn : Type 0 where
  pub is_inet : Bool
  pub sin_addr : ℕ
  pub sin_port : ℕ

abbrev pub zero_sin : SockaddrIn
zero_sin = record { is_inet = false; sin_addr = 0; sin_port = 0 }

-- A handle is a `struct bufferevent*` that is not NULL. A Bool result says whether the call succeeded.
pub record Platform (Ev : Type 0) : Type 0 where
  pub malloc : Ev → Bool × Ev
  pub mutex_init : Ev → Bool × Ev
  pub event_base_new : Ev → Bool × Ev
  pub event_base_free : Ev → Ev
  pub event_base_loopbreak : Ev → Ev
  pub evconnlistener_new_bind : Ev → ℕ → Bool × Ev
  pub evconnlistener_free : Ev → Ev
  -- The descriptor is none for -1.
  pub bufferevent_socket_new : Ev → Option ℕ → Option ℕ × Ev
  pub bufferevent_free : Ev → ℕ → Ev
  -- The context is the connection's number in its net_conn_cb_arg.
  pub bufferevent_setcb : Ev → ℕ → ℕ → Ev
  pub bufferevent_enable : Ev → ℕ → Ev
  pub bufferevent_set_timeouts : Ev → ℕ → Option ℕ → Option ℕ → Ev
  pub bufferevent_setwatermark : Ev → ℕ → ℕ → Ev
  pub bufferevent_socket_connect : Ev → ℕ → SockaddrIn → Bool × Ev
  -- The address that getpeername leaves for the bufferevent's descriptor.
  pub getpeername : Ev → ℕ → ℕ
  -- none for a negative result.
  pub evbuffer_remove : Ev → Evbuffer → ℕ → Option (List ℕ) × Ev
  pub evbuffer_add : Ev → Evbuffer → List ℕ → Bool × Ev
  -- The text is what printf makes of the format and its arguments.
  pub evbuffer_add_printf : Ev → Evbuffer → List ℕ → Bool × Ev
  pub evbuffer_get_length : Ev → Evbuffer → ℕ
  -- none for NULL, where the buffer holds no whole line.
  pub evbuffer_readln : Ev → Evbuffer → Option (List ℕ) × Ev
  -- The handle of a common timeout, NULL if there is no memory.
  pub event_base_init_common_timeout : Ev → ℕ → Option ℕ × Ev
  pub event_new : Ev → Bool → TimerCb → Option ℕ × Ev
  pub event_add : Ev → ℕ → Option ℕ → Ev
  pub event_active : Ev → ℕ → Ev
  -- What event_base_loop does before a callback that it runs, and before it returns.
  pub event_base_loop : Ev → Ev
