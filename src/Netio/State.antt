-- ===== src/Netio/State.antt =====
-- The structs of src/netio.c, its helpers, and reads and writes of the table.
use fyp_dht.Prelude.{
  ℕ, zero, suc, Bool, true, false, not, List, [], ◌∷◌, Option, none, some, leb, is_some,
  if◌then◌else◌, ℤ, pos, negsuc, get_elem?,
}
use fyp_dht.Prelude.Outcome.{Run, ok, fault, deadlock, not_locked, out_of_bounds}
use fyp_dht.Platform.{SockaddrIn}
use fyp_dht.Callback.{CbArg, DataCb, EventCb}

abbrev pub max_open_connections : ℕ
max_open_connections = 256

-- `bev` is the handle, none for NULL. `net_cb_arg` is the number in the net_conn_cb_arg that it points
-- to; the struct's other field is the one server.
pub record NetConnection : Type 0 where
  pub bev : Option ℕ
  pub sin : SockaddrIn
  pub read_cb : Option DataCb
  pub write_cb : Option DataCb
  pub evt_cb : Option EventCb
  pub upper_cb_arg : Option CbArg
  pub net_cb_arg : Option ℕ

-- `ev` stands for `base` and `listener_evt`; the lock says whether it is held.
pub record NetServer (Ev : Type 0) : Type 0 where
  pub ev : Ev
  pub connections : List NetConnection
  pub connections_lock : Bool
  pub incoming_handler : EventCb
  pub incoming_handler_arg : Option CbArg

unfoldable pub net_valid_connection_num : ℤ → Bool
net_valid_connection_num (pos i) = not (leb max_open_connections i)
net_valid_connection_num (negsuc n) = false

-- The loop from slot `i` on; the list is what of the table it has not reached.
unfoldable pub empty_slot_from : ℕ → List NetConnection → ℤ
empty_slot_from i [] = negsuc 0
empty_slot_from i (c ∷ cs) = if is_some c.bev then empty_slot_from (suc i) cs else pos i

unfoldable pub net_empty_connection_slot : List NetConnection → ℤ
net_empty_connection_slot connections = empty_slot_from 0 connections

-- A write to fields of one entry.
unfoldable pub alter {ℓ} : {A : Type ℓ} → List A → ℕ → (A → A) → List A
alter [] i f = []
alter (x ∷ xs) zero f = f x ∷ xs
alter (x ∷ xs) (suc i) f = x ∷ alter xs i f

module _ {Ev : Type 0} where
  unfoldable pub write_slot : ℕ → (NetConnection → NetConnection) → NetServer Ev → NetServer Ev
  write_slot i f srv = record srv { connections = alter srv.connections i f }

  abbrev pub with_ev : NetServer Ev → Ev → NetServer Ev
  with_ev srv ev = record srv { ev = ev }

  unfoldable pub lock_connections : Run (NetServer Ev) (Unit {0})
  lock_connections srv =
      if srv.connections_lock
      then fault deadlock
      else ok (tt, record srv { connections_lock = true })

  unfoldable pub unlock_connections : Run (NetServer Ev) (Unit {0})
  unlock_connections srv =
      if srv.connections_lock
      then ok (tt, record srv { connections_lock = false })
      else fault not_locked

  -- The entry at an index that the code has tested.
  unfoldable pub read_slot : ℕ → Run (NetServer Ev) NetConnection
  read_slot i srv = elim (get_elem? srv.connections i) [
    | some c ↦ ok (c, srv)
    | none ↦ fault out_of_bounds
  ]
