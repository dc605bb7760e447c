-- ===== src/Node/State.antt =====
-- node_self of src/node.c, its lock, and reads and writes of its arrays.
use fyp_dht.Prelude.{
  ℕ, suc, Bool, true, false, not, List, [], ◌∷◌, Option, ◌==◌, ltb, if◌then◌else◌, ℤ, pos, negsuc,
  get_elem?, set, length,
}
use fyp_dht.Prelude.Outcome.{
  ok, fault, deadlock, not_locked, out_of_bounds, ◌>>=◌, pure, fail, need, modify,
}
use fyp_dht.Callback.{NodeInfo, NodeMessage, CbArg}
use fyp_dht.Netio.State.{write_slot}
use fyp_dht.Netio.Server.{HostM, on_net}

abbrev pub num_of_succs : ℕ
num_of_succs = 8

abbrev pub id_bits : ℕ
id_bits = 32

abbrev pub id_bytes : ℕ
id_bytes = 4

-- The fields of node_self but for `net`, which stands beside it in `Host`, and the two timeouts that
-- node.c keeps in globals, NULL until node_create makes them. `msg_cb` is the application's function.
pub record NodeSelf : Type 0 where
  pub self : NodeInfo
  pub successor : List NodeInfo
  pub succs_lock : Bool
  pub predecessor : NodeInfo
  pub has_pred : Bool
  pub finger_table : List NodeInfo
  pub msg_cb : ℕ
  pub msg_cb_arg : ℕ
  pub wait_tm_default : Option ℕ
  pub wait_tm_long : Option ℕ

-- What an uninitialised variable or block holds, and the host's byte order. The theorems are about
-- every such value.
pub record Machine : Type 0 where
  pub big : Bool
  pub found_data : NodeInfo
  pub found_hops : ℕ
  pub result_char : ℕ
  pub request_id : ℕ
  pub notifier : NodeInfo
  pub header_message : NodeMessage

-- The loop of node_first_alive_succ from number `i` on.
unfoldable pub first_alive_from : ℕ → List NodeInfo → ℤ
first_alive_from i [] = negsuc 0
first_alive_from i (n ∷ ns) = if not (n.ip == 0) then pos i else first_alive_from (suc i) ns

unfoldable pub node_first_alive_succ : NodeSelf → ℤ
node_first_alive_succ s = first_alive_from 0 s.successor

abbrev pub NodeM : Type 0 → Type 0 → Type 0
NodeM Ev A = HostM Ev NodeSelf A

module _ {Ev : Type 0} where
  unfoldable pub the_node : NodeM Ev NodeSelf
  the_node h = ok (h.upper, h)

  -- The block of a callback's argument is freed, and the entry of the connection keeps its address.
  unfoldable pub leave_freed : ℤ → (Option CbArg → Option CbArg) → NodeM Ev (Unit {0})
  leave_freed (pos i) forget =
      on_net (modify (write_slot i (λ c. record c { upper_cb_arg = forget c.upper_cb_arg })))
  leave_freed (negsuc n) forget = pure tt

  unfoldable pub change : (NodeSelf → NodeSelf) → NodeM Ev (Unit {0})
  change f h = ok (tt, record h { upper = f h.upper })

  unfoldable pub lock_succs : NodeM Ev (Unit {0})
  lock_succs h =
      if h.upper.succs_lock
      then fault deadlock
      else ok (tt, record h { upper = record (h.upper) { succs_lock = true } })

  unfoldable pub unlock_succs : NodeM Ev (Unit {0})
  unlock_succs h =
      if h.upper.succs_lock
      then ok (tt, record h { upper = record (h.upper) { succs_lock = false } })
      else fault not_locked

  -- `self->successor[n]`.
  unfoldable pub read_succ : ℤ → NodeM Ev NodeInfo
  read_succ (negsuc n) = fail out_of_bounds
  read_succ (pos i) = do s ← the_node; need (get_elem? s.successor i) out_of_bounds

  unfoldable pub write_succ : ℕ → NodeInfo → NodeM Ev (Unit {0})
  write_succ i n = do
    s ← the_node
    if ltb i (length s.successor)
        then change (λ s. record s { successor = set s.successor i n })
        else fail out_of_bounds

  unfoldable pub read_finger : ℕ → NodeM Ev NodeInfo
  read_finger i = do s ← the_node; need (get_elem? s.finger_table i) out_of_bounds

  unfoldable pub write_finger : ℕ → NodeInfo → NodeM Ev (Unit {0})
  write_finger i n = do
    s ← the_node
    if ltb i (length s.finger_table)
        then change (λ s. record s { finger_table = set s.finger_table i n })
        else fail out_of_bounds
