-- ===== src/Node/Checks.antt =====
-- The checks of src/node.c: what a check that failed, or one that was answered, leaves behind.
use fyp_dht.Prelude.{
  ℕ, false, ◌+◌, ◌≡◌, ◌<◌, refl, true, false, arith, some, get_elem?, pos, if◌then◌else◌, set,
  length, Bool-cases, inl, inr,
}
use fyp_dht.Prelude.Outcome.{ok, ◌>>=◌, ◌>>◌, >>-ok}
use fyp_dht.Platform.{Platform}
use fyp_dht.Callback.{null_node, NodeCheckCb, node_check_pred_result, node_check_succ_result}
use fyp_dht.Netio.State.{NetConnection, NetServer, write_slot, max_open_connections}
use fyp_dht.Netio.Conn.{net_connection_close}
use fyp_dht.Netio.Server.{Host, on_net, bev_event_eof, bev_event_error, bev_event_timeout}
use fyp_dht.Netio.Hosts.{on_net-ok}
use fyp_dht.Netio.Close.{close_entry, net_connection_close_lem}
use fyp_dht.Node.State.{NodeSelf, Machine, the_node, change, write_succ, leave_freed}
use fyp_dht.Node.Found.{App}
use fyp_dht.Node.Maintain.{
  check_event, check_result, check_pred_result, check_succ_result, has_bits, no_predecessor,
  forget_check,
}

-- The node that a check is about, forgotten.
abbrev pub forgotten : NodeCheckCb → NodeSelf → NodeSelf
forgotten node_check_pred_result s = no_predecessor s
forgotten (node_check_succ_result sn) s = record s { successor = set s.successor sn null_node }

abbrev pub InList : NodeCheckCb → NodeSelf → Type 0
InList node_check_pred_result s = Unit {0}
InList (node_check_succ_result sn) s = sn < length s.successor

module _ {Ev : Type 0} (p : Platform Ev) (app : App Ev) (mc : Machine) where
  -- The entry keeps the address of the argument, which is freed.
  abbrev pub with_freed : ℕ → NetServer Ev → NetServer Ev
  with_freed i = write_slot i (λ c. record c { upper_cb_arg = forget_check c.upper_cb_arg })

  failed_check :
      (h : Host Ev NodeSelf) (cb : NodeCheckCb)
      → InList cb h.upper
      → check_result {Ev = Ev} cb false h ≡ ok (tt, record h { upper = forgotten cb h.upper })
  unfolding check_result check_pred_result check_succ_result change write_succ the_node ◌>>=◌
  failed_check h node_check_pred_result lt = refl
  failed_check h (node_check_succ_result sn) lt = ground arith

  closing :
      (h : Host Ev NodeSelf) (i : ℕ) (c : NetConnection)
      → i < max_open_connections
      → get_elem? h.net.connections i ≡ some c
      → (on_net (net_connection_close p (pos i)) >> leave_freed (pos i) forget_check) h
        ≡ ok (tt, record { net = with_freed i (close_entry p h.net i c); upper = h.upper })
  unfolding leave_freed on_net ◌>>=◌
  closing h i c lt at =
      >>-ok (on_net (net_connection_close p (pos i))) _ h
        (on_net-ok (net_connection_close p (pos i)) h (net_connection_close_lem p h.net i c lt at))

  -- An event on the connection of a check that says eof, error or timeout closes the connection, whose entry is left with the
  -- address of the freed argument; on an
  -- error or a timeout the predecessor, or the successor with its number, is forgotten, and on an eof
  -- alone the node stays as it is.
  pub check_event-closes :
      (h : Host Ev NodeSelf) (i : ℕ) (c : NetConnection) (what : ℕ) (cb : NodeCheckCb)
      → i < max_open_connections
      → get_elem? h.net.connections i ≡ some c
      → InList cb h.upper
      → has_bits what (bev_event_eof + bev_event_error + bev_event_timeout) ≡ true
      → check_event p app mc (pos i) what cb h
        ≡ ok (
          tt,
          record {
            net = with_freed i (close_entry p h.net i c);
            upper =
                if has_bits what (bev_event_error + bev_event_timeout)
                then forgotten cb h.upper
                else h.upper;
          },
        )
  unfolding check_event ◌>>=◌
  check_event-closes h i c what cb lt at here bits =
      elim (Bool-cases (has_bits what (bev_event_error + bev_event_timeout))) [
        | inl bad ↦
            rw (bits, bad, failed_check h cb here)
              (closing (record h { upper = forgotten cb h.upper }) i c lt at)
        | inr fine ↦ rw (bits, fine) (closing h i c lt at)
      ]
