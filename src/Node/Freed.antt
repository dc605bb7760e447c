-- ===== src/Node/Freed.antt =====
-- A callback of src/node.c that closes its connection and frees its argument.
use fyp_dht.Prelude.{ℕ, ◌≡◌, ap, subst, ◌∙◌, inl, inr, Option, some, get_elem?, ℤ, pos, negsuc}
use fyp_dht.Prelude.Outcome.{◌>>=◌, ◌>>◌, >>-ok}
use fyp_dht.Platform.{Platform}
use fyp_dht.Callback.{CbArg}
use fyp_dht.Netio.State.{NetConnection, NetServer, write_slot}
use fyp_dht.Netio.Conn.{net_connection_close}
use fyp_dht.Netio.Keeps.{write_slot-Keeps}
use fyp_dht.Netio.Server.{Host, on_net}
use fyp_dht.Netio.Hosts.{on_net-ok}
use fyp_dht.Netio.Valid.{IsValid, alter_at}
use fyp_dht.Netio.Closes.{ClosedOnly, net_connection_close-ClosedOnly}
use fyp_dht.Node.State.{NodeSelf, NodeM, leave_freed}

module _ {Ev : Type 0} (p : Platform Ev) (forget : Option CbArg → Option CbArg) where
  abbrev forgotten : NetConnection → NetConnection
  forgotten c = record c { upper_cb_arg = forget c.upper_cb_arg }

  still_closed :
      (i : ℕ) (srv t : NetServer Ev)
      → ClosedOnly p (pos i) srv t
      → ClosedOnly p (pos i) srv (write_slot i forgotten t)
  unfolding write_slot
  still_closed i srv t closed j c at = elim (alter_at t.connections i forgotten j c at) [
    | inl (x, same, here, is) ↦
        elim (closed j x (subst (λ k. get_elem? t.connections k ≡ some x) same here)) [
          | inl (own, free) ↦ inl (own, ap (λ (z : NetConnection). z.bev) is ∙ free)
          | inr (other, there) ↦ absurd (other (ap pos same))
        ]
    | inr (ne, here) ↦ closed j c here
  ]

  -- From a well-formed server: whatever comes next starts with the entry of the connection free, the
  -- others as they were, and a server that is well formed.
  pub close-leave_freed :
      (h : Host Ev NodeSelf) (conn : ℤ)
      → IsValid h.net
      → (net : NetServer Ev) × ((m : NodeM Ev (Unit {0}))
          → (on_net (net_connection_close p conn) >> (leave_freed conn forget >> m)) h
            ≡ m (record h { net = net }))
        × IsValid net
        × ClosedOnly p conn h.net net
  unfolding leave_freed on_net write_slot ◌>>=◌
  close-leave_freed h (pos i) v =
      let (t, closes, valid, closed) = net_connection_close-ClosedOnly p h.net (pos i) v in
      (
        write_slot i forgotten t,
        λ m.
            >>-ok (on_net (net_connection_close p (pos i))) (leave_freed (pos i) forget >> m) h
              (on_net-ok (net_connection_close p (pos i)) h closes),
        (write_slot-Keeps i forgotten (λ c o. o)).at t valid,
        still_closed i h.net t closed,
      )
  close-leave_freed h (negsuc n) v =
      let (t, closes, valid, closed) = net_connection_close-ClosedOnly p h.net (negsuc n) v in
      (
        t,
        λ m.
            >>-ok (on_net (net_connection_close p (negsuc n))) (leave_freed (negsuc n) forget >> m)
              h (on_net-ok (net_connection_close p (negsuc n)) h closes),
        valid,
        closed,
      )
