-- ===== src/Netio/Closes.antt =====
-- net_connection_close of src/netio.c for every connection number, the invalid ones included.
use fyp_dht.Prelude.{
  ℕ, ◌<◌, ◌≡◌, ◌≢◌, refl, ap, ◌⊎◌, inl, inr, false, none, some, ltb, ℤ, pos, negsuc, get_elem?,
  get_elem?_total, lt-length, arith, Bool-cases,
}
use fyp_dht.Prelude.Outcome.{ok, ◌>>=◌}
use fyp_dht.Platform.{Platform}
use fyp_dht.Netio.State.{NetConnection, NetServer, max_open_connections, net_valid_connection_num}
use fyp_dht.Netio.Conn.{closed, net_connection_close}
use fyp_dht.Netio.Valid.{IsValid, alter_at}
use fyp_dht.Netio.Close.{close_entry, net_connection_close_lem, close_entry-IsValid}

module _ {Ev : Type 0} (p : Platform Ev) where
  -- The entries after a close: the one with its number has no bufferevent, the others are as they were.
  abbrev pub ClosedOnly : ℤ → NetServer Ev → NetServer Ev → Type 0
  ClosedOnly conn srv t =
      (j : ℕ) (c : NetConnection)
      → get_elem? t.connections j ≡ some c
      → ((conn ≡ pos j) × (c.bev ≡ none))
        ⊎ ((conn ≢ pos j) × (get_elem? srv.connections j ≡ some c))

  out_of_range :
      (srv : NetServer Ev) (conn : ℤ)
      → net_valid_connection_num conn ≡ false
      → net_connection_close p conn srv ≡ ok (tt, srv)
  unfolding net_connection_close ◌>>=◌
  out_of_range srv conn e = rw e refl

  in_range :
      (srv : NetServer Ev) (i : ℕ)
      → IsValid srv
      → i < max_open_connections
      → (t : NetServer Ev) × (net_connection_close p (pos i) srv ≡ ok (tt, t))
        × IsValid t
        × ClosedOnly (pos i) srv t
  in_range srv i v lt =
      let (c, at) = get_elem?_total srv.connections i (omega (arith, v.size)) in
      (
        close_entry p srv i c,
        net_connection_close_lem p srv i c lt at,
        close_entry-IsValid p srv i c v,
        λ j x e. elim (alter_at srv.connections i closed j x e) [
          | inl (y, same, here, is) ↦ inl (ap pos same, ap (λ (z : NetConnection). z.bev) is)
          | inr (ne, here) ↦ inr ((λ same. ne cc), here)
        ],
      )

  -- From a well-formed state net_connection_close returns for every number, in a well-formed state: the
  -- entry of a valid number is free, every other entry is as it was, and so is all for an invalid one.
  pub net_connection_close-ClosedOnly :
      (srv : NetServer Ev) (conn : ℤ)
      → IsValid srv
      → (t : NetServer Ev) × (net_connection_close p conn srv ≡ ok (tt, t))
        × IsValid t
        × ClosedOnly conn srv t
  unfolding net_valid_connection_num
  net_connection_close-ClosedOnly srv (pos i) v = elim (Bool-cases (ltb i max_open_connections)) [
    | inl within ↦ in_range srv i v (ground arith)
    | inr beyond ↦ (
      srv,
      out_of_range srv (pos i) (ground arith),
      v,
      λ j c e. inr ((λ same. ground (arith, lt-length srv.connections j e, v.size)), e),
    )
  ]
  net_connection_close-ClosedOnly srv (negsuc n) v =
      (srv, out_of_range srv (negsuc n) refl, v, λ j c e. inr ((λ same. ground arith), e))
