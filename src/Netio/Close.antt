-- ===== src/Netio/Close.antt =====
-- net_connection_close of src/netio.c, and the loop that closes every entry.
use fyp_dht.Prelude.{
  ℕ, zero, suc, ◌+◌, ◌<◌, ◌≡◌, refl, ap, subst, inl, inr, List, Option, none, some, pos, get_elem?,
  arith, Option-cases, ◌∙◌, get_elem?_total,
}
use fyp_dht.Prelude.Outcome.{◌>>=◌, ok, >>-ok}
use fyp_dht.Platform.{Platform}
use fyp_dht.Netio.State.{NetConnection, NetServer, alter, max_open_connections}
use fyp_dht.Netio.Conn.{net_code, call, closed, net_connection_close}
use fyp_dht.Netio.Server.{close_from, net_server_stop}
use fyp_dht.Netio.Slots.{length-alter}
use fyp_dht.Netio.Valid.{IsValid, Owned-alter, alter_at}

module _ {Ev : Type 0} (p : Platform Ev) where
  -- The platform after an entry's bufferevent is freed, if it has one.
  abbrev pub freed : Option ℕ → Ev → Ev
  freed none ev = ev
  freed (some b) ev = p.bufferevent_free ev b

  abbrev pub close_entry : NetServer Ev → ℕ → NetConnection → NetServer Ev
  close_entry srv i c = record srv {
    ev = freed c.bev srv.ev;
    connections = alter srv.connections i closed;
  }

  pub net_connection_close_lem :
      (srv : NetServer Ev) (i : ℕ) (c : NetConnection)
      → i < max_open_connections
      → get_elem? srv.connections i ≡ some c
      → net_connection_close p (pos i) srv ≡ ok (tt, close_entry srv i c)
  unfolding net_code
  net_connection_close_lem srv i c h e = elim (Option-cases c.bev) [
    | inl free ↦ ground arith
    | inr (b, busy) ↦ ground arith
  ]

  pub close_entry-IsValid :
      (srv : NetServer Ev) (i : ℕ) (c : NetConnection) → IsValid srv → IsValid (close_entry srv i c)
  close_entry-IsValid srv i c v = record {
    size = length-alter srv.connections i closed ∙ v.size;
    unlocked = v.unlocked;
    owned = Owned-alter srv.connections i closed (λ x e. refl) v.owned;
  }

abbrev pub FreeBelow : ℕ → List NetConnection → Type 0
FreeBelow i cs = (j : ℕ) → j < i → (c : NetConnection) → get_elem? cs j ≡ some c → c.bev ≡ none

FreeBelow-closed :
    (cs : List NetConnection) (i : ℕ) → FreeBelow i cs → FreeBelow (suc i) (alter cs i closed)
FreeBelow-closed cs i old j h c e = elim (alter_at cs i closed j c e) [
  | inl (x, same, at, is) ↦ ap (λ (y : NetConnection). y.bev) is
  | inr (ne, at) ↦ old j (omega arith) c at
]

module _ {Ev : Type 0} (p : Platform Ev) where
  close_from_step :
      (left i : ℕ) (srv : NetServer Ev) (c : NetConnection)
      → i < max_open_connections
      → get_elem? srv.connections i ≡ some c
      → close_from p (suc left) i srv ≡ close_from p left (suc i) (close_entry p srv i c)
  unfolding close_from ◌>>=◌
  close_from_step left i srv c h e =
      >>-ok (net_connection_close p (pos i)) (close_from p left (suc i)) srv
        (net_connection_close_lem p srv i c h e)

  close_from_lem :
      (left i : ℕ) (srv : NetServer Ev)
      → left + i ≡ max_open_connections
      → IsValid srv
      → FreeBelow i srv.connections
      → (t : NetServer Ev) × (close_from p left i srv ≡ ok (tt, t))
        × IsValid t
        × FreeBelow max_open_connections t.connections
  close_from_lem zero i srv rounds v free = (
    srv,
    unfold close_from ◌>>=◌ in refl,
    v,
    subst (λ n. FreeBelow n srv.connections) (omega arith) free,
  )
  close_from_lem (suc left) i srv rounds v free =
      let (c, at) = get_elem?_total srv.connections i (omega (arith, v.size)) in
      let (t, runs, valid, all) =
        close_from_lem left (suc i) (close_entry p srv i c) (omega arith)
          (close_entry-IsValid p srv i c v) (FreeBelow-closed srv.connections i free) in
      (t, close_from_step left i srv c (omega arith) at ∙ runs, valid, all)

  -- From a well-formed state net_server_stop returns, in a well-formed state with every entry free.
  pub net_server_stop-frees :
      (srv : NetServer Ev)
      → IsValid srv
      → (t : NetServer Ev) × (net_server_stop p srv ≡ ok (tt, t))
        × IsValid t
        × FreeBelow max_open_connections t.connections
  unfolding net_server_stop ◌>>=◌ call
  net_server_stop-frees srv v =
      let (t, runs, valid, all) =
        close_from_lem max_open_connections 0 srv refl v (λ j h. absurd (omega arith)) in
      (
        record t { ev = p.event_base_loopbreak t.ev },
        >>-ok (close_from p max_open_connections 0) (call p.event_base_loopbreak) srv runs,
        record { size = valid.size; unlocked = valid.unlocked; owned = valid.owned },
        all,
      )
