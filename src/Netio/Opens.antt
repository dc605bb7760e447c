-- ===== src/Netio/Opens.antt =====
-- What net_connection_create of src/netio.c promises, whatever libevent and the allocator answer.
use fyp_dht.Prelude.{
  ℕ, ◌<◌, ◌≡◌, ◌≢◌, refl, sym, ap, subst, ◌⊎◌, inl, inr, none, some, ℤ, pos, negsuc, get_elem?,
  arith, Option-cases, Bool-cases, ◌∙◌, lt-length,
}
use fyp_dht.Prelude.Outcome.{ok}
use fyp_dht.Platform.{Platform}
use fyp_dht.Netio.State.{
  NetConnection, NetServer, alter, max_open_connections, net_empty_connection_slot,
}
use fyp_dht.Netio.Conn.{closed, net_connection_create}
use fyp_dht.Netio.Slots.{
  BusyBelow, empty_slot-first, get_elem?-alter_self, get_elem?-alter_ne, length-alter,
}
use fyp_dht.Netio.Valid.{IsValid, IsOwned, Owned-alter, context, alter_at}
use fyp_dht.Netio.Create.{opened, create_full, create_no_bev, create_ok, create_no_memory}

module _ {Ev : Type 0} where
  -- A refused call leaves the bufferevents of the table as they were.
  abbrev pub Refused : NetServer Ev → ℤ → NetServer Ev → Type 0
  Refused srv r t =
      (r ≡ negsuc 0)
      × ((j : ℕ) (c : NetConnection)
          → get_elem? t.connections j ≡ some c
          → (x : NetConnection) × (get_elem? srv.connections j ≡ some x) × (c.bev ≡ x.bev))

  -- A call that succeeds takes the first free entry, and changes no other.
  pub record Opened (ip port : ℕ) (srv : NetServer Ev) (r : ℤ) (t : NetServer Ev) : Type 0 where
    pub slot : ℕ
    pub handle : ℕ
    pub before : NetConnection
    pub result : r ≡ pos slot
    pub bound : slot < max_open_connections
    pub at : get_elem? srv.connections slot ≡ some before
    pub free : before.bev ≡ none
    pub first : BusyBelow slot srv.connections
    pub written : get_elem? t.connections slot ≡ some (opened slot handle ip port before)
    pub others : (j : ℕ) → slot ≢ j → get_elem? t.connections j ≡ get_elem? srv.connections j

module _ {Ev : Type 0} (p : Platform Ev) where
  abbrev pub CreateResult : ℕ → ℕ → NetServer Ev → Type 0
  CreateResult ip port srv =
      (r : ℤ) × (t : NetServer Ev) × (net_connection_create p ip port srv ≡ ok (r, t))
      × IsValid t
      × (Refused srv r t ⊎ Opened ip port srv r t)

  module _ (ip port : ℕ) (srv : NetServer Ev) (v : IsValid srv) (i : ℕ) (c : NetConnection)
      (found : net_empty_connection_slot srv.connections ≡ pos i)
      (at : get_elem? srv.connections i ≡ some c) (free : c.bev ≡ none)
      (below : BusyBelow i srv.connections) where
    bound : i < max_open_connections
    bound = omega (arith, lt-length srv.connections i at, v.size)

    -- A write that leaves the entry free is a refusal.
    refused_slot :
        (f : NetConnection → NetConnection) (ev : Ev)
        → ((x : NetConnection) → (f x).bev ≡ none)
        → ((x : NetConnection) → get_elem? srv.connections i ≡ some x → IsOwned i (f x))
        → net_connection_create p ip port srv
          ≡ ok (negsuc 0, record srv { ev = ev; connections = alter srv.connections i f })
        → CreateResult ip port srv
    refused_slot f ev frees owned runs = (
      negsuc 0,
      _,
      runs,
      record {
        size = length-alter srv.connections i f ∙ v.size;
        unlocked = v.unlocked;
        owned = Owned-alter srv.connections i f owned v.owned;
      },
      inl (refl, same),
    )
      where
        same :
            (j : ℕ) (x : NetConnection)
            → get_elem? (alter srv.connections i f) j ≡ some x
            → (y : NetConnection) × (get_elem? srv.connections j ≡ some y) × (x.bev ≡ y.bev)
        same j x e = elim (alter_at srv.connections i f j x e) [
          | inl (y, here, was, is) ↦ (
            c,
            subst (λ k. get_elem? srv.connections k ≡ some c) here at,
            rw (is, frees y) (sym free),
          )
          | inr (ne, was) ↦ (x, was, refl)
        ]

    opened_slot :
        (b : ℕ) (ev : Ev)
        → net_connection_create p ip port srv
          ≡ ok (
            pos i,
            record srv { ev = ev; connections = alter srv.connections i (opened i b ip port) },
          )
        → CreateResult ip port srv
    opened_slot b ev runs = (
      pos i,
      _,
      runs,
      record {
        size = length-alter srv.connections i (opened i b ip port) ∙ v.size;
        unlocked = v.unlocked;
        owned = Owned-alter srv.connections i (opened i b ip port) (λ x e. refl) v.owned;
      },
      inr (record {
        slot = i;
        handle = b;
        before = c;
        result = refl;
        bound = bound;
        at = at;
        free = free;
        first = below;
        written = get_elem?-alter_self srv.connections i (opened i b ip port) at;
        others = λ j ne. get_elem?-alter_ne srv.connections i j (opened i b ip port) ne;
      }),
    )

    with_bev :
        (b : ℕ) (ev1 : Ev)
        → p.bufferevent_socket_new srv.ev none ≡ (some b, ev1)
        → CreateResult ip port srv
    with_bev b ev1 new = elim (Bool-cases (p.malloc ev1).0) [
      | inl got ↦ opened_slot b _ (
          create_ok p ip port srv i v.unlocked found b ev1 (p.malloc ev1).1 new
            (ap (λ g. (g, (p.malloc ev1).1)) got))
      | inr failed ↦
          refused_slot closed _ (λ x. refl) (λ x e. refl)
            (create_no_memory p ip port srv i v.unlocked found c b ev1 (p.malloc ev1).1 bound at new
              (ap (λ g. (g, (p.malloc ev1).1)) failed))
    ]

    in_slot : CreateResult ip port srv
    in_slot =
        let ev1 = (p.bufferevent_socket_new srv.ev none).1 in
        elim (Option-cases (p.bufferevent_socket_new srv.ev none).0) [
          | inl no_bev ↦
              refused_slot (λ x. record x { bev = none }) ev1 (λ x. refl) vacant
                (create_no_bev p ip port srv i v.unlocked found ev1 (ap (λ o. (o, ev1)) no_bev))
          | inr (b, new) ↦ with_bev b ev1 (ap (λ o. (o, ev1)) new)
        ]
      where
        vacant :
            (x : NetConnection)
            → get_elem? srv.connections i ≡ some x
            → IsOwned i (record x { bev = none })
        vacant x e = let empty : x.bev ≡ none = ground arith in v.owned i x e ∙ ap (context i) empty

  -- From a well-formed state net_connection_create returns, in a well-formed state. Either it gives -1
  -- and every entry has the bufferevent that it had, or it gives the number of the first free entry,
  -- which then has the new bufferevent and the address, and every other entry is as it was.
  pub net_connection_create-Opened :
      (ip port : ℕ) (srv : NetServer Ev) → IsValid srv → CreateResult ip port srv
  net_connection_create-Opened ip port srv v = elim (empty_slot-first srv.connections) [
    | inl (full, busy) ↦ (
      negsuc 0,
      srv,
      create_full p ip port srv v.unlocked full,
      v,
      inl (refl, λ j c e. (c, e, refl)),
    )
    | inr (i, found, (c, at, free), below) ↦ in_slot ip port srv v i c found at free below
  ]
