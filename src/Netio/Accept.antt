-- ===== src/Netio/Accept.antt =====
-- listen_evt_cb of src/netio.c: the new entry has no context until the lock is released again.
use fyp_dht.Prelude.{
  ℕ, ◌<◌, ◌≡◌, ◌≢◌, ◌∙◌, refl, sym, ap, true, false, Option, none, some, pos, negsuc, get_elem?,
  length, arith, inl, inr, lt-length, get_elem?_total, Option-cases, Bool-cases,
}
use fyp_dht.Prelude.Outcome.{◌>>=◌, ◌>>◌, pure}
use fyp_dht.Prelude.Leads.{Leads, Post}
use fyp_dht.Platform.{Platform}
use fyp_dht.Netio.State.{
  NetConnection, NetServer, write_slot, alter, lock_connections, unlock_connections,
  max_open_connections,
}
use fyp_dht.Netio.Conn.{call, ask, closed, net_connection_close}
use fyp_dht.Netio.Server.{accept_slot, accept_open, attach}
use fyp_dht.Netio.Slots.{length-alter, empty_slot-first}
use fyp_dht.Netio.Valid.{IsValid, IsOwned, Owned-alter, alter_at, context}
use fyp_dht.Netio.Close.{freed, net_connection_close_lem}

-- Well formed but for entry `i`, which has the bufferevent `b` and no context yet.
pub record IsPending {Ev : Type 0} (i b : ℕ) (srv : NetServer Ev) : Type 0 where
  pub size : length srv.connections ≡ max_open_connections
  pub unlocked : srv.connections_lock ≡ false
  pub bound : i < max_open_connections
  pub entry : (c : NetConnection) → get_elem? srv.connections i ≡ some c → c.bev ≡ some b
  pub owned :
      (j : ℕ) (c : NetConnection) → i ≢ j → get_elem? srv.connections j ≡ some c → IsOwned j c

abbrev pub Accepted : {Ev : Type 0} → Option (ℕ × ℕ) → NetServer Ev → Type 0
Accepted none srv = IsValid srv
Accepted (some (i, b)) srv = IsPending i b srv

module _ {Ev : Type 0} (p : Platform Ev) where
  -- Whatever write completes or clears the entry makes the table well formed again.
  complete :
      (i b : ℕ) (srv : NetServer Ev) (ev : Ev) (f : NetConnection → NetConnection)
      → IsPending i b srv
      → ((c : NetConnection) → c.bev ≡ some b → IsOwned i (f c))
      → IsValid (record srv { ev = ev; connections = alter srv.connections i f })
  complete i b srv ev f v new = record {
    size = length-alter srv.connections i f ∙ v.size;
    unlocked = v.unlocked;
    owned = λ j c e. elim (alter_at srv.connections i f j c e) [
      | inl (x, same, at, is) ↦ rw (is, ← same) (new x (v.entry x at))
      | inr (ne, at) ↦ v.owned j c ne at
    ];
  }

  -- The context that malloc refused is written down as NULL; the entry stays pending.
  no_context :
      (i b : ℕ) (srv : NetServer Ev) (ev : Ev)
      → IsPending i b srv
      → IsPending i b (record srv {
        ev = ev;
        connections = alter srv.connections i (λ c. record c { net_cb_arg = none });
      })
  no_context i b srv ev v = record {
    size = length-alter srv.connections i _ ∙ v.size;
    unlocked = v.unlocked;
    bound = v.bound;
    entry = λ c e. elim (alter_at srv.connections i _ i c e) [
      | inl (x, same, at, is) ↦ rw is (v.entry x at)
      | inr (ne, at) ↦ absurd (ne refl)
    ];
    owned = λ j c ne e. elim (alter_at srv.connections i _ j c e) [
      | inl (x, same, at, is) ↦ absurd (ne same)
      | inr (_, at) ↦ v.owned j c ne at
    ];
  }

  close_pending :
      (i b : ℕ) (srv : NetServer Ev)
      → IsPending i b srv
      → Post (λ _. IsValid) ((net_connection_close p (pos i) >> pure false) srv)
  unfolding ◌>>=◌
  close_pending i b srv v =
      let (c, at) = get_elem?_total srv.connections i (omega (arith, v.size, v.bound)) in
      rw (net_connection_close_lem p srv i c v.bound at)
        (complete i b srv (freed p c.bev srv.ev) closed v (λ x e. refl))

  pub attach-Leads : (i b : ℕ) → Leads (IsPending i b) (attach p i b) (λ _. IsValid)
  unfolding attach call ask write_slot ◌>>=◌
  attach-Leads i b = record {
    at = λ srv v. elim (Bool-cases (p.malloc srv.ev).0) [
      | inl got ↦ rw got (complete i b srv _ _ v (λ c e. ap (context i) (sym e)))
      | inr failed ↦ rw failed (close_pending i b _ (no_context i b srv _ v))
    ];
  }

  module _ (srv : NetServer Ev) (i : ℕ) (c : NetConnection) (v : IsValid srv)
      (at : get_elem? srv.connections i ≡ some c) (free : c.bev ≡ none) where
    -- The free entry without a bufferevent is as well formed as before; with one it is pending.
    vacant :
        (ev : Ev)
        → IsValid (record srv {
          ev = ev;
          connections = alter srv.connections i (λ x. record x { bev = none });
          connections_lock = false;
        })
    vacant ev = record {
      size = length-alter srv.connections i _ ∙ v.size;
      unlocked = refl;
      owned = Owned-alter srv.connections i _ unowned v.owned;
    }
      where
        unowned :
            (x : NetConnection)
            → get_elem? srv.connections i ≡ some x
            → IsOwned i (record x { bev = none })
        unowned x e =
            let empty : x.bev ≡ none = ground arith in v.owned i x e ∙ ap (context i) empty

    taken :
        (b : ℕ) (ev : Ev)
        → IsPending i b (record srv {
          ev = ev;
          connections = alter srv.connections i (λ x. record x { bev = some b });
          connections_lock = false;
        })
    taken b ev = record {
      size = length-alter srv.connections i _ ∙ v.size;
      unlocked = refl;
      bound = omega (arith, lt-length srv.connections i at, v.size);
      entry = λ x e. elim (alter_at srv.connections i _ i x e) [
        | inl (y, same, _, is) ↦ rw is refl
        | inr (ne, _) ↦ absurd (ne refl)
      ];
      owned = λ j x ne e. elim (alter_at srv.connections i _ j x e) [
        | inl (y, same, _, is) ↦ absurd (ne same)
        | inr (_, was) ↦ v.owned j x was
      ];
    }

    accept_in :
        (fd : ℕ) → Post Accepted (accept_slot p fd (pos i) (record srv { connections_lock = true }))
    unfolding accept_slot unlock_connections call ask write_slot ◌>>=◌
    accept_in fd = elim (Option-cases (p.bufferevent_socket_new srv.ev (some fd)).0) [
      | inl no_bev ↦ rw no_bev (vacant _)
      | inr (b, new) ↦ rw new (taken b _)
    ]

  accept_full :
      (fd : ℕ) (srv : NetServer Ev)
      → IsValid srv
      → Post Accepted (accept_slot p fd (negsuc 0) (record srv { connections_lock = true }))
  unfolding accept_slot unlock_connections ◌>>=◌
  accept_full fd srv v = record { size = v.size; unlocked = refl; owned = v.owned }

  pub accept_open-Leads : (fd : ℕ) → Leads IsValid (accept_open p fd) Accepted
  unfolding accept_open lock_connections ◌>>=◌
  accept_open-Leads fd = record {
    at = λ srv v. elim (empty_slot-first srv.connections) [
      | inl (full, busy) ↦ rw (v.unlocked, full) (accept_full fd srv v)
      | inr (i, found, (c, at, free), below) ↦
          rw (v.unlocked, found) (accept_in srv i c v at free fd)
    ];
  }
