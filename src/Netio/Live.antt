-- ===== src/Netio/Live.antt =====
-- The operations of src/netio.c on a connection that is open: they return, and leave it open.
use fyp_dht.Prelude.{
  ℕ, ◌≡◌, ◌⊎◌, inl, inr, refl, ap, ◌∙◌, Bool, true, false, arith, Option, none, some, ℤ, pos,
  negsuc, get_elem?, is_some, is_negative, if◌then◌else◌,
}
use fyp_dht.Prelude.Outcome.{ok, fault, ◌>>=◌, ◌>>◌, pure, out_of_bounds}
use fyp_dht.Prelude.Returns.{ok-Total, Returns-from, Returns, Stays, Returns-bind}
use fyp_dht.Platform.{Platform, input, output}
use fyp_dht.Callback.{CbArg, DataCb, EventCb}
use fyp_dht.Netio.State.{
  NetConnection, NetServer, with_ev, write_slot, read_slot, net_valid_connection_num,
}
use fyp_dht.Netio.Conn.{
  index, call, ask, set_field, bev_of, net_connection_close, net_connection_create,
  net_connection_set_read_cb, net_connection_set_event_cb, net_connection_set_cb_arg,
  net_connection_set_timeouts, net_connection_activate, net_connection_get_read_buffer,
  net_connection_get_write_buffer,
}
use fyp_dht.Netio.Slots.{get_elem?-alter_self, length-alter}
use fyp_dht.Netio.Valid.{IsValid, IsOwned, Owned-alter}
use fyp_dht.Netio.Closes.{net_connection_close-ClosedOnly}
use fyp_dht.Netio.Create.{opened}
use fyp_dht.Netio.Opens.{Refused, Opened, net_connection_create-Opened}

-- A well-formed server with a bufferevent in the entry of a valid number.
pub record IsOpen {Ev : Type 0} (conn : ℤ) (srv : NetServer Ev) : Type 0 where
  pub valid : IsValid srv
  pub in_range : net_valid_connection_num conn ≡ true
  pub entry : NetConnection
  pub handle : ℕ
  pub at : get_elem? srv.connections (index conn) ≡ some entry
  pub bev : entry.bev ≡ some handle

-- What a function leaves that gives the number of an open connection, or a negative number.
abbrev pub Connected : {Ev : Type 0} → ℤ → NetServer Ev → Type 0
Connected r srv = ((is_negative r ≡ true) × IsValid srv) ⊎ ((is_negative r ≡ false) × IsOpen r srv)

-- What net_connection_activate leaves with its result.
abbrev pub Activated : {Ev : Type 0} → ℤ → ℤ → NetServer Ev → Type 0
Activated conn r s = ((r ≡ pos 0) × IsOpen conn s) ⊎ ((r ≡ negsuc 0) × IsValid s)

module _ {Ev : Type 0} where
  pub with_ev-IsValid :
      (srv : NetServer Ev) (ev : Ev) → IsValid srv → IsValid (record srv { ev = ev })
  with_ev-IsValid srv ev v = record { size = v.size; unlocked = v.unlocked; owned = v.owned }

  pub call-Stays : (f : Ev → Ev) → Stays (IsValid {Ev = Ev}) (call f)
  unfolding call
  call-Stays f = record { at = λ s v. with_ev-IsValid s (f s.ev) v }

  pub ask-Stays : {A : Type 0} (f : Ev → A × Ev) → Stays (IsValid {Ev = Ev}) (ask f)
  unfolding ask
  ask-Stays f = record { at = λ s v. with_ev-IsValid s (f s.ev).1 v }

-- The connection stays open, with the same bufferevent, when only the platform moves on.
abbrev pub moved_on :
    {Ev : Type 0} {conn : ℤ} (srv : NetServer Ev) (ev : Ev)
    → IsOpen conn srv
    → IsOpen conn (with_ev srv ev)
moved_on srv ev v = record {
  valid = with_ev-IsValid srv ev v.valid;
  in_range = v.in_range;
  entry = v.entry;
  handle = v.handle;
  at = v.at;
  bev = v.bev;
}

module _ {Ev : Type 0} (conn : ℤ) where
  pub ask-IsOpen : {A : Type 0} (f : Ev → A × Ev) → Stays (IsOpen {Ev = Ev} conn) (ask f)
  unfolding ask
  ask-IsOpen f = record { at = λ s v. moved_on s (f s.ev).1 v }

  call-IsOpen : (f : Ev → Ev) → Stays (IsOpen {Ev = Ev} conn) (call f)
  unfolding call
  call-IsOpen f = record { at = λ s v. moved_on s (f s.ev) v }

module _ {Ev : Type 0} (p : Platform Ev) {conn : ℤ} {srv : NetServer Ev} (v : IsOpen conn srv) where
  read_slot-IsOpen : read_slot (index conn) srv ≡ ok (v.entry, srv)
  unfolding read_slot
  read_slot-IsOpen = ap (λ x. elim x [ some c ↦ ok (c, srv) | none ↦ fault out_of_bounds ]) v.at

  pub bev_of-IsOpen : bev_of p conn srv ≡ ok (v.handle, srv)
  unfolding bev_of ◌>>=◌
  bev_of-IsOpen = rw (read_slot-IsOpen, v.bev) refl

module _ {Ev : Type 0} (p : Platform Ev) (conn : ℤ) where
  set_field-IsOpen :
      (f : NetConnection → NetConnection)
      → ((i : ℕ) (c : NetConnection) → IsOwned i c → IsOwned i (f c))
      → ((c : NetConnection) → (f c).bev ≡ c.bev)
      → Stays (IsOpen {Ev = Ev} conn) (set_field p conn f)
  unfolding set_field write_slot ◌>>=◌
  set_field-IsOpen f owned same = record {
    at = λ s v. rw v.in_range (record {
      valid = record {
        size = length-alter s.connections (index conn) f ∙ v.valid.size;
        unlocked = v.valid.unlocked;
        owned =
            Owned-alter s.connections (index conn) f
              (λ c e. owned (index conn) c (v.valid.owned (index conn) c e)) v.valid.owned;
      };
      in_range = v.in_range;
      entry = f v.entry;
      handle = v.handle;
      at = get_elem?-alter_self s.connections (index conn) f v.at;
      bev = same v.entry ∙ v.bev;
    });
  }

  pub net_connection_set_read_cb-IsOpen :
      (cb : DataCb) → Stays (IsOpen {Ev = Ev} conn) (net_connection_set_read_cb p conn cb)
  unfolding net_connection_set_read_cb
  net_connection_set_read_cb-IsOpen cb = set_field-IsOpen _ (λ i c o. o) (λ c. refl)

  pub net_connection_set_event_cb-IsOpen :
      (cb : EventCb) → Stays (IsOpen {Ev = Ev} conn) (net_connection_set_event_cb p conn cb)
  unfolding net_connection_set_event_cb
  net_connection_set_event_cb-IsOpen cb = set_field-IsOpen _ (λ i c o. o) (λ c. refl)

  pub net_connection_set_cb_arg-IsOpen :
      (arg : CbArg) → Stays (IsOpen {Ev = Ev} conn) (net_connection_set_cb_arg p conn arg)
  unfolding net_connection_set_cb_arg
  net_connection_set_cb_arg-IsOpen arg = set_field-IsOpen _ (λ i c o. o) (λ c. refl)

  pub net_connection_set_timeouts-IsOpen :
      (r w : Option ℕ) → Stays (IsOpen {Ev = Ev} conn) (net_connection_set_timeouts p conn r w)
  unfolding net_connection_set_timeouts call ◌>>=◌
  net_connection_set_timeouts-IsOpen r w = record {
    at = λ s v. rw (v.in_range, bev_of-IsOpen p v) (moved_on s _ v);
  }

  pub read_buffer-open :
      (srv : NetServer Ev) (is_open : IsOpen conn srv)
      → net_connection_get_read_buffer p conn srv ≡ ok (some (input is_open.handle), srv)
  unfolding net_connection_get_read_buffer ◌>>=◌
  read_buffer-open srv is_open = rw (is_open.in_range, bev_of-IsOpen p is_open) refl

  pub write_buffer-open :
      (srv : NetServer Ev) (is_open : IsOpen conn srv)
      → net_connection_get_write_buffer p conn srv ≡ ok (some (output is_open.handle), srv)
  unfolding net_connection_get_write_buffer ◌>>=◌
  write_buffer-open srv is_open = rw (is_open.in_range, bev_of-IsOpen p is_open) refl

  pub net_connection_get_write_buffer-IsOpen :
      Returns
        (IsOpen {Ev = Ev} conn)
        (net_connection_get_write_buffer p conn)
        (λ o s. (is_some o ≡ true) × IsOpen conn s)
  unfolding net_connection_get_write_buffer ◌>>=◌
  net_connection_get_write_buffer-IsOpen = record {
    at = λ s v. rw (v.in_range, bev_of-IsOpen p v) (refl, v);
  }

  pub net_connection_close-Returns :
      Returns (IsValid {Ev = Ev}) (net_connection_close p conn) (λ _. IsValid)
  net_connection_close-Returns = record {
    at = λ s v.
        let (t, runs, valid, closes) = net_connection_close-ClosedOnly p s conn v in
        ok-Total (λ _. IsValid) runs valid;
  }

  -- What net_connection_activate does once libevent has answered.
  activated :
      (b : ℕ) (connected : Bool)
      → Returns
          (IsOpen {Ev = Ev} conn)
          (if connected
            then call (λ ev. p.bufferevent_enable ev b) >> pure (pos 0)
            else net_connection_close p conn >> pure (negsuc 0))
          (Activated conn)
  unfolding pure
  activated b true =
      Returns-bind _ _ (call-IsOpen conn _) (λ _. record { at = λ s v. inl (refl, v) })
  activated b false =
      Returns-bind _ _ (Returns-from _ (λ s v. v.valid) net_connection_close-Returns)
        (λ _. record { at = λ s v. inr (refl, v) })

  -- An entry that cannot be connected is closed again.
  pub net_connection_activate-Activated :
      Returns (IsOpen {Ev = Ev} conn) (net_connection_activate p conn) (Activated conn)
  unfolding net_connection_activate ◌>>=◌
  net_connection_activate-Activated = record {
    at = λ s v.
        rw (v.in_range, read_slot-IsOpen p v, v.bev)
          ((Returns-bind _ _
              (ask-IsOpen conn (λ ev. p.bufferevent_socket_connect ev v.handle v.entry.sin))
              (activated v.handle)).at
            s v);
  }

both :
    {Ev : Type 0} (p : Platform Ev) (ip port : ℕ) (s : NetServer Ev) (r : ℤ) (t : NetServer Ev)
    → IsValid t
    → Refused s r t ⊎ Opened ip port s r t
    → Connected r t
unfolding net_valid_connection_num
both p ip port s r t valid (inl refused) = inl (rw refused.0 refl, valid)
both p ip port s r t valid (inr o) = rw o.result (
    inr (
      refl,
      record {
        valid = valid;
        in_range = ground (arith, o.bound);
        entry = opened o.slot o.handle ip port o.before;
        handle = o.handle;
        at = o.written;
        bev = refl;
      },
    ))

-- Both results of net_connection_create.
pub net_connection_create-Connected :
    {Ev : Type 0} (p : Platform Ev) (ip port : ℕ)
    → Returns (IsValid {Ev = Ev}) (net_connection_create p ip port) Connected
net_connection_create-Connected p ip port = record {
  at = λ s v.
      let (r, t, runs, valid, which) = net_connection_create-Opened p ip port s v in
      ok-Total Connected runs (both p ip port s r t valid which);
}
