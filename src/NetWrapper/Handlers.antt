-- ===== src/NetWrapper/Handlers.antt =====
-- What src/net_wrapper.c does with its handlers: where a new one is put, and whether one is ever run.
use fyp_dht.Prelude.{
  ℕ, zero, suc, ◌+◌, ◌≡◌, ◌≤◌, ◌<◌, ◌⊎◌, inl, inr, refl, ap, ◌∙◌, true, false, arith, List, [], ◌∷◌,
  some, none, Option, get_elem?, get_elem?_total, set, length, ℤ, pos, Bool-cases, ltb, ◌==◌,
}
use fyp_dht.Prelude.Outcome.{Outcome, ok, fault, out_of_bounds, ◌>>=◌, need, continue}
use fyp_dht.Platform.{Platform}
use fyp_dht.Callback.{CbArg, EventCb}
use fyp_dht.Netio.Conn.{NetM}
use fyp_dht.Netio.State.{NetServer}
use fyp_dht.Netio.Server.{Host, on_net}
use fyp_dht.NetWrapper.{
  NetwHandler, Netw, NetwM, netw, set_netw, lock_handlers, unlock_handlers, write_handler,
  netw_register_handler, netw_incomming_cb, no_handler, strtol16,
}

abbrev pub handler : EventCb → Option CbArg → NetwHandler
handler cb arg = record { incoming_connection_cb = some cb; incoming_cb_arg = arg }

past_end : {A : Type 0} (xs : List A) (i : ℕ) → length xs ≤ i → get_elem? xs i ≡ none
past_end [] i h = refl
past_end (x ∷ xs) zero h = absurd (omega arith)
past_end (x ∷ xs) (suc i) h = past_end xs i (omega arith)

module _ {Ev : Type 0} (p : Platform Ev) (fresh : ℕ → List NetwHandler) where
  -- With the lock free, a block of `netw_max_handlers` handlers and fewer registered: the number that the
  -- caller gets is one less than the place that the handler is put in, so the place of that number stays
  -- as it was; and when only the last place is left, the handler is put behind the end of the block.
  pub netw_register_handler-next_place :
      (h : Host Ev Netw) (hs : List NetwHandler) (cb : EventCb) (arg : Option CbArg)
      → h.upper.handlers_lock ≡ false
      → h.upper.handlers ≡ some hs
      → length hs ≡ h.upper.netw_max_handlers
      → h.upper.netw_num_handlers < h.upper.netw_max_handlers
      → ((h.upper.netw_num_handlers + 1 < h.upper.netw_max_handlers)
          × (netw_register_handler p fresh cb arg h
              ≡ ok (
                pos h.upper.netw_num_handlers,
                record h {
                  upper = record (h.upper) {
                    handlers_lock = false;
                    netw_num_handlers = h.upper.netw_num_handlers + 1;
                    handlers = some (set hs (h.upper.netw_num_handlers + 1) (handler cb arg));
                  };
                },
              )))
        ⊎ ((h.upper.netw_num_handlers + 1 ≡ h.upper.netw_max_handlers)
            × (netw_register_handler p fresh cb arg h ≡ fault out_of_bounds))
  unfolding netw_register_handler netw set_netw lock_handlers unlock_handlers write_handler need
      ◌>>=◌
  netw_register_handler-next_place h hs cb arg free block size room =
      let not_full : (h.upper.netw_num_handlers == h.upper.netw_max_handlers) ≡ false =
        ground arith in
      elim (Bool-cases (ltb (h.upper.netw_num_handlers + 1) h.upper.netw_max_handlers)) [
        | inl more ↦
            let (x, at) = get_elem?_total hs (h.upper.netw_num_handlers + 1) (ground arith) in
            inl (ground arith, rw (free, not_full, block, at) refl)
        | inr last ↦ inr (
          ground arith,
          rw (free, not_full, block, past_end hs (h.upper.netw_num_handlers + 1) (ground arith))
              refl,
        )
      ]

module _ {Ev : Type 0} where
  after_net :
      {A B : Type 0} (m : NetM Ev A) (f g : A → NetwM Ev B) (h : Host Ev Netw)
      → ((a : A) (t : Host Ev Netw) → t.upper ≡ h.upper → f a t ≡ g a t)
      → (on_net m >>= f) h ≡ (on_net m >>= g) h
  unfolding on_net ◌>>=◌
  after_net {A} m f g h same = go (m h.net)
    where
      go :
          (x : Outcome (A × NetServer Ev))
          → continue (elim x [ ok (a, n) ↦ ok (a, record h { net = n }) | fault e ↦ fault e ]) f
            ≡ continue (elim x [ ok (a, n) ↦ ok (a, record h { net = n }) | fault e ↦ fault e ]) g
      go (ok (a, n)) = same a (record h { net = n }) refl
      go (fault e) = refl

  after_need :
      {A B : Type 0} (o : Option A) (e : _) (f g : A → NetwM Ev B) (h : Host Ev Netw)
      → ((a : A) → f a h ≡ g a h)
      → (need o e >>= f) h ≡ (need o e >>= g) h
  unfolding need ◌>>=◌
  after_need (some a) e f g h same = same a
  after_need none e f g h same = refl

  module _ (p : Platform Ev) (fresh : ℕ → List NetwHandler) where
    -- With the lock free, what an incoming connection comes to does not depend on how the callbacks of
    -- handlers are run, as none ever is: for the number of a handler the lock is taken twice.
    pub netw_incomming_cb-never_runs :
        (run other : EventCb → ℤ → ℕ → Option CbArg → NetwM Ev (Unit {0})) (conn : ℤ) (what : ℕ)
        (h : Host Ev Netw)
        → h.upper.handlers_lock ≡ false
        → netw_incomming_cb p fresh run conn what h ≡ netw_incomming_cb p fresh other conn what h
    unfolding netw_incomming_cb netw lock_handlers unlock_handlers ◌>>=◌
    netw_incomming_cb-never_runs run other conn what h free = after_net _ _ _ h (λ buf t same.
        after_need buf _ _ _ t (λ buffer. after_net _ _ _ t (λ line u same'.
          after_need line _ _ _ u (λ token.
            let still : u.upper.handlers_lock ≡ false =
              ap (λ (w : Netw). w.handlers_lock) (same' ∙ same) ∙ free in
            elim (Bool-cases
              (no_handler (strtol16 token) (record (u.upper) { handlers_lock = true }))) [
                | inl out ↦ rw (still, out) refl
                | inr known ↦ rw (still, known) refl
              ]))))
