-- ===== src/Netio/Hosts.antt =====
-- The callbacks of src/netio.c that call the upper layer: the invariants of both layers side by side.
use fyp_dht.Prelude.{ℕ, ◌≡◌, ap, Bool, true, false, Option, none, some, ℤ}
use fyp_dht.Prelude.Outcome.{Outcome, ok, fault, ◌>>=◌, pure, if_some}
use fyp_dht.Prelude.Leads.{Leads, Keeps, Post, keeps_rules, Leads-bind, Leads-pure}
use fyp_dht.Prelude.Returns.{Total, Returns}
use fyp_dht.Platform.{Platform}
use fyp_dht.Callback.{CbArg, DataCb, EventCb}
use fyp_dht.Netio.State.{NetServer}
use fyp_dht.Netio.Conn.{NetM}
use fyp_dht.Netio.Server.{
  Host, HostM, on_net, attach, accept_run, listen_evt_cb, net_connection_event_cb,
  net_connection_read_cb, net_connection_write_cb,
}
use fyp_dht.Netio.Valid.{IsValid}
use fyp_dht.Netio.Keeps.{call-Keeps, read_slot-Keeps}
use fyp_dht.Netio.Accept.{Accepted, accept_open-Leads, attach-Leads}

module _ {Ev U : Type 0} where
  pub on_net-ok :
      {A : Type 0} (m : NetM Ev A) (h : Host Ev U) {a : A} {n : NetServer Ev}
      → m h.net ≡ ok (a, n)
      → on_net m h ≡ ok (a, record h { net = n })
  unfolding on_net
  on_net-ok m h e =
      ap (λ x. elim x [ ok (a, n) ↦ ok (a, record h { net = n }) | fault e ↦ fault e ]) e

module _ {Ev U : Type 0} (Q : U → Type 0) where
  abbrev pub HostInv : (NetServer Ev → Type 0) → Host Ev U → Type 0
  HostInv P h = P h.net × Q h.upper

  on_net-Post :
      {A : Type 0} (R : A → NetServer Ev → Type 0) (x : Outcome (A × NetServer Ev)) (h : Host Ev U)
      → Post R x
      → Q h.upper
      → Post
          (λ a. HostInv (R a))
          (elim x [ ok (a, n) ↦ ok (a, record h { net = n }) | fault e ↦ fault e ])
  on_net-Post R (ok (a, n)) h r q = (r, q)
  on_net-Post R (fault e) h r q = tt

  pub on_net-Leads :
      {A : Type 0} {P : NetServer Ev → Type 0} {R : A → NetServer Ev → Type 0} (m : NetM Ev A)
      → Leads P m R
      → Leads (HostInv P) (on_net m) (λ a. HostInv (R a))
  unfolding on_net
  on_net-Leads m lm = record { at = λ h (v, q). on_net-Post _ (m h.net) h (lm.at h.net v) q }

  pub on_net-Keeps :
      {A : Type 0} (m : NetM Ev A) → Keeps IsValid m → Keeps (HostInv IsValid) (on_net m)
  on_net-Keeps m km = on_net-Leads m km

  on_net-Total :
      {A : Type 0} (R : A → NetServer Ev → Type 0) (x : Outcome (A × NetServer Ev)) (h : Host Ev U)
      → Total R x
      → Q h.upper
      → Total
          (λ a. HostInv (R a))
          (elim x [ ok (a, n) ↦ ok (a, record h { net = n }) | fault e ↦ fault e ])
  on_net-Total R (ok (a, n)) h r q = (r, q)
  on_net-Total R (fault e) h r q = r

  pub on_net-Returns :
      {A : Type 0} {P : NetServer Ev → Type 0} {R : A → NetServer Ev → Type 0} (m : NetM Ev A)
      → Returns P m R
      → Returns (HostInv P) (on_net m) (λ a. HostInv (R a))
  unfolding on_net
  on_net-Returns m rm = record { at = λ h (v, q). on_net-Total _ (m h.net) h (rm.at h.net v) q }

module _ {Ev U : Type 0} (p : Platform Ev) (Q : U → Type 0) where
  module _ (event_cb : EventCb → ℤ → ℕ → Option CbArg → HostM Ev U (Unit {0}))
      (keeps : (cb : EventCb) (conn : ℤ) (what : ℕ) (arg : Option CbArg)
        → Keeps (HostInv Q IsValid) (event_cb cb conn what arg)) where
    accept_run-Keeps :
        (i b : ℕ) (attached : Bool) → Keeps (HostInv Q IsValid) (accept_run p event_cb i b attached)
    unfolding accept_run
    accept_run-Keeps i b true = search (keeps_rules, keeps, on_net-Keeps, call-Keeps)
    accept_run-Keeps i b false = search keeps_rules

    accept_rest :
        (e : Option (ℕ × ℕ))
        → Leads
            (HostInv Q (Accepted e))
            (if_some e
              (λ e. do attached ← on_net (attach p e.0 e.1); accept_run p event_cb e.0 e.1 attached)
              (pure tt))
            (λ _. HostInv Q IsValid)
    unfolding if_some
    accept_rest none = Leads-pure tt
    accept_rest (some (i, b)) =
        Leads-bind _ _ (on_net-Leads Q _ (attach-Leads p i b)) (accept_run-Keeps i b)

    pub listen_evt_cb-Keeps : (fd : ℕ) → Keeps (HostInv Q IsValid) (listen_evt_cb p event_cb fd)
    unfolding listen_evt_cb
    listen_evt_cb-Keeps fd = Leads-bind _ _ (on_net-Leads Q _ (accept_open-Leads p fd)) accept_rest

    pub net_connection_event_cb-Keeps :
        (what : ℕ) (conn : ℤ)
        → Keeps (HostInv Q IsValid) (net_connection_event_cb p event_cb what conn)
    unfolding net_connection_event_cb
    net_connection_event_cb-Keeps what conn =
        search (keeps_rules, keeps, on_net-Keeps, read_slot-Keeps)

  module _ (data_cb : DataCb → ℤ → Option CbArg → HostM Ev U (Unit {0}))
      (keeps : (cb : DataCb) (conn : ℤ) (arg : Option CbArg)
        → Keeps (HostInv Q IsValid) (data_cb cb conn arg)) where
    pub net_connection_read_cb-Keeps :
        (conn : ℤ) → Keeps (HostInv Q IsValid) (net_connection_read_cb p data_cb conn)
    unfolding net_connection_read_cb
    net_connection_read_cb-Keeps conn = search (keeps_rules, keeps, on_net-Keeps, read_slot-Keeps)

    pub net_connection_write_cb-Keeps :
        (conn : ℤ) → Keeps (HostInv Q IsValid) (net_connection_write_cb p data_cb conn)
    unfolding net_connection_write_cb
    net_connection_write_cb-Keeps conn = search (keeps_rules, keeps, on_net-Keeps, read_slot-Keeps)
