-- ===== src/Netio/Keeps.antt =====
-- The operations of src/netio.c, one by one, and the well-formedness of the server.
use fyp_dht.Prelude.{ℕ, zero, suc, ◌∙◌, Option, none, some, ℤ, pos, get_elem?}
use fyp_dht.Prelude.Outcome.{ok, fault, out_of_bounds, modify}
use fyp_dht.Prelude.Leads.{Keeps, Keeps-bind, Post, keeps_rules}
use fyp_dht.Platform.{Platform}
use fyp_dht.Callback.{CbArg, DataCb, EventCb}
use fyp_dht.Netio.State.{NetConnection, write_slot, read_slot}
use fyp_dht.Netio.Conn.{
  set_field, bev_of, free_bev, close_slot, call, ask, net_connection_close, net_connection_create,
  net_connection_set_read_cb, net_connection_set_write_cb, net_connection_set_event_cb,
  net_connection_set_cb_arg, net_connection_set_timeouts, net_connection_activate,
  net_connection_get_bufev, net_connection_get_read_buffer, net_connection_get_write_buffer,
  net_connection_get_remote_address,
}
use fyp_dht.Netio.Server.{close_from, net_server_stop}
use fyp_dht.Netio.Slots.{length-alter}
use fyp_dht.Netio.Valid.{IsValid, IsOwned, Owned-alter}
use fyp_dht.Netio.Opens.{net_connection_create-Opened}

module _ {Ev : Type 0} where
  pub call-Keeps : (f : Ev → Ev) → Keeps (IsValid {Ev = Ev}) (call f)
  unfolding call
  call-Keeps f = record {
    at = λ s v. record { size = v.size; unlocked = v.unlocked; owned = v.owned };
  }

  pub ask-Keeps : {A : Type 0} (f : Ev → A × Ev) → Keeps (IsValid {Ev = Ev}) (ask f)
  unfolding ask
  ask-Keeps f = record {
    at = λ s v. record { size = v.size; unlocked = v.unlocked; owned = v.owned };
  }

  pub read_slot-Keeps : (i : ℕ) → Keeps (IsValid {Ev = Ev}) (read_slot i)
  unfolding read_slot
  read_slot-Keeps i = record {
    at = λ s v.
        elim (get_elem? s.connections i)
          as (λ o.
            Post (λ _. IsValid) (elim o [ some c ↦ ok (c, s) | none ↦ fault out_of_bounds ])) [
              | some c ↦ v
              | none ↦ tt
            ];
  }

  pub write_slot-Keeps :
      (i : ℕ) (f : NetConnection → NetConnection)
      → ((c : NetConnection) → IsOwned i c → IsOwned i (f c))
      → Keeps (IsValid {Ev = Ev}) (modify (write_slot i f))
  unfolding modify write_slot
  write_slot-Keeps i f keeps = record {
    at = λ s v. record {
      size = length-alter s.connections i f ∙ v.size;
      unlocked = v.unlocked;
      owned = Owned-alter s.connections i f (λ c e. keeps c (v.owned i c e)) v.owned;
    };
  }

ruleset net_rules = (keeps_rules, call-Keeps, ask-Keeps, read_slot-Keeps, write_slot-Keeps)

module _ {Ev : Type 0} (p : Platform Ev) where
  set_field-Keeps :
      (conn : ℤ) (f : NetConnection → NetConnection)
      → ((i : ℕ) (c : NetConnection) → IsOwned i c → IsOwned i (f c))
      → Keeps (IsValid {Ev = Ev}) (set_field p conn f)
  unfolding set_field
  set_field-Keeps conn f keeps = search net_rules

  bev_of-Keeps : (conn : ℤ) → Keeps (IsValid {Ev = Ev}) (bev_of p conn)
  unfolding bev_of
  bev_of-Keeps conn = search net_rules

  free_bev-Keeps : (o : Option ℕ) → Keeps (IsValid {Ev = Ev}) (free_bev p o)
  unfolding free_bev
  free_bev-Keeps conn = search net_rules

  pub net_connection_close-Keeps :
      (conn : ℤ) → Keeps (IsValid {Ev = Ev}) (net_connection_close p conn)
  unfolding net_connection_close close_slot
  net_connection_close-Keeps conn = search (net_rules, free_bev-Keeps)

  pub net_connection_activate-Keeps :
      (conn : ℤ) → Keeps (IsValid {Ev = Ev}) (net_connection_activate p conn)
  unfolding net_connection_activate
  net_connection_activate-Keeps conn = search (net_rules, net_connection_close-Keeps) depth 12

  pub net_connection_create-Keeps :
      (ip port : ℕ) → Keeps (IsValid {Ev = Ev}) (net_connection_create p ip port)
  net_connection_create-Keeps ip port = record {
    at = λ s v.
        let (r, t, runs, valid, how) = net_connection_create-Opened p ip port s v in rw runs valid;
  }

  pub net_connection_set_read_cb-Keeps :
      (conn : ℤ) (cb : DataCb) → Keeps (IsValid {Ev = Ev}) (net_connection_set_read_cb p conn cb)
  unfolding net_connection_set_read_cb
  net_connection_set_read_cb-Keeps conn cb = search set_field-Keeps

  pub net_connection_set_write_cb-Keeps :
      (conn : ℤ) (cb : DataCb) → Keeps (IsValid {Ev = Ev}) (net_connection_set_write_cb p conn cb)
  unfolding net_connection_set_write_cb
  net_connection_set_write_cb-Keeps conn cb = search set_field-Keeps

  pub net_connection_set_event_cb-Keeps :
      (conn : ℤ) (cb : EventCb) → Keeps (IsValid {Ev = Ev}) (net_connection_set_event_cb p conn cb)
  unfolding net_connection_set_event_cb
  net_connection_set_event_cb-Keeps conn cb = search set_field-Keeps

  pub net_connection_set_cb_arg-Keeps :
      (conn : ℤ) (arg : CbArg) → Keeps (IsValid {Ev = Ev}) (net_connection_set_cb_arg p conn arg)
  unfolding net_connection_set_cb_arg
  net_connection_set_cb_arg-Keeps conn arg = search set_field-Keeps

  pub net_connection_set_timeouts-Keeps :
      (conn : ℤ) (r w : Option ℕ)
      → Keeps (IsValid {Ev = Ev}) (net_connection_set_timeouts p conn r w)
  unfolding net_connection_set_timeouts
  net_connection_set_timeouts-Keeps conn r w = search (net_rules, bev_of-Keeps)

  pub net_connection_get_bufev-Keeps :
      (conn : ℤ) → Keeps (IsValid {Ev = Ev}) (net_connection_get_bufev p conn)
  unfolding net_connection_get_bufev
  net_connection_get_bufev-Keeps conn = search net_rules

  pub net_connection_get_read_buffer-Keeps :
      (conn : ℤ) → Keeps (IsValid {Ev = Ev}) (net_connection_get_read_buffer p conn)
  unfolding net_connection_get_read_buffer
  net_connection_get_read_buffer-Keeps conn = search (net_rules, bev_of-Keeps)

  pub net_connection_get_write_buffer-Keeps :
      (conn : ℤ) → Keeps (IsValid {Ev = Ev}) (net_connection_get_write_buffer p conn)
  unfolding net_connection_get_write_buffer
  net_connection_get_write_buffer-Keeps conn = search (net_rules, bev_of-Keeps)

  pub net_connection_get_remote_address-Keeps :
      (conn : ℤ) → Keeps (IsValid {Ev = Ev}) (net_connection_get_remote_address p conn)
  unfolding net_connection_get_remote_address
  net_connection_get_remote_address-Keeps conn = search (net_rules, bev_of-Keeps)

  close_from-Keeps : (left i : ℕ) → Keeps (IsValid {Ev = Ev}) (close_from p left i)
  unfolding close_from
  close_from-Keeps zero i = search net_rules
  close_from-Keeps (suc left) i =
      Keeps-bind _ _ (net_connection_close-Keeps (pos i)) (λ _. close_from-Keeps left (suc i))

  pub net_server_stop-Keeps : Keeps (IsValid {Ev = Ev}) (net_server_stop p)
  unfolding net_server_stop
  net_server_stop-Keeps = search (net_rules, close_from-Keeps)

pub ruleset net_ops = (
  call-Keeps, ask-Keeps, net_connection_close-Keeps, net_connection_activate-Keeps,
  net_connection_create-Keeps, net_connection_set_read_cb-Keeps, net_connection_set_write_cb-Keeps,
  net_connection_set_event_cb-Keeps, net_connection_set_cb_arg-Keeps,
  net_connection_set_timeouts-Keeps, net_connection_get_bufev-Keeps,
  net_connection_get_read_buffer-Keeps, net_connection_get_write_buffer-Keeps,
  net_connection_get_remote_address-Keeps,
)
