-- ===== src/Node/Live/Ready.antt =====
-- A node of src/node.c with a successor that is alive: its lock, and reads and writes of its arrays.
use fyp_dht.Prelude.{
  ℕ, ◌≡◌, ◌≢◌, ◌<◌, inl, inr, refl, ap, ◌∙◌, Bool, true, false, arith, pos, negsuc, get_elem?_total,
  set, length, length-set, ltb,
}
use fyp_dht.Prelude.Outcome.{ok, ◌>>=◌}
use fyp_dht.Prelude.Returns.{Returns, Stays}
use fyp_dht.Callback.{NodeInfo}
use fyp_dht.Netio.Valid.{IsValid}
use fyp_dht.Netio.Server.{Host}
use fyp_dht.Netio.Hosts.{HostInv}
use fyp_dht.Node.State.{
  NodeSelf, NodeM, the_node, change, read_succ, read_finger, write_finger, lock_succs, unlock_succs,
  node_first_alive_succ,
}
use fyp_dht.Node.Inv.Defs.{NodeInv}
use fyp_dht.Node.Ring.Alive.{node_first_alive_succ-FirstAlive}

-- The invariant of a node with a successor that is alive.
pub record Ready (me : ℕ) (held : Bool) (s : NodeSelf) : Type 0 where
  pub inv : NodeInv me held s
  pub alive : node_first_alive_succ s ≢ negsuc 0

abbrev pub Runs : {Ev : Type 0} → ℕ → Bool → Host Ev NodeSelf → Type 0
Runs me held = HostInv (Ready me held) IsValid

module _ {me : ℕ} where
  set_finger-Ready :
      {held : Bool} (i : ℕ) (n : NodeInfo) (s : NodeSelf)
      → Ready me held s
      → Ready me held (record s { finger_table = set s.finger_table i n })
  unfolding node_first_alive_succ
  set_finger-Ready i n s r = record {
    inv = record {
      id = r.inv.id;
      lock = r.inv.lock;
      succs = r.inv.succs;
      fingers = length-set s.finger_table i n ∙ r.inv.fingers;
    };
    alive = r.alive;
  }

  relock :
      (held : Bool) (s : NodeSelf) {other : Bool}
      → Ready me other s
      → Ready me held (record s { succs_lock = held })
  unfolding node_first_alive_succ
  relock held s r = record {
    inv = record { id = r.inv.id; lock = refl; succs = r.inv.succs; fingers = r.inv.fingers };
    alive = r.alive;
  }

module _ {Ev : Type 0} {me : ℕ} {held : Bool} where
  pub read_first :
      (h : Host Ev NodeSelf)
      → Ready me held h.upper
      → (n : NodeInfo) × (read_succ (node_first_alive_succ h.upper) h ≡ ok (n, h))
  unfolding read_succ the_node ◌>>=◌
  read_first h r = elim (node_first_alive_succ-FirstAlive h.upper) [
    | inl (dead, all) ↦ absurd (r.alive dead)
    | inr (i, n, is, at, alive, below) ↦
        let first : node_first_alive_succ h.upper ≡ pos i = is ∙ ap pos (omega arith) in
        (n, rw (first, at) refl)
  ]

  -- The first successor that is alive, as the code reads it, and what is done with it.
  pub with_first :
      {A : Type 0} {R : A → Host Ev NodeSelf → Type 0} (f : NodeSelf → NodeInfo → NodeM Ev A)
      → ((s : NodeSelf) (n : NodeInfo) → Returns (Runs me held) (f s n) R)
      → Returns (Runs me held) (do s ← the_node; n ← read_succ (node_first_alive_succ s); f s n) R
  unfolding the_node ◌>>=◌
  with_first f rf = record {
    at = λ h (v, r). let (n, reads) = read_first h r in rw reads ((rf h.upper n).at h (v, r));
  }

  pub read_finger-Returns : (i : ℕ) → i < 32 → Stays (Runs {Ev = Ev} me held) (read_finger i)
  unfolding read_finger the_node ◌>>=◌
  read_finger-Returns i lt = record {
    at = λ h (v, r).
        let (n, at) = get_elem?_total h.upper.finger_table i (omega (arith, r.inv.fingers)) in
        rw at (v, r);
  }

  pub write_finger-Returns :
      (i : ℕ) (n : NodeInfo) → i < 32 → Stays (Runs {Ev = Ev} me held) (write_finger i n)
  unfolding write_finger change the_node ◌>>=◌
  write_finger-Returns i n lt = record {
    at = λ h (v, r).
        let within : ltb i (length h.upper.finger_table) ≡ true = ground (arith, r.inv.fingers) in
        rw within (v, set_finger-Ready i n h.upper r);
  }

module _ {Ev : Type 0} {me : ℕ} where
  pub lock_succs-Returns : Returns (Runs {Ev = Ev} me false) lock_succs (λ _. Runs me true)
  unfolding lock_succs
  lock_succs-Returns = record { at = λ h (v, r). rw (r.inv.lock) (v, relock true h.upper r) }

  pub unlock_succs-Returns : Returns (Runs {Ev = Ev} me true) unlock_succs (λ _. Runs me false)
  unfolding unlock_succs
  unlock_succs-Returns = record { at = λ h (v, r). rw (r.inv.lock) (v, relock false h.upper r) }
