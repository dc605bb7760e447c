-- ===== src/Node/Inv/Defs.antt =====
-- The invariant, and the reads, the writes and the lock.
use fyp_dht.Prelude.{
  ℕ, ◌≡◌, ◌∙◌, refl, Bool, true, false, length, set, length-set, Option, ℤ, pos, negsuc,
}
use fyp_dht.Prelude.Outcome.{Run, ◌>>=◌, ◌>>◌}
use fyp_dht.Prelude.Leads.{Leads, Keeps, Post, keeps_rules, Leads-bind, Keeps-bind}
use fyp_dht.Callback.{NodeInfo, CbArg}
use fyp_dht.Netio.Keeps.{write_slot-Keeps}
use fyp_dht.Netio.Server.{Host}
use fyp_dht.Netio.Valid.{IsValid}
use fyp_dht.Netio.Hosts.{HostInv, on_net-Keeps}
use fyp_dht.Node.State.{
  NodeSelf, NodeM, num_of_succs, id_bits, the_node, change, lock_succs, unlock_succs, read_succ,
  write_succ, read_finger, write_finger, leave_freed,
}

-- The node has its id, its eight successors and its 32 fingers, and its lock is held or not.
pub record NodeInv (me : ℕ) (held : Bool) (s : NodeSelf) : Type 0 where
  pub id : s.self.id ≡ me
  pub lock : s.succs_lock ≡ held
  pub succs : length s.successor ≡ num_of_succs
  pub fingers : length s.finger_table ≡ id_bits

-- Beside it, the server is well formed.
abbrev pub Inv : {Ev : Type 0} → ℕ → Bool → Host Ev NodeSelf → Type 0
Inv me held = HostInv (NodeInv me held) IsValid

-- A function that keeps the first, and then one that leads from it to the second.
pub Leads-then :
    {S A B : Type 0} {P Q : S → Type 0} (m : Run S A) (f : A → Run S B)
    → Keeps P m
    → ((a : A) → Leads P (f a) (λ _. Q))
    → Leads P (m >>= f) (λ _. Q)
Leads-then m f km kf = Leads-bind m f km kf

module _ {Ev : Type 0} {P : Host Ev NodeSelf → Type 0} where
  pub the_node-Keeps : Keeps P the_node
  unfolding the_node
  the_node-Keeps = record { at = λ s h. h }

  pub read_succ-Keeps : (n : ℤ) → Keeps P (read_succ n)
  unfolding read_succ
  read_succ-Keeps (pos i) = search (keeps_rules, the_node-Keeps)
  read_succ-Keeps (negsuc n) = search keeps_rules

  pub read_finger-Keeps : (i : ℕ) → Keeps P (read_finger i)
  unfolding read_finger
  read_finger-Keeps i = search (keeps_rules, the_node-Keeps)

module _ {Ev : Type 0} (Q : NodeSelf → Type 0) where
  pub leave_freed-Keeps :
      (conn : ℤ) (forget : Option CbArg → Option CbArg)
      → Keeps (HostInv {Ev = Ev} Q IsValid) (leave_freed conn forget)
  unfolding leave_freed
  leave_freed-Keeps (pos i) forget =
      on_net-Keeps Q _
        (write_slot-Keeps i (λ c. record c { upper_cb_arg = forget c.upper_cb_arg }) (λ c v. v))
  leave_freed-Keeps (negsuc n) forget = search keeps_rules

module _ {me : ℕ} {held : Bool} where
  pub set_succ-Inv :
      (i : ℕ) (n : NodeInfo) (s : NodeSelf)
      → NodeInv me held s
      → NodeInv me held (record s { successor = set s.successor i n })
  set_succ-Inv i n s v = record {
    id = v.id;
    lock = v.lock;
    succs = length-set s.successor i n ∙ v.succs;
    fingers = v.fingers;
  }

  pub set_finger-Inv :
      (i : ℕ) (n : NodeInfo) (s : NodeSelf)
      → NodeInv me held s
      → NodeInv me held (record s { finger_table = set s.finger_table i n })
  set_finger-Inv i n s v = record {
    id = v.id;
    lock = v.lock;
    succs = v.succs;
    fingers = length-set s.finger_table i n ∙ v.fingers;
  }

module _ {Ev : Type 0} {me : ℕ} {held : Bool} where
  pub change-Keeps :
      (f : NodeSelf → NodeSelf)
      → ((s : NodeSelf) → NodeInv me held s → NodeInv me held (f s))
      → Keeps (Inv {Ev = Ev} me held) (change f)
  unfolding change
  change-Keeps f keeps = record { at = λ h i. (i.0, keeps h.upper i.1) }

  pub write_succ-Keeps : (i : ℕ) (n : NodeInfo) → Keeps (Inv {Ev = Ev} me held) (write_succ i n)
  unfolding write_succ
  write_succ-Keeps i n = search (keeps_rules, the_node-Keeps, change-Keeps, set_succ-Inv)

  pub write_finger-Keeps : (i : ℕ) (n : NodeInfo) → Keeps (Inv {Ev = Ev} me held) (write_finger i n)
  unfolding write_finger
  write_finger-Keeps i n = search (keeps_rules, the_node-Keeps, change-Keeps, set_finger-Inv)

module _ {Ev : Type 0} {me : ℕ} where
  pub lock_succs-Leads : Leads (Inv {Ev = Ev} me false) lock_succs (λ _. Inv me true)
  unfolding lock_succs
  lock_succs-Leads = record {
    at = λ h i.
        rw (i.1.lock)
          (i.0, record { id = i.1.id; lock = refl; succs = i.1.succs; fingers = i.1.fingers });
  }

  pub unlock_succs-Leads : Leads (Inv {Ev = Ev} me true) unlock_succs (λ _. Inv me false)
  unfolding unlock_succs
  unlock_succs-Leads = record {
    at = λ h i.
        rw (i.1.lock)
          (i.0, record { id = i.1.id; lock = refl; succs = i.1.succs; fingers = i.1.fingers });
  }

  -- A thread that holds the lock goes no further than the next lock, nor one without it than an unlock.
  pub locked_out :
      {B : Type 0} {Q : B → Host Ev NodeSelf → Type 0} (m : NodeM Ev B)
      → Leads (Inv me true) (lock_succs >> m) Q
  unfolding lock_succs ◌>>=◌
  locked_out m = record { at = λ h i. rw (i.1.lock) tt }

  pub unlocked_out :
      {B : Type 0} {Q : B → Host Ev NodeSelf → Type 0} (m : NodeM Ev B)
      → Leads (Inv me false) (unlock_succs >> m) Q
  unfolding unlock_succs ◌>>=◌
  unlocked_out m = record { at = λ h i. rw (i.1.lock) tt }

pub ruleset node_rules = (
  keeps_rules, the_node-Keeps, read_succ-Keeps, read_finger-Keeps, write_succ-Keeps,
  write_finger-Keeps, on_net-Keeps, leave_freed-Keeps,
)
