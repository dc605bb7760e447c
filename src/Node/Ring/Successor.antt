-- ===== src/Node/Ring/Successor.antt =====
-- The list of successors of src/node.c: a better successor is taken, and the eight that are kept.
use fyp_dht.Prelude.{
  ℕ, ◌+◌, ◌%◌, ◌≡◌, ◌≢◌, ◌≤◌, ◌⊎◌, inl, inr, refl, Bool, true, false, arith, some, get_elem?, ◌||◌,
  ◌==◌, pos, Bool-cases, set,
}
use fyp_dht.Prelude.Outcome.{ok, fault, out_of_bounds, ◌>>=◌, ◌>>◌, pure}
use fyp_dht.Ident.{IsId, hash_mod, node_id_in_range, node_id_compare}
use fyp_dht.Ident.Arc.{arc, in_range-arc}
use fyp_dht.Platform.{Platform}
use fyp_dht.Callback.{NodeInfo, node_update_succs_found}
use fyp_dht.Netio.Server.{Host}
use fyp_dht.Node.State.{
  NodeSelf, Machine, the_node, change, lock_succs, unlock_succs, read_succ, write_succ,
  node_first_alive_succ,
}
use fyp_dht.Node.Send.{node_find_successor_remote, new_block, new_found}
use fyp_dht.Node.Blocks.{after_block, new_block-then}
use fyp_dht.Node.Found.{App, same_id, take_successor, update_succs_found, node_update_succ}
use fyp_dht.Node.Inv.Defs.{Inv}

-- A node is nearer: the successor is this node, or the node is no further ahead of it, clockwise
-- from the id behind this node's, than the successor is.
abbrev pub Nearer : NodeSelf → NodeInfo → NodeInfo → Type 0
Nearer s succ n =
    (s.self.id ≡ succ.id)
    ⊎ (arc ((s.self.id + 1) % hash_mod) n.id ≤ arc ((s.self.id + 1) % hash_mod) succ.id)

abbrev takes : NodeSelf → NodeInfo → NodeInfo → Bool
takes s succ n =
    same_id s.self.id succ.id || node_id_in_range n.id ((s.self.id + 1) % hash_mod) succ.id

takes-Nearer :
    (s : NodeSelf) (succ n : NodeInfo)
    → IsId succ.id
    → IsId n.id
    → takes s succ n ≡ true
    → Nearer s succ n
unfolding node_id_compare
takes-Nearer s succ n hs hn e =
    ground (arith, in_range-arc n.id ((s.self.id + 1) % hash_mod) succ.id hn (omega arith) hs)

not_taken :
    (s : NodeSelf) (succ n : NodeInfo)
    → IsId succ.id
    → IsId n.id
    → takes s succ n ≡ false
    → ¬ Nearer s succ n
unfolding node_id_compare
not_taken s succ n hs hn e near =
    ground (arith, in_range-arc n.id ((s.self.id + 1) % hash_mod) succ.id hn (omega arith) hs)

module _ {Ev : Type 0} (p : Platform Ev) (app : App Ev) (mc : Machine) where
  -- In a state that keeps the invariant, with a successor alive, the node that the successor named as
  -- its predecessor takes the first place exactly when it is nearer; the other successors stay, and so
  -- does the rest of the state.
  pub take_successor-Nearer :
      (me : ℕ) (h : Host Ev NodeSelf) (k : ℕ) (succ n : NodeInfo)
      → Inv me false h
      → node_first_alive_succ h.upper ≡ pos k
      → get_elem? h.upper.successor k ≡ some succ
      → IsId succ.id
      → IsId n.id
      → (Nearer h.upper succ n
          × (take_successor p app mc n h
              ≡ ok (
                tt,
                record h {
                  upper = record (h.upper) {
                    successor = set h.upper.successor 0 n;
                    succs_lock = false;
                  };
                },
              )))
        ⊎ ((¬ Nearer h.upper succ n)
            × (take_successor p app mc n h
                ≡ ok (tt, record h { upper = record (h.upper) { succs_lock = false } })))
  unfolding take_successor the_node change lock_succs unlock_succs read_succ write_succ
      node_first_alive_succ ◌>>=◌
  take_successor-Nearer me h k succ n i first at hs hn = elim (Bool-cases (takes h.upper succ n)) [
    | inl e ↦ inl (takes-Nearer h.upper succ n hs hn e, rw (i.1.lock, first, at, e, i.1.succs) refl)
    | inr e ↦ inr (not_taken h.upper succ n hs hn e, rw (i.1.lock, first, at, e) refl)
  ]

  -- With the lock free and the last of the eight successors alive, the update of number 7 asks it, with
  -- two blocks from malloc, for a successor with number 8, and the answer is written behind the end of the list.
  pub update_succs-past_end :
      (me : ℕ) (h : Host Ev NodeSelf) (succ found : NodeInfo)
      → Inv me false h
      → get_elem? h.upper.successor 7 ≡ some succ
      → succ.ip ≢ 0
      → (node_update_succ p app mc (pos 7) h
          ≡ (new_block p
                >> (new_block p
                    >> (node_find_successor_remote p mc succ
                          ((succ.id + 1) % hash_mod)
                          (new_found mc (node_update_succs_found 8))
                        >>= λ rc. pure tt)))
              h)
        × (update_succs_found p app mc found 8 h ≡ fault out_of_bounds)
  unfolding node_update_succ update_succs_found the_node lock_succs read_succ write_succ ◌>>=◌
  update_succs-past_end me h succ found i at alive =
      let set_up : (succ.ip == 0) ≡ false = ground arith in
      (
        new_block-then p _ _ h (new_block-then p _ _ (after_block p h) (rw (at, set_up) refl)),
        rw i.1.lock (rw (i.1.succs) refl),
      )
