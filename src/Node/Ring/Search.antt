-- ===== src/Node/Ring/Search.antt =====
-- node_find_successor of src/node.c: who answers, and what happens to the node's own id.
use fyp_dht.Prelude.{
  ℕ, ◌≡◌, ◌≢◌, ◌⊎◌, inl, inr, refl, subst, sym, ◌∙◌, true, false, arith, some, get_elem?, ◌||◌, ℤ,
  pos, Bool-cases,
}
use fyp_dht.Prelude.Outcome.{ok, ◌>>=◌, ◌>>◌, pure}
use fyp_dht.Prelude.Leads.{Post, Leads-bind, Keeps-bind}
use fyp_dht.Ident.{node_id_in_range, node_id_compare}
use fyp_dht.Platform.{Platform}
use fyp_dht.Callback.{NodeInfo, FoundCb}
use fyp_dht.Netio.Server.{Host}
use fyp_dht.Node.State.{
  NodeSelf, Machine, the_node, lock_succs, unlock_succs, read_succ, node_first_alive_succ,
}
use fyp_dht.Node.Send.{node_find_successor_remote, new_block, new_found}
use fyp_dht.Node.Found.{App, same_id, node_found}
use fyp_dht.Node.Find.{
  node_find_successor, find_among_succs, answer, ask_around, found_here,
  node_closest_preceding_node,
}
use fyp_dht.Node.Inv.Defs.{Inv}
use fyp_dht.Node.Inv.Sends.{new_block-Keeps}
use fyp_dht.Node.Inv.Founds.{AppKeeps, node_found-Keeps}
use fyp_dht.Node.Inv.Finds.{find_again-Leads}

pub same_id_ne : (a b : ℕ) → a ≢ b → same_id a b ≡ false
unfolding node_id_compare
same_id_ne a b ne = ground arith

pub same_id_self : (a : ℕ) → same_id a a ≡ true
unfolding node_id_compare
same_id_self a = ground arith

module _ {Ev : Type 0} (p : Platform Ev) (app : App Ev) (mc : Machine) where
  -- The process while this thread holds the lock.
  abbrev pub locked : Host Ev NodeSelf → Host Ev NodeSelf
  locked h = record h { upper = record (h.upper) { succs_lock = true } }

  abbrev pub unlocked : Host Ev NodeSelf → Host Ev NodeSelf
  unlocked h = record h { upper = record (h.upper) { succs_lock = false } }

  -- With the lock free, and the id another than the node's own: if the id lies in the range from this
  -- node to its first successor that is alive, or that successor is this node, a block is
  -- asked for, the callback is run with the successor and 0 hops while the lock is held, and then the lock
  -- is released; otherwise the lock is released and the closest preceding node is asked, with a block for
  -- its answer.
  pub node_find_successor-asks :
      (h : Host Ev NodeSelf) (id k : ℕ) (n : NodeInfo) (cb : FoundCb)
      → h.upper.succs_lock ≡ false
      → h.upper.self.id ≢ id
      → node_first_alive_succ h.upper ≡ pos k
      → get_elem? h.upper.successor k ≡ some n
      → ((node_id_in_range id h.upper.self.id n.id || same_id h.upper.self.id n.id ≡ true)
          × (node_find_successor p app mc id cb h
              ≡ (new_block p
                    >> (node_found p app mc (found_here p app mc cb n)
                        >> (unlock_succs >> pure (pos 0))))
                  (locked h)))
        ⊎ ((node_id_in_range id h.upper.self.id n.id || same_id h.upper.self.id n.id ≡ false)
            × (node_find_successor p app mc id cb h
                ≡ (node_closest_preceding_node id >>= λ m.
                      new_block p >> node_find_successor_remote p mc m id (new_found mc cb))
                    (unlocked h)))
  unfolding node_find_successor find_among_succs answer ask_around the_node lock_succs unlock_succs
      read_succ node_first_alive_succ ◌>>=◌
  node_find_successor-asks h id k n cb free ne first at =
      elim (Bool-cases (node_id_in_range id h.upper.self.id n.id || same_id h.upper.self.id n.id)) [
        | inl here ↦ inl (here, rw (same_id_ne _ _ ne, free, first, at, here))
        | inr there ↦ inr (there, rw (same_id_ne _ _ ne, free, first, at, there))
      ]

  -- With the lock free, the search for the node's own id never returns, if the application's callbacks
  -- keep the invariant: after the callback it goes on to the statements behind the `else`, which
  -- release a lock that is not held.
  pub own_id-never_found :
      (me : ℕ) (h t : Host Ev NodeSelf) (cb : FoundCb) (r : ℤ)
      → AppKeeps app me
      → Inv me false h
      → node_find_successor p app mc me cb h ≢ ok (r, t)
  unfolding node_find_successor the_node ◌>>=◌
  own_id-never_found me h t cb r keeps i e =
      let own : same_id h.upper.self.id me ≡ true = rw i.1.id (same_id_self me) in
      let runs : node_find_successor p app mc me cb h
          ≡ (new_block p
                >> node_found p app mc (found_here p app mc cb h.upper.self)
                >> find_among_succs p app mc true me cb)
              h =
        rw own refl in
      let never =
        Leads-bind (new_block p >> node_found p app mc (found_here p app mc cb h.upper.self)) _
          (Keeps-bind _ _ (new_block-Keeps p _) (λ _. node_found-Keeps p app mc me keeps false _))
          (λ _. find_again-Leads p app mc me keeps {Q = λ _ _. ⊥} me cb) in
      subst (Post (λ _ _. ⊥)) (sym runs ∙ e) (never.at h i)
