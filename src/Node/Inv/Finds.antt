-- ===== src/Node/Inv/Finds.antt =====
-- node_find_successor and the fingers of src/node.c, and the invariant.
use fyp_dht.Prelude.{ℕ, zero, suc, Bool, true, false, some, ℤ}
use fyp_dht.Prelude.Outcome.{Outcome, ok, fault, ◌>>=◌, ◌>>◌, pure}
use fyp_dht.Prelude.Leads.{Leads, Keeps, keeps_rules, Leads-bind, Keeps-bind, Leads-if, Leads-pure}
use mathlib.Core.Bool.{◌||◌}
use fyp_dht.Ident.{node_id_in_range}
use fyp_dht.Node.Send.{node_find_successor_remote, new_block, new_found}
use fyp_dht.Platform.{Platform}
use fyp_dht.Callback.{NodeInfo, FoundCb}
use fyp_dht.Node.State.{NodeSelf, Machine, NodeM}
use fyp_dht.Netio.Server.{Host}
use fyp_dht.Node.Found.{App, same_id}
use fyp_dht.Node.Find.{
  precedes, finger_before, node_closest_preceding_node, ask_around, answer, find_among_succs,
  node_find_successor, fix_finger, node_fix_a_finger, fix_from, node_fix_fingers,
}
use fyp_dht.Node.Inv.Defs.{
  Inv, the_node-Keeps, read_succ-Keeps, read_finger-Keeps, node_rules, Leads-then, lock_succs-Leads,
  unlock_succs-Leads, unlocked_out,
}
use fyp_dht.Node.Inv.Sends.{new_block-Keeps, node_find_successor_remote-Keeps}
use fyp_dht.Node.Inv.Founds.{AppKeeps, node_found-Keeps}

module _ {Ev : Type 0} (me : ℕ) (held : Bool) where
  finger_before-Keeps : (i id : ℕ) → Keeps (Inv {Ev = Ev} me held) (finger_before i id)
  unfolding finger_before
  finger_before-Keeps zero id = search node_rules
  finger_before-Keeps (suc i) id = Keeps-bind _ _ the_node-Keeps (λ s.
      Keeps-bind _ _ (read_finger-Keeps (suc i)) (λ n.
        Leads-if (precedes s id n) (pure (some n)) (finger_before i id) (λ _. Leads-pure (some n))
          (λ _. finger_before-Keeps i id)))

  pub node_closest_preceding_node-Keeps :
      (id : ℕ) → Keeps (Inv {Ev = Ev} me held) (node_closest_preceding_node id)
  unfolding node_closest_preceding_node
  node_closest_preceding_node-Keeps id = search (node_rules, finger_before-Keeps) depth 8

module _ {Ev : Type 0} (p : Platform Ev) (app : App Ev) (mc : Machine) (me : ℕ)
    (keeps : AppKeeps app me) where
  ask_around-Leads :
      (id : ℕ) (cb : FoundCb) → Leads (Inv me true) (ask_around p app mc id cb) (λ _. Inv me false)
  unfolding ask_around
  ask_around-Leads id cb = Leads-bind _ _ unlock_succs-Leads (λ _.
      search
        (
          node_rules, node_closest_preceding_node-Keeps, new_block-Keeps,
          node_find_successor_remote-Keeps,
        )
        depth 8)

  answer-Leads :
      (again : Bool) (cb : FoundCb) (n : NodeInfo)
      → Leads (Inv me true) (answer p app mc again cb n) (λ _. Inv me false)
  unfolding answer
  answer-Leads again cb n = Leads-then _ _ (new_block-Keeps p _) (λ _.
      Leads-then _ _ (search node_rules) (λ _.
        Leads-then _ _ (node_found-Keeps p app mc me keeps true _)
          (λ _. Leads-bind _ _ unlock_succs-Leads (λ _. search node_rules))))

  find_among_succs-Leads :
      (id : ℕ) (cb : FoundCb)
      → Leads (Inv me true) (find_among_succs p app mc false id cb) (λ _. Inv me false)
  unfolding find_among_succs
  find_among_succs-Leads id cb =
      search
        (
          the_node-Keeps, read_succ-Keeps, read_finger-Keeps, node_rules, Leads-then,
          ask_around-Leads, answer-Leads,
        )
        depth 8

  answer_again-Leads :
      {Q : ℤ → Host Ev NodeSelf → Type 0} (cb : FoundCb) (n : NodeInfo)
      → Leads (Inv me false) (answer p app mc true cb n) Q
  unfolding answer
  answer_again-Leads cb n = Leads-bind _ _ (new_block-Keeps p _) (λ _.
      Leads-bind _ _ (search keeps_rules)
        (λ _. Leads-bind _ _ (node_found-Keeps p app mc me keeps false _) (λ _. unlocked_out _)))

  abbrev around : ℕ → FoundCb → NodeM Ev ℤ
  around id cb = node_closest_preceding_node id >>= λ n.
      new_block p >> node_find_successor_remote p mc n id (new_found mc cb)

  -- With the lock free, and the callback run before, the second round never comes to an end.
  pub find_again-Leads :
      {Q : ℤ → Host Ev NodeSelf → Type 0} (id : ℕ) (cb : FoundCb)
      → Leads (Inv me false) (find_among_succs p app mc true id cb) Q
  unfolding find_among_succs ask_around
  find_again-Leads id cb = Leads-bind _ _ the_node-Keeps (λ s.
      Leads-bind _ _ (read_succ-Keeps _) (λ n.
        Leads-if (node_id_in_range id s.self.id n.id || same_id s.self.id n.id)
          (answer p app mc true cb n) (ask_around p app mc id cb) (λ _. answer_again-Leads cb n)
          (λ _. unlocked_out (around id cb))))

  -- The lock is free when a successor is looked for, and when the search is over.
  pub node_find_successor-Keeps :
      (id : ℕ) (cb : FoundCb) → Keeps (Inv me false) (node_find_successor p app mc id cb)
  unfolding node_find_successor
  node_find_successor-Keeps id cb = Leads-bind _ _ the_node-Keeps (λ s.
      Leads-if (same_id s.self.id id) _ _
        (λ _.
          Leads-bind _ _
            (Keeps-bind _ _ (new_block-Keeps p _) (λ _. node_found-Keeps p app mc me keeps false _))
            (λ _. find_again-Leads id cb))
        (λ _. Leads-bind _ _ lock_succs-Leads (λ _. find_among_succs-Leads id cb)))

  fix_finger-Keeps : (i : ℕ) (o : Outcome ℕ) → Keeps (Inv me false) (fix_finger p app mc i o)
  unfolding fix_finger
  fix_finger-Keeps i (fault e) = search keeps_rules
  fix_finger-Keeps i (ok power) =
      search (node_rules, new_block-Keeps, node_find_successor-Keeps) depth 8

  pub node_fix_a_finger-Keeps : (i : ℕ) → Keeps (Inv me false) (node_fix_a_finger p app mc i)
  unfolding node_fix_a_finger
  node_fix_a_finger-Keeps zero = search keeps_rules
  node_fix_a_finger-Keeps (suc i) = search (keeps_rules, fix_finger-Keeps)

  fix_from-Keeps : (left i : ℕ) → Keeps (Inv me false) (fix_from p app mc left i)
  unfolding fix_from
  fix_from-Keeps zero i = search keeps_rules
  fix_from-Keeps (suc left) i =
      Keeps-bind _ _ (node_fix_a_finger-Keeps i) (λ _. fix_from-Keeps left (suc i))

  pub node_fix_fingers-Keeps : Keeps (Inv me false) (node_fix_fingers p app mc)
  unfolding node_fix_fingers
  node_fix_fingers-Keeps = fix_from-Keeps 32 0
