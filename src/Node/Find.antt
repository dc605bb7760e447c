-- ===== src/Node/Find.antt =====
-- How a node of src/node.c finds the successor of an id.
use fyp_dht.Prelude.{
  ℕ, zero, suc, ◌+◌, ◌%◌, Bool, true, false, not, Option, none, some, ◌==◌, ltb, ◌&&◌, ◌||◌,
  if◌then◌else◌, ℤ, pos,
}
use fyp_dht.Prelude.Outcome.{
  Outcome, ok, fault, freed_memory, ◌>>=◌, ◌>>◌, pure, fail, when, if_some,
}
use fyp_dht.Ident.{node_id_in_range, hash_mod, two_to_the_n}
use fyp_dht.Platform.{Platform}
use fyp_dht.Callback.{
  NodeInfo, NodeFoundCbData, FoundCb, finger_update, node_successor_found_for_remote,
}
use fyp_dht.Node.State.{
  NodeSelf, Machine, NodeM, the_node, lock_succs, unlock_succs, read_succ, read_finger,
  node_first_alive_succ, id_bits,
}
use fyp_dht.Node.Send.{node_find_successor_remote, new_block, new_found}
use fyp_dht.Node.Found.{App, node_found, same_id}

-- A finger that is set, and lies in the range from this node to the id.
abbrev pub precedes : NodeSelf → ℕ → NodeInfo → Bool
precedes s id n =
    not (n.ip == 0) && not (n.port == 0) && not (n.id == 0) && node_id_in_range n.id s.self.id id

-- The callbacks that free their argument before they return.
abbrev pub frees_argument : FoundCb → Bool
frees_argument (finger_update n) = true
frees_argument (node_successor_found_for_remote c) = true
frees_argument _ = false

module _ {Ev : Type 0} where
  -- The loop over the fingers from number `i` down to 1.
  unfoldable pub finger_before : ℕ → ℕ → NodeM Ev (Option NodeInfo)
  finger_before zero id = pure none
  finger_before (suc i) id = do
    s ← the_node
    n ← read_finger (suc i)
    if precedes s id n then pure (some n) else finger_before i id

  -- With finger tables, as the code is built by default.
  unfoldable pub node_closest_preceding_node : ℕ → NodeM Ev NodeInfo
  node_closest_preceding_node id = do
    finger ← finger_before 31 id
    if_some finger pure (do s ← the_node; read_succ (node_first_alive_succ s))

module _ {Ev : Type 0} (p : Platform Ev) (app : App Ev) (mc : Machine) where
  abbrev pub found_here : FoundCb → NodeInfo → NodeFoundCbData
  found_here cb node = record { cb = cb; node = node; hops = 0 }

  -- The statements behind the `else`, of which only the lock belongs to it. `again` says that the
  -- callback has run before.
  unfoldable pub ask_around : ℕ → FoundCb → NodeM Ev ℤ
  ask_around id cb = do
    unlock_succs
    n ← node_closest_preceding_node id
    new_block p
    node_find_successor_remote p mc n id (new_found mc cb)

  unfoldable pub answer : Bool → FoundCb → NodeInfo → NodeM Ev ℤ
  answer again cb succ = do
    new_block p
    when (again && frees_argument cb) (fail freed_memory)
    node_found p app mc (found_here cb succ)
    unlock_succs
    pure (pos 0)

  unfoldable pub find_among_succs : Bool → ℕ → FoundCb → NodeM Ev ℤ
  find_among_succs again id cb = do
    s ← the_node
    succ ← read_succ (node_first_alive_succ s)
    if node_id_in_range id s.self.id succ.id || same_id s.self.id succ.id
        then answer again cb succ
        else ask_around id cb

  unfoldable pub node_find_successor : ℕ → FoundCb → NodeM Ev ℤ
  node_find_successor id cb = do
    s ← the_node
    if same_id s.self.id id
        then new_block p
          >> node_found p app mc (found_here cb s.self)
          >> find_among_succs true id cb
        else lock_succs >> find_among_succs false id cb

  unfoldable pub fix_finger : ℕ → Outcome ℕ → NodeM Ev (Unit {0})
  fix_finger finger_num (fault e) = fail e
  fix_finger finger_num (ok power) = do
    s ← the_node
    new_block p
    rc ← node_find_successor ((s.self.id + power) % hash_mod) (finger_update finger_num)
    pure tt

  unfoldable pub node_fix_a_finger : ℕ → NodeM Ev (Unit {0})
  node_fix_a_finger zero = pure tt
  node_fix_a_finger (suc n) =
      if ltb (suc n) id_bits then fix_finger (suc n) (two_to_the_n (pos n)) else pure tt

  unfoldable pub fix_from : ℕ → ℕ → NodeM Ev (Unit {0})
  fix_from zero fnum = pure tt
  fix_from (suc left) fnum = node_fix_a_finger fnum >> fix_from left (suc fnum)

  unfoldable pub node_fix_fingers : NodeM Ev (Unit {0})
  node_fix_fingers = fix_from id_bits 0
