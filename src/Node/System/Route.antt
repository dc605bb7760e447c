-- ===== src/Node/System/Route.antt =====
-- A search of src/node.c that goes from node to node of a ring that is right, until one answers.
use fyp_dht.Prelude.{ℕ, ◌+◌, ◌%◌, ◌≡◌, ◌≢◌, ◌≤◌, Bool, some, get_elem?, ◌||◌, pos}
use fyp_dht.Prelude.Outcome.{◌>>◌, pure}
use fyp_dht.Ident.{IsId, hash_mod, node_id_in_range}
use fyp_dht.Ident.Arc.{arc}
use fyp_dht.Platform.{Platform}
use fyp_dht.Callback.{NodeInfo, FoundCb}
use fyp_dht.Netio.Server.{Host}
use fyp_dht.Node.State.{NodeSelf, Machine, unlock_succs}
use fyp_dht.Node.Send.{node_find_successor_remote, new_block, new_found}
use fyp_dht.Node.Found.{App, node_found, same_id}
use fyp_dht.Node.Find.{node_find_successor, found_here}
use fyp_dht.Node.Ring.Search.{locked, unlocked}
use fyp_dht.Node.System.{System}
use fyp_dht.Node.System.Inv.{Directory, Known, SystemOk}

module _ {Ev : Type 0} where
  module _ (p : Platform Ev) (app : App Ev) (mc : Machine) (s : System Ev) (id : ℕ) where
    -- A search at process i, whatever its callback is, comes to the answer: it is there, or the search is
    -- the remote one of another process, which then is asked; either with a block from malloc.
    pub data Routes : ℕ → NodeInfo → Type 0 where
      here :
          (i : ℕ) (n : NodeInfo)
          → ((cb : FoundCb)
              → node_find_successor p app mc id cb (s.node i)
                ≡ (new_block p
                      >> (node_found p app mc (found_here p app mc cb n)
                          >> (unlock_succs >> pure (pos 0))))
                    (locked p app mc (s.node i)))
          → Routes i n
      there :
          (i : ℕ) (c n : NodeInfo)
          → ((cb : FoundCb)
              → node_find_successor p app mc id cb (s.node i)
                ≡ (new_block p >> node_find_successor_remote p mc c id (new_found mc cb))
                    (unlocked p app mc (s.node i)))
          → Routes c.id n
          → Routes i n

module _ (Member : ℕ → Type 0) (info : ℕ → NodeInfo) (dir : Directory Member info) where
  -- Every member has the next member as its first successor, and every finger that is set is another
  -- member.
  pub record RightRing {Ev : Type 0} (s : System Ev) : Type 0 where
    pub next :
        (i m : ℕ) (n : NodeInfo)
        → Member i
        → Member m
        → get_elem? (s.node i).upper.successor 0 ≡ some n
        → arc ((i + 1) % hash_mod) n.id ≤ arc ((i + 1) % hash_mod) m
    pub fingers :
        (i k : ℕ) (n : NodeInfo)
        → Member i
        → get_elem? (s.node i).upper.finger_table k ≡ some n
        → n.ip ≢ 0
        → Known Member info n × (n.id ≢ i)

  module _ {Ev : Type 0} (p : Platform Ev) (app : App Ev) (mc : Machine) (s : System Ev)
      (good : SystemOk Member info s) (ring : RightRing s) (id : ℕ) (hd : IsId id)
      (none_own : ¬ Member id) where
    abbrev Found : ℕ → Type 0
    Found i =
        (n : NodeInfo) × Routes p app mc s id i n
        × Known Member info n
        × ((m : ℕ) → Member m → arc id n.id ≤ arc id m)

    abbrev tests : Host Ev NodeSelf → NodeInfo → Bool
    tests h n = node_id_in_range id h.upper.self.id n.id || same_id h.upper.self.id n.id
