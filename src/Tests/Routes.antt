-- ===== src/Tests/Routes.antt =====
-- A search on a ring of three nodes.
use fyp_dht.Prelude.{ℕ, ◌≡◌, ◌≢◌, List, [], some, get_elem?, replicate, ◌==◌, if◌then◌else◌}
use fyp_dht.Callback.{NodeInfo, null_node}
use fyp_dht.Node.State.{NodeSelf}
use fyp_dht.Node.Inv.Defs.{Inv}
use fyp_dht.Node.System.{System}
use fyp_dht.Node.System.Inv.{NodeOk, Known}
use fyp_dht.Tests.Toy.{node_at, server}
use fyp_dht.Tests.Systems.{Three, node_of}

-- Node 10 has node 20 as its finger 3; the others have no fingers.
abbrev settled_at : ℕ → NodeSelf
settled_at i =
    if i == 10
    then node_of 10 (node_at 20) (node_at 40)
    else record (node_of i (if i == 20 then node_at 40 else node_at 10)
        (if i == 20 then node_at 10 else node_at 20)) { finger_table = replicate 32 null_node }

abbrev settled : System (List ℕ)
settled = record { node = λ i. record { net = server []; upper = settled_at i }; letters = [] }

abbrev Fine : ℕ → Type 0
Fine i = NodeOk Three node_at i (settled.node i)

abbrev Right : ℕ → Type 0
Right i =
    (k : ℕ) (n : NodeInfo)
    → get_elem? (settled_at i).finger_table k ≡ some n
    → n.ip ≢ 0
    → Known Three node_at n × (n.id ≢ i)
