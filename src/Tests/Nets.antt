-- ===== src/Tests/Nets.antt =====
-- The theorems on the server at concrete inputs.
use fyp_dht.Prelude.{
  ℕ, ℤ, zero, suc, ◌≡◌, refl, arith, List, [], ◌∷◌, some, get_elem?, pos, replicate,
}
use fyp_dht.Prelude.Outcome.{ok}
use fyp_dht.Netio.State.{NetConnection, NetServer, max_open_connections}
use fyp_dht.Netio.Server.{net_server_stop}
use fyp_dht.Netio.Conn.{net_connection_close}
use fyp_dht.Netio.Closes.{ClosedOnly, net_connection_close-ClosedOnly}
use fyp_dht.Netio.Valid.{IsValid, Owned}
use fyp_dht.Netio.Close.{FreeBelow, net_server_stop-frees}
use fyp_dht.Netio.Opens.{CreateResult, net_connection_create-Opened}
use fyp_dht.Netio.Table.{Request, creates, closes, Answers, has_bev, calls}
use fyp_dht.Netio.Refines.{calls-Answers}
use fyp_dht.Tests.Toy.{toy, closed_slot, closed_slots, server}

entry_of :
    (n i : ℕ) (c : NetConnection) → get_elem? (replicate n closed_slot) i ≡ some c → closed_slot ≡ c
entry_of zero i c e = ground arith
entry_of (suc n) zero c e = cc
entry_of (suc n) (suc i) c e = entry_of n i c e

pub closed_slots-Owned : Owned closed_slots
closed_slots-Owned i c e = rw (← entry_of 256 i c e) refl

pub server-IsValid : (ev : List ℕ) → IsValid (server ev)
server-IsValid ev = record { size = refl; unlocked = refl; owned = closed_slots-Owned }

net_connection_create-Opened_example : CreateResult toy 100 4000 (server [])
net_connection_create-Opened_example =
    net_connection_create-Opened toy 100 4000 (server []) (server-IsValid [])

net_server_stop-frees_example :
    (t : NetServer (List ℕ)) × (net_server_stop toy (server []) ≡ ok (tt, t))
    × IsValid t
    × FreeBelow max_open_connections t.connections
net_server_stop-frees_example = net_server_stop-frees toy (server []) (server-IsValid [])

net_connection_close-ClosedOnly_example :
    (t : NetServer (List ℕ)) × (net_connection_close toy (pos 3) (server []) ≡ ok (tt, t))
    × IsValid t
    × ClosedOnly toy (pos 3) (server []) t
net_connection_close-ClosedOnly_example =
    net_connection_close-ClosedOnly toy (server []) (pos 3) (server-IsValid [])

abbrev two_requests : List Request
two_requests = creates 100 4000 ∷ closes (pos 0) ∷ []

calls-Answers_example :
    (vs : List ℤ) × (t : NetServer (List ℕ)) × (calls toy two_requests (server []) ≡ ok (vs, t))
    × IsValid t
    × Answers (has_bev (server [])) two_requests vs (has_bev t)
calls-Answers_example = calls-Answers toy two_requests (server []) (server-IsValid [])
