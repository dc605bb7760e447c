-- ===== src/Tests/Nodes.antt =====
-- The theorems on a node's choices and replies at concrete inputs.
use fyp_dht.Node.Send.{new_block}
use fyp_dht.Node.Checks.{with_freed}
use fyp_dht.Prelude.{ℕ, ◌+◌, ◌%◌, ◌≡◌, ◌≢◌, ◌⊎◌, refl, true, false, arith, List, [], set, pos}
use fyp_dht.Prelude.Outcome.{ok, fault, out_of_bounds, pure, ◌>>=◌, ◌>>◌}
use fyp_dht.Ident.{hash_mod}
use fyp_dht.Callback.{NodeInfo, app_found, node_update_succs_found, node_check_pred_result}
use fyp_dht.Netio.Server.{bev_event_eof, bev_event_error, bev_event_timeout}
use fyp_dht.Netio.Close.{close_entry}
use fyp_dht.Node.State.{first_alive_from, node_first_alive_succ, read_succ}
use fyp_dht.Node.Send.{node_find_successor_remote, new_found}
use fyp_dht.Node.Found.{take_successor, update_succs_found, node_update_succ}
use fyp_dht.Node.Find.{node_closest_preceding_node, node_find_successor}
use fyp_dht.Node.Maintain.{node_notified, check_event, has_bits, no_predecessor}
use fyp_dht.Node.Inv.Defs.{Inv}
use fyp_dht.Node.Ring.Predecessor.{Claims, node_notified-Claims}
use fyp_dht.Node.Ring.Alive.{FirstAlive, node_first_alive_succ-FirstAlive}
use fyp_dht.Node.Ring.Fingers.{IsHighest, NoneAbove, closest_preceding-IsHighest}
use fyp_dht.Node.Ring.Search.{own_id-never_found}
use fyp_dht.Node.Ring.Successor.{Nearer, take_successor-Nearer, update_succs-past_end}
use fyp_dht.Node.Checks.{check_event-closes}
use fyp_dht.Tests.Toy.{
  toy, quiet, quiet-AppKeeps, little, closed_slot, server, node_at, node_ten, process,
}
use fyp_dht.Tests.Nets.{server-IsValid}

pub process-Inv : (ev : List ℕ) → Inv 10 false (process ev)
process-Inv ev =
    (server-IsValid ev, record { id = refl; lock = refl; succs = refl; fingers = refl })

node_notified-Claims_example :
    (Claims node_ten (node_at 7)
      × (node_notified node_ten (node_at 7)
          ≡ record node_ten { predecessor = node_at 7; has_pred = true }))
    ⊎ ((¬ Claims node_ten (node_at 7)) × (node_notified node_ten (node_at 7) ≡ node_ten))
node_notified-Claims_example =
    node_notified-Claims node_ten (node_at 7) (omega arith) (omega arith) (omega arith)

node_first_alive_succ-FirstAlive_example :
    FirstAlive 0 node_ten.successor (node_first_alive_succ node_ten)
node_first_alive_succ-FirstAlive_example = node_first_alive_succ-FirstAlive node_ten

closest_preceding-IsHighest_example :
    ((n : NodeInfo) × (node_closest_preceding_node 200 (process []) ≡ ok (n, process []))
      × IsHighest node_ten 200 31 n)
    ⊎ ((node_closest_preceding_node 200 (process [])
          ≡ read_succ (node_first_alive_succ node_ten) (process []))
        × NoneAbove node_ten 200 0 31)
closest_preceding-IsHighest_example = closest_preceding-IsHighest (process []) 200 refl

first_is_forty : node_first_alive_succ node_ten ≡ pos 0
unfolding node_first_alive_succ first_alive_from
first_is_forty = refl

own_id-never_found_example :
    node_find_successor toy quiet little 10 (app_found 0) (process []) ≢ ok (pos 0, process [])
own_id-never_found_example =
    own_id-never_found toy quiet little 10 (process []) (process []) (app_found 0) (pos 0)
      (quiet-AppKeeps 10) (process-Inv [])

take_successor-Nearer_example :
    (Nearer node_ten (node_at 40) (node_at 30)
      × (take_successor toy quiet little (node_at 30) (process [])
          ≡ ok (
            tt,
            record (process []) {
              upper = record node_ten {
                successor = set node_ten.successor 0 (node_at 30);
                succs_lock = false;
              };
            },
          )))
    ⊎ ((¬ Nearer node_ten (node_at 40) (node_at 30))
        × (take_successor toy quiet little (node_at 30) (process [])
            ≡ ok (tt, record (process []) { upper = record node_ten { succs_lock = false } })))
take_successor-Nearer_example =
    take_successor-Nearer toy quiet little 10 (process []) 0 (node_at 40) (node_at 30)
      (process-Inv []) first_is_forty refl (omega arith) (omega arith)

update_succs-past_end_example :
    (node_update_succ toy quiet little (pos 7) (process [])
      ≡ (new_block toy
            >> (new_block toy
                >> (node_find_successor_remote toy little
                      (node_at 90)
                      ((90 + 1) % hash_mod)
                      (new_found little (node_update_succs_found 8))
                    >>= λ rc. pure tt)))
          (process []))
    × (update_succs_found toy quiet little (node_at 95) 8 (process []) ≡ fault out_of_bounds)
update_succs-past_end_example =
    update_succs-past_end toy quiet little 10 (process []) (node_at 90) (node_at 95)
      (process-Inv []) refl (λ e. omega arith)

timed_out : has_bits bev_event_timeout (bev_event_eof + bev_event_error + bev_event_timeout) ≡ true
timed_out = refl

check_event-closes_example :
    check_event toy quiet little (pos 3) bev_event_timeout node_check_pred_result (process [])
    ≡ ok (
      tt,
      record {
        net = with_freed toy quiet little 3 (close_entry toy (server []) 3 closed_slot);
        upper = no_predecessor node_ten;
      },
    )
check_event-closes_example =
    check_event-closes toy quiet little (process []) 3 closed_slot bev_event_timeout
      node_check_pred_result (omega arith) refl tt timed_out
