-- ===== src/Tests/Rings.antt =====
-- The theorems on requests, on fingers and on a node that is alone, at concrete inputs.
use fyp_dht.Node.Send.{new_block}
use fyp_dht.Node.Requests.{asks_for}
use fyp_dht.Node.Loop.{LoopEvent, expired}
use fyp_dht.Callback.{node_tm_update_succs}
use fyp_dht.Node.Ring.Alone.{CreatesAlone}
use fyp_dht.Node.Blocks.{after_block}
use fyp_dht.Netio.State.{NetServer}
use fyp_dht.Tests.Runs.{toy-Gives}
use fyp_dht.Prelude.{◌∷◌}
use fyp_dht.Prelude.Outcome.{◌>>◌}
use fyp_dht.Prelude.{
  ℕ, ◌-◌, ◌^◌, ◌≡◌, ◌≤◌, ◌<◌, ◌⊎◌, ◌++◌, inl, refl, false, arith, List, [], pos, some,
}
use fyp_dht.Prelude.Outcome.{ok, ◌>>=◌, ◌>>◌, pure}
use fyp_dht.Ident.Arc.{arc}
use fyp_dht.Platform.{input}
use fyp_dht.Callback.{app_found, finger_update}
use fyp_dht.Wire.Memory.{memory_bytes}
use fyp_dht.Netio.State.{net_valid_connection_num, with_ev}
use fyp_dht.Netio.Server.{Host}
use fyp_dht.Netio.Live.{IsOpen, with_ev-IsValid}
use fyp_dht.Node.State.{NodeSelf, id_bytes, id_bits, unlock_succs}
use fyp_dht.Node.Send.{message_text, request, msg_t_succ_req}
use fyp_dht.Node.Found.{node_found}
use fyp_dht.Node.Find.{node_find_successor, node_fix_a_finger, found_here}
use fyp_dht.Node.Incoming.{incoming_read}
use fyp_dht.Node.Life.{with_net, init_node, node_set_node_msg_handler, common_timeout}
use fyp_dht.Callback.{NodeFoundCbData, found_arg}
use fyp_dht.Wire.Memory.{little_bytes}
use fyp_dht.Prelude.Outcome.{need}
use fyp_dht.Netio.State.{read_slot}
use fyp_dht.Netio.Conn.{ask, bev_of, net_connection_get_write_buffer}
use fyp_dht.Netio.Server.{on_net}
use fyp_dht.Netio.Valid.{IsValid}
use fyp_dht.Netio.Closes.{ClosedOnly}
use fyp_dht.Node.Send.{add_bytes, new_found}
use fyp_dht.Node.Found.{successor_found_for_remote, node_found_remote}
use fyp_dht.Node.Exchange.{Adds, reply, node_found_remote-answer}
use fyp_dht.Node.Requests.{since, incoming_read-succ_request}
use fyp_dht.Node.Ring.Fix.{target, node_fix_a_finger-arc}
use fyp_dht.Node.Ring.Alone.{alone, node_network_create-finds_itself}
use fyp_dht.Node.Ring.Search.{locked}
use fyp_dht.Tests.Toy.{toy, toy-Removes, bytes_of, quiet, little, node_at, process}
use fyp_dht.Tests.Nodes.{process-Inv}
use fyp_dht.Tests.Runs.{accepted_slot, with_connection, with_connection-IsValid}

-- Node 40 asks for the successor of 200.
abbrev sent_id : List ℕ
sent_id = memory_bytes false id_bytes 200 ++ []

abbrev asked : List ℕ
asked = message_text (request (node_at 40) (node_at 10) msg_t_succ_req id_bytes) ++ sent_id

abbrev request_came : Host (List ℕ) NodeSelf
request_came = record with_connection { net = with_ev with_connection.net asked }

request_came-IsOpen : IsOpen (pos 0) request_came.net
unfolding net_valid_connection_num with_net init_node node_set_node_msg_handler common_timeout
request_came-IsOpen = record {
  valid = with_ev-IsValid with_connection.net asked with_connection-IsValid;
  in_range = refl;
  entry = accepted_slot;
  handle = 7;
  at = refl;
  bev = refl;
}

incoming_read-succ_request_example :
    (ev : List ℕ) × (incoming_read toy quiet little (pos 0) request_came
      ≡ asks_for toy quiet little
          (pos 0)
          200
          (since toy bytes_of toy-Removes quiet little request_came ev))
    × (bytes_of ev (input 7) ≡ [])
incoming_read-succ_request_example =
    incoming_read-succ_request toy bytes_of toy-Removes quiet little request_came (pos 0)
      request_came-IsOpen (node_at 40) (node_at 10) 200 sent_id [] (omega arith) refl (inl refl)

abbrev five : ℕ
five = 5

node_fix_a_finger-arc_example :
    ((0 < 5)
      × (5 < id_bits)
      × (arc 10 (target toy quiet little (process []) 5) ≡ 2 ^ (5 - 1))
      × (node_fix_a_finger toy quiet little 5 (process [])
          ≡ (new_block toy
                >> (node_find_successor toy quiet little
                      (target toy quiet little (process []) 5)
                      (finger_update 5)
                    >>= λ rc. pure tt))
              (process [])))
    ⊎ (((five ≡ 0) ⊎ (id_bits ≤ 5))
        × (node_fix_a_finger toy quiet little 5 (process []) ≡ ok (tt, process [])))
node_fix_a_finger-arc_example = node_fix_a_finger-arc toy quiet little 5 (process []) (omega arith)

-- The loop hands over the timer that updates the successors.
abbrev one_timer : List LoopEvent
one_timer = expired node_tm_update_succs ∷ []

node_network_create-finds_itself_example :
    (net : NetServer (List ℕ)) × CreatesAlone toy toy-Gives quiet little one_timer 0
      (process [])
      net
    × (node_find_successor toy quiet little 200
          (app_found 0)
          (record { net = net; upper = alone (process []).upper })
        ≡ (node_found toy quiet little (found_here toy quiet little (app_found 0) (node_at 10))
              >> (unlock_succs >> pure (pos 0)))
            (after_block toy
              (locked toy quiet little (record { net = net; upper = alone (process []).upper }))))
node_network_create-finds_itself_example =
    node_network_create-finds_itself toy toy-Gives quiet little 10 0 200 one_timer (process [])
      (app_found 0) (process-Inv []) (λ e. omega arith) (λ e. omega arith)

toy-Adds : Adds toy bytes_of
toy-Adds = record { appended = λ ev b bytes. refl }

connection-IsOpen : IsOpen (pos 0) with_connection.net
unfolding net_valid_connection_num with_net init_node node_set_node_msg_handler common_timeout
connection-IsOpen = record {
  valid = with_connection-IsValid;
  in_range = refl;
  entry = accepted_slot;
  handle = 7;
  at = refl;
  bev = refl;
}

-- Node 40 is the answer.
abbrev answer_came : Host (List ℕ) NodeSelf
answer_came = record with_connection {
  net = with_ev with_connection.net (reply false (node_at 40) 1 []);
}

answer_came-IsOpen : IsOpen (pos 0) answer_came.net
unfolding net_valid_connection_num with_net init_node node_set_node_msg_handler common_timeout
answer_came-IsOpen = record {
  valid =
      with_ev-IsValid with_connection.net (reply false (node_at 40) 1 []) with_connection-IsValid;
  in_range = refl;
  entry = accepted_slot;
  handle = 7;
  at = refl;
  bev = refl;
}

answer_sent :
    successor_found_for_remote toy quiet little (node_at 40) (pos 0) 0 with_connection
    ≡ ok (tt, answer_came)
unfolding successor_found_for_remote add_bytes net_connection_get_write_buffer bev_of read_slot
    net_valid_connection_num need on_net ask pure ◌>>=◌ memory_bytes little_bytes with_net init_node
    node_set_node_msg_handler common_timeout
answer_sent = refl

abbrev waiting : NodeFoundCbData
waiting = new_found little (app_found 0)

node_found_remote-answer_example :
    (t : Host (List ℕ) NodeSelf) × (node_found_remote toy quiet little
        (pos 0)
        (some (found_arg waiting))
        answer_came
      ≡ node_found toy quiet little (record waiting { node = node_at 40; hops = 1 }) t)
    × (t.upper ≡ answer_came.upper)
    × IsValid t.net
    × ClosedOnly toy (pos 0) answer_came.net t.net
unfolding with_net common_timeout init_node
node_found_remote-answer_example =
    node_found_remote-answer toy bytes_of toy-Removes toy-Adds quiet quiet little little
      with_connection answer_came answer_came (pos 0) (pos 0) connection-IsOpen answer_came-IsOpen
      (node_at 40) 0 waiting refl (omega arith) (omega arith) (omega arith) refl answer_sent refl
