-- ===== src/Tests/Texts.antt =====
-- The theorems on the program that sends lines of text, at concrete inputs.
use fyp_dht.Node.Send.{new_block}
use fyp_dht.Node.Loop.{run_loop}
use fyp_dht.Prelude.{
  ℕ, ◌≡◌, ◌≤◌, ◌<◌, ◌⊎◌, refl, true, false, List, [], ◌∷◌, some, none, set, pos, arith,
}
use fyp_dht.Prelude.Outcome.{ok, fault, overflow, out_of_bounds}
use fyp_dht.Ident.{get_id}
use fyp_dht.Platform.{input}
use fyp_dht.Callback.{NodeMessage, null_node}
use fyp_dht.Wire.Memory.{memory_value}
use fyp_dht.Netio.State.{with_ev, net_valid_connection_num, read_slot}
use fyp_dht.Netio.Server.{Host, net_server_create, on_net, net_connection_read_cb}
use fyp_dht.Netio.Live.{IsOpen}
use fyp_dht.Node.State.{NodeSelf, write_succ, change, the_node}
use fyp_dht.Node.Incoming.{c_string}
use fyp_dht.Node.Inv.Defs.{Inv}
use fyp_dht.Textsend.{
  Calls, received, read_in_msg, peer_ip, main, textsend, join_or_create, strtoul10, decimal,
}
use fyp_dht.Wire.Header.{is_space}
use fyp_dht.Prelude.Outcome.{◌>>=◌}
use fyp_dht.Node.Life.{
  node_create, node_network_create, net_server_run, with_net, init_node, node_set_node_msg_handler,
  common_timeout,
}
use fyp_dht.Node.Loop.{handle_event, readable}
use fyp_dht.Netio.Conn.{ask, call}
use fyp_dht.Textsend.Keeps.{start, step, handles, main-Inv}
use fyp_dht.Textsend.Reads.{read_in_msg-prints}
use fyp_dht.Textsend.Peer.{peer_ip-big_endian}
use fyp_dht.Tests.Toy.{toy, little, no_message, closed_slots}
use fyp_dht.Tests.Nets.{closed_slots-Owned}
use fyp_dht.Tests.Runs.{
  digest, block, made, accepted_slot, with_connection, with_connection-IsValid,
}

abbrev plain : Calls (List ℕ)
plain = record {
  new_string = λ ev text. (some 0, ev);
  string_at = λ ev n. none;
  free = λ ev n. ev;
  evbuffer_pullup = λ ev b. (some ev, ev);
  evbuffer_drain = λ ev b. [];
  print = λ ev text. ev;
  pthread_create = λ ev. ev;
  inet_pton = λ text. none;
}

peer_ip-big_endian_example :
    ((127 < 128)
      × (peer_ip 4 (127 ∷ 0 ∷ 0 ∷ 1 ∷ []) 0 ≡ ok (memory_value true (127 ∷ 0 ∷ 0 ∷ 1 ∷ []))))
    ⊎ ((128 ≤ 127) × (peer_ip 4 (127 ∷ 0 ∷ 0 ∷ 1 ∷ []) 0 ≡ fault overflow))
peer_ip-big_endian_example =
    peer_ip-big_endian 127 0 0 1 (omega arith) (omega arith) (omega arith) (omega arith)

abbrev text_came : Host (List ℕ) NodeSelf
text_came = record with_connection {
  net = record (with_connection.net) { ev = 104 ∷ 105 ∷ 33 ∷ [] };
}

text_came-IsOpen : IsOpen (pos 0) text_came.net
unfolding net_valid_connection_num with_net init_node node_set_node_msg_handler common_timeout
text_came-IsOpen = record {
  valid = record {
    size = with_connection-IsValid.size;
    unlocked = with_connection-IsValid.unlocked;
    owned = with_connection-IsValid.owned;
  };
  in_range = refl;
  entry = accepted_slot;
  handle = 7;
  at = refl;
  bev = refl;
}

abbrev two_bytes : NodeMessage
two_bytes = record no_message { len = 2 }

read_in_msg-prints_example :
    ((2 < 3)
      × (read_in_msg toy plain two_bytes (pos 0) text_came
          ≡ ok (
            tt,
            record text_came {
              net = with_ev text_came.net (
                  plain.evbuffer_drain
                    (plain.print text_came.net.ev (received (c_string (104 ∷ 105 ∷ []))))
                    (input 7));
            },
          )))
    ⊎ ((3 ≤ 2) × (read_in_msg toy plain two_bytes (pos 0) text_came ≡ fault out_of_bounds))
unfolding with_net init_node node_set_node_msg_handler common_timeout
read_in_msg-prints_example =
    read_in_msg-prints toy plain two_bytes (pos 0) text_came (104 ∷ 105 ∷ 33 ∷ []) text_came-IsOpen
      refl

-- The program is started with a port and a name only, and creates a network.
abbrev started : Host (List ℕ) NodeSelf
started = record made {
  upper = record (node_set_node_msg_handler 0 0 made.upper) {
    successor = set made.upper.successor 0 made.upper.self;
    predecessor = made.upper.self;
    has_pred = true;
  };
}

abbrev arguments : List (List ℕ)
arguments = [] ∷ (52 ∷ 48 ∷ 48 ∷ 48 ∷ []) ∷ (97 ∷ []) ∷ []

has_started :
    main toy plain null_node little [] digest block closed_slots [] null_node arguments []
    ≡ ok (some (pos 0, started))
unfolding main join_or_create node_create net_server_create node_network_create net_server_run
    strtoul10 decimal is_space with_net init_node node_set_node_msg_handler common_timeout
    write_succ change the_node new_block run_loop ◌>>=◌ on_net ask call
has_started = refl

nothing_read :
    handle_event toy (textsend toy plain null_node) little (readable (pos 3)) started
    ≡ ok (tt, started)
unfolding handle_event net_connection_read_cb net_valid_connection_num on_net read_slot ◌>>=◌
    with_net init_node node_set_node_msg_handler common_timeout
nothing_read = refl

main-Inv_example : Inv (get_id digest (97 ∷ [])) false started
main-Inv_example =
    main-Inv toy plain null_node little digest [] block closed_slots [] null_node []
      (52 ∷ 48 ∷ 48 ∷ 48 ∷ []) (97 ∷ []) [] [] (pos 0) started started refl closed_slots-Owned refl
      has_started (step started started start (handles (readable (pos 3)) nothing_read))
