-- ===== src/Tests/Wrappers.antt =====
-- The theorems on several handlers behind one server, and on headers, at concrete inputs.
use fyp_dht.Prelude.{
  ℕ, ◌+◌, ◌≡◌, ◌<◌, ◌⊎◌, ◌++◌, refl, false, arith, List, [], ◌∷◌, some, none, Option, replicate,
  set, ℤ, pos, negsuc, true, is_negative,
}
use fyp_dht.Prelude.Outcome.{ok, fault, out_of_bounds, null_pointer, pure}
use fyp_dht.Platform.{input, output}
use fyp_dht.Callback.{NodeMessage, CbArg, self_arg, EventCb, app_event}
use fyp_dht.Netio.Server.{Host, net_server_create}
use fyp_dht.Node.State.{NodeSelf}
use fyp_dht.Node.Send.{message_text}
use fyp_dht.Node.Incoming.{node_parse_message_header}
use fyp_dht.Node.Headers.{header-message_text}
use fyp_dht.Wire.Header.{hex_digits}
use fyp_dht.NetWrapper.Numbers.{strtol16-trimmed}
use fyp_dht.NetWrapper.{
  trimmed, strtol16, NetwHandler, Netw, NetwM, netw_register_handler, netw_incomming_cb,
}
use fyp_dht.NetWrapper.Handlers.{
  handler, netw_register_handler-next_place, netw_incomming_cb-never_runs,
}
use fyp_dht.NetWrapper.{no_handler, netw_net_connection_create, netw_net_server_create}
use fyp_dht.NetWrapper.Connects.{
  handler_line, netw_net_connection_create-opens, netw_net_server_create-IsValid,
}
use fyp_dht.Netio.State.{NetServer, with_ev}
use fyp_dht.Netio.Valid.{IsValid}
use fyp_dht.Netio.Conn.{net_connection_create}
use fyp_dht.Netio.Live.{IsOpen}
use fyp_dht.Tests.Nets.{server-IsValid, closed_slots-Owned}
use fyp_dht.Node.Names.{node_msg_type_str}
use fyp_dht.Tests.Toy.{
  toy, toy-Removes, bytes_of, quiet, little, no_message, server, closed_slots, process,
}

abbrev hello : NodeMessage
hello = record no_message { type = b'M'; len = 2; content = some (104 ∷ 105 ∷ []) }

header-message_text_example :
    (t : Host (List ℕ) NodeSelf) × (node_parse_message_header toy quiet little
        (input 7)
        (process (message_text hello ++ []))
      ≡ ok (some (record no_message { type = b'M'; len = 2 }), t))
    × (t.net.ev ≡ 104 ∷ 105 ∷ [])
    × (t.upper ≡ (process []).upper)
header-message_text_example =
    header-message_text toy bytes_of toy-Removes quiet little (input 7)
      (process (message_text hello ++ [])) hello [] (omega arith) (omega arith) refl

abbrev unset : NetwHandler
unset = record { incoming_connection_cb = none; incoming_cb_arg = none }

abbrev unset_block : ℕ → List NetwHandler
unset_block n = replicate n unset

abbrev wrapper : ℕ → Host (List ℕ) Netw
wrapper n = record {
  net = server [];
  upper = record {
    handlers_lock = false;
    netw_num_handlers = n;
    netw_max_handlers = 8;
    handlers = some (unset_block 8);
  };
}

-- The eighth registration.
netw_register_handler-next_place_example :
    ((7 + 1 < 8)
      × (netw_register_handler toy unset_block (app_event 1) (some self_arg) (wrapper 7)
          ≡ ok (
            pos 7,
            record (wrapper 7) {
              upper = record ((wrapper 7).upper) {
                netw_num_handlers = 7 + 1;
                handlers =
                    some (set (unset_block 8) (7 + 1) (handler (app_event 1) (some self_arg)));
              };
            },
          )))
    ⊎ ((7 + 1 ≡ 8)
        × (netw_register_handler toy unset_block (app_event 1) (some self_arg) (wrapper 7)
            ≡ fault out_of_bounds))
netw_register_handler-next_place_example =
    netw_register_handler-next_place toy unset_block (wrapper 7) (unset_block 8) (app_event 1)
      (some self_arg) refl refl refl (omega arith)

abbrev runs_nothing : EventCb → ℤ → ℕ → Option CbArg → NetwM (List ℕ) (Unit {0})
runs_nothing cb conn what arg = pure tt

abbrev runs_badly : EventCb → ℤ → ℕ → Option CbArg → NetwM (List ℕ) (Unit {0})
runs_badly cb conn what arg h = fault out_of_bounds

netw_incomming_cb-never_runs_example :
    netw_incomming_cb toy unset_block runs_nothing (pos 0) 2 (wrapper 3)
    ≡ netw_incomming_cb toy unset_block runs_badly (pos 0) 2 (wrapper 3)
netw_incomming_cb-never_runs_example =
    netw_incomming_cb-never_runs toy unset_block runs_nothing runs_badly (pos 0) 2 (wrapper 3) refl

strtol16-trimmed_example : strtol16 (trimmed (hex_digits 8 48879)) ≡ pos 48879
strtol16-trimmed_example = strtol16-trimmed 48879 (omega arith)

netw_net_connection_create-opens_example :
    ((no_handler (pos 3) (wrapper 7).upper ≡ true)
      × (netw_net_connection_create toy unset_block 100 4000 (pos 3) (wrapper 7)
          ≡ ok (negsuc 0, wrapper 7)))
    ⊎ (((no_handler (pos 3) (wrapper 7).upper ≡ false)
          × ((r : ℤ) × (n : NetServer (List ℕ)) × (is_open : IsOpen r n) × (net_connection_create
                  toy 100 4000
                  (wrapper 7).net
                ≡ ok (r, n))
              × (netw_net_connection_create toy unset_block 100 4000 (pos 3) (wrapper 7)
                  ≡ ok (
                    r,
                    record (wrapper 7) {
                      net =
                          with_ev n
                            (toy.evbuffer_add_printf n.ev
                              (output is_open.handle)
                              (handler_line toy unset_block (pos 3))).1;
                    },
                  ))))
        ⊎ ((no_handler (pos 3) (wrapper 7).upper ≡ false)
            × ((r : ℤ) × (n : NetServer (List ℕ)) × (is_negative r ≡ true)
                × (net_connection_create toy 100 4000 (wrapper 7).net ≡ ok (r, n))
                × (netw_net_connection_create toy unset_block 100 4000 (pos 3) (wrapper 7)
                    ≡ fault null_pointer))))
netw_net_connection_create-opens_example =
    netw_net_connection_create-opens toy unset_block 100 4000 (pos 3) (wrapper 7) refl
      (server-IsValid [])

netw_net_server_create-IsValid_example :
    ((srv : NetServer (List ℕ)) × (netw_net_server_create toy unset_block
          (app_event 1)
          self_arg
          closed_slots
          4000
          []
        ≡ ok srv)
      × IsValid srv
      × (srv.incoming_handler ≡ app_event 1)
      × (srv.incoming_handler_arg ≡ some self_arg))
    ⊎ (((net_server_create toy closed_slots 4000 (app_event 1) none []).0 ≡ none)
        × (netw_net_server_create toy unset_block (app_event 1) self_arg closed_slots 4000 []
            ≡ fault null_pointer))
netw_net_server_create-IsValid_example =
    netw_net_server_create-IsValid toy unset_block (app_event 1) self_arg closed_slots 4000 [] refl
      closed_slots-Owned

-- A reply is not named as its request is.
reply_name : node_msg_type_str b's' ≡ "RESP_SUCC"
unfolding node_msg_type_str
reply_name = refl
