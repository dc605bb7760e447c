-- ===== src/Tests/Named.antt =====
-- A request for a predecessor, and one whether a node is alive, at concrete inputs.
use fyp_dht.Node.Answered.{incoming_read-overreads}
use fyp_dht.Prelude.Outcome.{fault, out_of_bounds}
use fyp_dht.Prelude.{◌≡◌, ◌++◌, refl, false, arith, [], some, pos}
use fyp_dht.Prelude.Outcome.{ok}
use fyp_dht.Platform.{input, output}
use fyp_dht.Callback.{NodeFoundCbData, node_stabilize_sp_found, found_arg}
use fyp_dht.Netio.State.{alter}
use fyp_dht.Netio.Server.{Host}
use fyp_dht.Netio.Valid.{IsValid}
use fyp_dht.Netio.Closes.{ClosedOnly}
use fyp_dht.Netio.Live.{IsOpen, with_ev-IsValid}
use fyp_dht.Node.State.{NodeSelf}
use fyp_dht.Node.Send.{message_text, request, msg_t_pred_req, new_found}
use fyp_dht.Node.Found.{node_found, node_found_remote}
use fyp_dht.Node.Incoming.{incoming_read}
use fyp_dht.Node.System.{named}
use fyp_dht.Node.Named.{pred_reply}
use fyp_dht.Node.Named.Reads.{node_found_remote-named}
use fyp_dht.Node.Send.{msg_t_alive_req}
use fyp_dht.Tests.Toy.{little, node_at, node_ten}
use fyp_dht.Tests.Runs.{accepted_slot}
use fyp_dht.Tests.Pipes.{
  Pipes, held_in, pipes, pipes-Removes, pipes-Adds, pipes-Apart, silent, asked_ten,
  asked_ten-IsOpen,
}

abbrev with_pipes : Pipes → Host Pipes NodeSelf
with_pipes ev = record asked_ten { net = record (asked_ten.net) { ev = ev } }

with_pipes-IsOpen : (ev : Pipes) → IsOpen (pos 0) (with_pipes ev).net
unfolding alter
with_pipes-IsOpen ev = record {
  valid = with_ev-IsValid asked_ten.net ev asked_ten-IsOpen.valid;
  in_range = asked_ten-IsOpen.in_range;
  entry = accepted_slot;
  handle = 7;
  at = refl;
  bev = refl;
}

-- Node 90 asks node 10, whose predecessor is node 5.
abbrev asks_ten : Host Pipes NodeSelf
asks_ten = with_pipes (message_text (request (node_at 90) (node_at 10) msg_t_pred_req 0) ++ [], [])

abbrev told : Host Pipes NodeSelf
told = with_pipes (pred_reply false node_ten, [])

abbrev waits : NodeFoundCbData
waits = new_found little node_stabilize_sp_found

node_found_remote-named_example :
    (answering : Host Pipes NodeSelf) × (t : Host Pipes NodeSelf) × (incoming_read pipes silent
        little
        (pos 0)
        asks_ten
      ≡ ok (tt, answering))
    × (answering.upper ≡ asks_ten.upper)
    × (held_in answering.net.ev (output 7) ≡ held_in told.net.ev (input 7))
    × (node_found_remote pipes silent little (pos 0) (some (found_arg waits)) told
        ≡ node_found pipes silent little (record waits { node = named node_ten }) t)
    × (t.upper ≡ told.upper)
    × IsValid t.net
    × ClosedOnly pipes (pos 0) told.net t.net
node_found_remote-named_example =
    node_found_remote-named pipes held_in pipes-Removes pipes-Adds pipes-Apart silent silent little
      little asks_ten told (pos 0) (pos 0)
      (with_pipes-IsOpen
        (message_text (request (node_at 90) (node_at 10) msg_t_pred_req 0) ++ [], []))
      (with_pipes-IsOpen (pred_reply false node_ten, [])) (node_at 90) (node_at 10) [] waits refl
      (omega arith) (omega arith) (omega arith) (omega arith) refl refl refl

-- Node 90 checks node 10.
abbrev checks_ten : Host Pipes NodeSelf
checks_ten =
    with_pipes (message_text (request (node_at 90) (node_at 10) msg_t_alive_req 0) ++ [], [])

incoming_read-overreads_example :
    incoming_read pipes silent little (pos 0) checks_ten ≡ fault out_of_bounds
incoming_read-overreads_example =
    incoming_read-overreads pipes held_in pipes-Removes silent little checks_ten (pos 0)
      (with_pipes-IsOpen
        (message_text (request (node_at 90) (node_at 10) msg_t_alive_req 0) ++ [], []))
      (node_at 90) (node_at 10) [] refl
