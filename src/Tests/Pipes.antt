-- ===== src/Tests/Pipes.antt =====
-- A platform with one input and one output buffer; a search and a notification at concrete inputs.
use mathlib.Core.Option
use fyp_dht.Node.Blocks.{Gives}
use fyp_dht.Prelude.{◌∷◌, ◌==◌, if◌then◌else◌}
use fyp_dht.Node.Lookup.{Leaves}
use fyp_dht.Prelude.{
  ℕ, ◌+◌, ◌≡◌, ◌++◌, refl, true, false, arith, List, [], Option, some, none, pos, take, drop,
  length,
}
use fyp_dht.Prelude.Outcome.{ok, pure}
use fyp_dht.Ident.{node_id_in_range}
use fyp_dht.Platform.{Platform, Evbuffer, input, output}
use fyp_dht.Callback.{self_arg, incoming_connection}
use fyp_dht.Wire.Memory.{memory_bytes}
use fyp_dht.Netio.State.{net_valid_connection_num, alter}
use fyp_dht.Netio.Server.{Host}
use fyp_dht.Netio.Slots.{length-alter}
use fyp_dht.Netio.Valid.{IsValid, Owned-alter}
use fyp_dht.Netio.Live.{IsOpen}
use fyp_dht.Node.State.{NodeSelf, id_bytes, node_first_alive_succ, first_alive_from}
use fyp_dht.Node.Send.{message_text, request, msg_t_succ_req}
use fyp_dht.Node.Found.{App}
use fyp_dht.Node.Incoming.{incoming_read}
use fyp_dht.Node.Replies.{Removes}
use fyp_dht.Node.Exchange.{Adds, reply}
use fyp_dht.Node.Lookup.{Apart, incoming_read-answers}
use fyp_dht.Node.Send.{msg_t_notif}
use fyp_dht.Node.Maintain.{node_notified}
use fyp_dht.Node.Notify.{incoming_read-notified}
use fyp_dht.Netio.Closes.{ClosedOnly}
use fyp_dht.Netio.Live.{with_ev-IsValid}
use fyp_dht.Tests.Toy.{little, closed_slots, node_at, node_ten}
use fyp_dht.Tests.Nets.{closed_slots-Owned}
use fyp_dht.Tests.Runs.{accepted_slot}

-- What evbuffer_readln gives: the bytes before the first line feed, and none if there is none.
abbrev first_line : List ℕ → Option (List ℕ)
first_line [] = none
first_line (c ∷ cs) = if c == 10 then some [] else Option.map (◌∷◌ c) (first_line cs)

-- What the input buffer and what the output buffer holds.
abbrev pub Pipes : Type 0
Pipes = List ℕ × List ℕ

abbrev pub held_in : Pipes → Evbuffer → List ℕ
held_in ev (input b) = ev.0
held_in ev (output b) = ev.1

abbrev pub taken_from : Pipes → Evbuffer → ℕ → Option (List ℕ) × Pipes
taken_from ev (input b) w = (some (take w ev.0), (drop w ev.0, ev.1))
taken_from ev (output b) w = (some (take w ev.1), (ev.0, drop w ev.1))

abbrev pub added_to : Pipes → Evbuffer → List ℕ → Pipes
added_to ev (input b) bytes = (ev.0 ++ bytes, ev.1)
added_to ev (output b) bytes = (ev.0, ev.1 ++ bytes)

abbrev pub line_taken : Pipes → Evbuffer → Option (List ℕ) → Pipes
line_taken ev b none = ev
line_taken ev b (some line) = (taken_from ev b (length line + 1)).1

abbrev pub pipes : Platform Pipes
pipes = record {
  malloc = λ ev. (true, ev);
  mutex_init = λ ev. (true, ev);
  event_base_new = λ ev. (true, ev);
  event_base_free = λ ev. ev;
  event_base_loopbreak = λ ev. ev;
  evconnlistener_new_bind = λ ev port. (true, ev);
  evconnlistener_free = λ ev. ev;
  bufferevent_socket_new = λ ev fd. (some 7, ev);
  bufferevent_free = λ ev b. ev;
  bufferevent_setcb = λ ev b i. ev;
  bufferevent_enable = λ ev b. ev;
  bufferevent_set_timeouts = λ ev b r w. ev;
  bufferevent_setwatermark = λ ev b n. ev;
  bufferevent_socket_connect = λ ev b sin. (true, ev);
  getpeername = λ ev b. 9;
  evbuffer_remove = taken_from;
  evbuffer_add = λ ev b bytes. (true, added_to ev b bytes);
  evbuffer_add_printf = λ ev b bytes. (true, added_to ev b bytes);
  evbuffer_get_length = λ ev b. length (held_in ev b);
  evbuffer_readln =
      λ ev b. (first_line (held_in ev b), line_taken ev b (first_line (held_in ev b)));
  event_base_init_common_timeout = λ ev secs. (some secs, ev);
  event_new = λ ev persist cb. (some 1, ev);
  event_add = λ ev e tm. ev;
  event_active = λ ev e. ev;
  event_base_loop = λ ev. ev;
}

removed_bytes :
    (ev : Pipes) (b : Evbuffer) (w : ℕ) → (taken_from ev b w).0 ≡ some (take w (held_in ev b))
removed_bytes ev (input b) w = refl
removed_bytes ev (output b) w = refl

removed_rest :
    (ev : Pipes) (b : Evbuffer) (w : ℕ) → held_in (taken_from ev b w).1 b ≡ drop w (held_in ev b)
removed_rest ev (input b) w = refl
removed_rest ev (output b) w = refl

pub pipes-Removes : Removes pipes held_in
pipes-Removes = record { bytes = removed_bytes; rest = removed_rest }

appended_bytes :
    (ev : Pipes) (b : Evbuffer) (bytes : List ℕ)
    → held_in (added_to ev b bytes) b ≡ held_in ev b ++ bytes
appended_bytes ev (input b) bytes = refl
appended_bytes ev (output b) bytes = refl

pub pipes-Adds : Adds pipes held_in
pipes-Adds = record { appended = appended_bytes }

pub pipes-Apart : Apart pipes held_in
pipes-Apart = record { left = λ ev b w. refl }

abbrev pub silent : App Pipes
silent = record {
  joined_cb = λ f. pure tt;
  found_cb = λ f n hops. pure tt;
  message_cb = λ f msg conn arg. pure tt;
  data_cb = λ f conn arg. pure tt;
  event_cb = λ f conn what arg. pure tt;
}

-- Node 10, with a connection in entry 0 over which node 90 asks for the successor of 30.
abbrev pub asked_ten : Host Pipes NodeSelf
asked_ten = record {
  net = record {
    ev = (
      message_text (request (node_at 90) (node_at 10) msg_t_succ_req id_bytes)
          ++ (memory_bytes false id_bytes 30 ++ []),
      [],
    );
    connections = alter closed_slots 0 (λ c. accepted_slot);
    connections_lock = false;
    incoming_handler = incoming_connection;
    incoming_handler_arg = some self_arg;
  };
  upper = node_ten;
}

pub asked_ten-IsOpen : IsOpen (pos 0) asked_ten.net
unfolding net_valid_connection_num alter
asked_ten-IsOpen = record {
  valid = record {
    size = length-alter closed_slots 0 (λ c. accepted_slot);
    unlocked = refl;
    owned = Owned-alter closed_slots 0 (λ c. accepted_slot) (λ c e. refl) closed_slots-Owned;
  };
  in_range = refl;
  entry = accepted_slot;
  handle = 7;
  at = refl;
  bev = refl;
}

ten_first : node_first_alive_succ node_ten ≡ pos 0
unfolding node_first_alive_succ first_alive_from
ten_first = refl

thirty_within : node_id_in_range 30 10 40 ≡ true
unfolding node_id_in_range
thirty_within = refl

pipes-Gives : Gives pipes
pipes-Gives = record { given = λ ev. refl }

pipes-Leaves : Leaves pipes held_in
pipes-Leaves = record { same = λ ev b. refl }

-- The first successor of node 10 is node 40.
incoming_read-answers_example :
    (t : Host Pipes NodeSelf) × (incoming_read pipes silent little (pos 0) asked_ten ≡ ok (tt, t))
    × (t.upper ≡ node_ten)
    × (held_in t.net.ev (output 7) ≡ reply false (node_at 40) 1 [])
incoming_read-answers_example =
    incoming_read-answers pipes held_in pipes-Removes pipes-Adds pipes-Apart pipes-Gives
      pipes-Leaves silent little asked_ten (pos 0) asked_ten-IsOpen (node_at 90) (node_at 10)
      (node_at 40) 30 0 [] refl (λ e. omega arith) ten_first refl (rw thirty_within refl)
      (omega arith) refl refl

-- Node 7 notifies node 10.
abbrev notified_ten : Host Pipes NodeSelf
notified_ten = record asked_ten {
  net = record (asked_ten.net) {
    ev = (
      message_text (request (node_at 7) (node_at 10) msg_t_notif (id_bytes + 2))
          ++ (memory_bytes false id_bytes 7 ++ (memory_bytes false 2 4000 ++ [])),
      [],
    );
  };
}

notified_ten-IsOpen : IsOpen (pos 0) notified_ten.net
unfolding alter
notified_ten-IsOpen = record {
  valid = with_ev-IsValid asked_ten.net notified_ten.net.ev asked_ten-IsOpen.valid;
  in_range = asked_ten-IsOpen.in_range;
  entry = accepted_slot;
  handle = 7;
  at = refl;
  bev = refl;
}

incoming_read-notified_example :
    (t : Host Pipes NodeSelf) × (incoming_read pipes silent little (pos 0) notified_ten
      ≡ ok (tt, t))
    × (t.upper ≡ node_notified node_ten (record { id = 7; ip = 9; port = 4000 }))
    × IsValid t.net
    × ClosedOnly pipes (pos 0) notified_ten.net t.net
incoming_read-notified_example =
    incoming_read-notified pipes held_in pipes-Removes silent little notified_ten (pos 0)
      notified_ten-IsOpen (node_at 7) (node_at 10) 7 9 4000 [] (omega arith) (omega arith)
      (λ e. omega arith) (λ ev. refl) refl
