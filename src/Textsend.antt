-- ===== src/Textsend.antt =====
-- example/textsend.c: a program that sends lines of text to the node that a name belongs to.
-- `handle` is not used, and what is only printed for the user is left out but for a received text.
pub mod Keeps
pub mod Reads
pub mod Peer
use mathlib.Core.Option
use fyp_dht.Prelude.{
  ℕ, zero, suc, ◌+◌, ◌*◌, ◌^◌, ◌-◌, ◌%◌, ◌++◌, Bool, true, false, List, [], ◌∷◌, Option, none, some,
  ◌==◌, ltb, leb, ◌&&◌, if◌then◌else◌, ℤ, pos, negsuc, length, set, get_elem?,
}
use fyp_dht.Prelude.Outcome.{
  Outcome, ok, fault, out_of_bounds, null_pointer, freed_memory, wrong_argument, overflow, ◌>>=◌,
  ◌>>◌, pure, fail, need, when,
}
use fyp_dht.Ident.{get_id}
use fyp_dht.Wire.Header.{is_space}
use fyp_dht.Platform.{Platform, Evbuffer}
use fyp_dht.Callback.{NodeInfo, NodeMessage, CbArg, app_found, app_event}
use fyp_dht.Netio.State.{NetConnection}
use fyp_dht.Netio.Conn.{ask, call, net_connection_close, net_connection_get_read_buffer}
use fyp_dht.Netio.Server.{Host, on_net, bev_event_eof, bev_event_timeout}
use fyp_dht.Node.State.{NodeSelf, Machine, NodeM, change}
use fyp_dht.Node.Send.{node_connect_and_send_message, msg_t_node_msg}
use fyp_dht.Node.Found.{App}
use fyp_dht.Node.Maintain.{has_bits}
use fyp_dht.Node.Find.{node_find_successor}
use fyp_dht.Node.Incoming.{bev_error, c_string}
use fyp_dht.Node.Loop.{LoopEvent}
use fyp_dht.Node.Life.{
  node_create, node_set_node_msg_handler, node_network_create, node_network_join,
}

-- What this program alone calls. A string from malloc is known by its block's number, none for NULL.
pub record Calls (Ev : Type 0) : Type 0 where
  pub new_string : Ev → List ℕ → Option ℕ × Ev
  -- none for a block that has been freed.
  pub string_at : Ev → ℕ → Option (List ℕ)
  pub free : Ev → ℕ → Ev
  -- The bytes of the whole buffer, none for NULL.
  pub evbuffer_pullup : Ev → Evbuffer → Option (List ℕ) × Ev
  pub evbuffer_drain : Ev → Evbuffer → Ev
  pub print : Ev → List ℕ → Ev
  pub pthread_create : Ev → Ev
  -- The four bytes of the address in network order, none if the text is none.
  pub inet_pton : List ℕ → Option (List ℕ)

-- `received:`, a line end, the text, a line end.
abbrev pub received : List ℕ → List ℕ
received text =
    b'r' ∷ b'e' ∷ b'c' ∷ b'e' ∷ b'i' ∷ b'v' ∷ b'e' ∷ b'd' ∷ b':' ∷ 10 ∷ (text ++ (10 ∷ []))

-- The program's callbacks, of which it has one for each use.
module _ {Ev : Type 0} (p : Platform Ev) (c : Calls Ev) where
  -- `data[len] = 0`, and the string that is then at the start of the data.
  unfoldable pub terminated : List ℕ → ℕ → NodeM Ev (List ℕ)
  terminated bytes len =
      if ltb len (length bytes) then pure (c_string (set bytes len 0)) else fail out_of_bounds

  unfoldable pub read_in_msg : NodeMessage → ℤ → NodeM Ev (Unit {0})
  read_in_msg msg conn = do
    rbuf ← on_net (net_connection_get_read_buffer p conn)
    buffer ← need rbuf null_pointer
    pulled ← on_net (ask (λ ev. c.evbuffer_pullup ev buffer))
    bytes ← need pulled null_pointer
    text ← terminated bytes msg.len
    on_net (call (λ ev. c.print ev (received text)))
    on_net (call (λ ev. c.evbuffer_drain ev buffer))

  unfoldable pub out_conn_event : ℤ → ℕ → NodeM Ev (Unit {0})
  out_conn_event connection type =
      when (has_bits type (bev_error + bev_event_eof + bev_event_timeout))
        (on_net (net_connection_close p connection))

  -- `from` is what the stack holds; the timeout is five seconds. `msg` is the block of the text.
  unfoldable pub found_node : NodeInfo → NodeInfo → ℕ → NodeM Ev (Unit {0})
  found_node from ninfo msg = do
    content ← on_net (ask (λ ev. (c.string_at ev msg, ev)))
    text ← need content freed_memory
    rc ←
        node_connect_and_send_message p
          (record {
            to = ninfo;
            from = from;
            type = msg_t_node_msg;
            len = length text % 2 ^ 32;
            content = some text;
          })
          none (some (app_event 0)) none (some 5)
    on_net (call (λ ev. c.free ev msg))

  -- The thread that is started is in_thread's.
  unfoldable pub net_joined : NodeM Ev (Unit {0})
  net_joined = on_net (call c.pthread_create)

  abbrev pub textsend : NodeInfo → App Ev
  textsend from = record {
    joined_cb = λ f. net_joined;
    found_cb = λ msg node hops. found_node from node msg;
    message_cb = λ f msg conn arg. read_in_msg msg conn;
    data_cb = λ f conn arg. fail wrong_argument;
    event_cb = λ f conn what arg. out_conn_event conn what;
  }

-- One round of in_thread, once fgets has given the two lines: the name with its line end, as fgets keeps it.
unfoldable pub in_thread :
    {Ev : Type 0}
    → Platform Ev
    → Calls Ev
    → NodeInfo
    → Machine
    → (List ℕ → List ℕ)
    → List ℕ
    → List ℕ
    → NodeM Ev ℤ
in_thread p c from mc sha1 name line = do
  got ← on_net (ask (λ ev. c.new_string ev line))
  msg ← need got null_pointer
  node_find_successor p (textsend p c from) mc (get_id sha1 name) (app_found msg)

-- strtoul with base 10, as an uint16_t.
unfoldable pub decimal : ℕ → List ℕ → ℕ
decimal acc [] = acc
decimal acc (d ∷ cs) = if leb b'0' d && leb d b'9' then decimal (acc * 10 + (d - b'0')) cs else acc

-- The results for a number that fits into 64 bits, and for one that does not, whatever its sign.
abbrev pub clamp : ℕ → ℕ
clamp n = if ltb n (2 ^ 64) then n else 2 ^ 64 - 1

abbrev pub negated : ℕ → ℕ
negated n = if ltb n (2 ^ 64) then (2 ^ 64 - n) % 2 ^ 64 else 2 ^ 64 - 1

unfoldable pub strtoul10 : List ℕ → ℕ
strtoul10 [] = 0
strtoul10 (d ∷ cs) =
    let rest = strtoul10 cs in
    if is_space d
    then rest
    else if d == b'-'
    then negated (decimal 0 cs)
    else if d == b'+'
    then clamp (decimal 0 cs)
    else clamp (decimal 0 (d ∷ cs))

abbrev pub port_of : List ℕ → ℕ
port_of text = strtoul10 text % 2 ^ 16

-- `ip += (buf[i] << (8 * (3 - i)))`, with the rounds that are left. The shift is an int's, and
-- overflows for a first byte from 128 on.
unfoldable pub peer_ip : ℕ → List ℕ → ℕ → Outcome ℕ
peer_ip zero buf ip = ok ip
peer_ip (suc left) [] ip = fault out_of_bounds
peer_ip (suc left) (b ∷ buf) ip =
    let rest = peer_ip left buf ((ip + b * 2 ^ (8 * left)) % 2 ^ 32) in
    if ltb (b * 2 ^ (8 * left)) (2 ^ 31) then rest else fault overflow

-- A value that the machine computes, with its fault.
unfoldable pub computed : {S A : Type 0} → Outcome A → S → Outcome (A × S)
computed (ok a) s = ok (a, s)
computed (fault e) s = fault e

module _ {Ev : Type 0} (p : Platform Ev) (c : Calls Ev) (from : NodeInfo) (mc : Machine)
    (events : List LoopEvent) where
  -- `events` are those that the loop hands over before it ends, and `from` is what found_node's stack
  -- holds. The address and the port of a node to join are the third and the fourth argument. `buf` and
  -- `ninfo` are what the stack holds.
  unfoldable pub join_or_create : List ℕ → NodeInfo → List (List ℕ) → NodeM Ev ℤ
  join_or_create buf ninfo (prog ∷ (port ∷ (name ∷ (addr ∷ (peer_port ∷ more))))) = do
    ip ← computed (peer_ip 4 (Option.get_or (c.inet_pton addr) buf) 0)
    node_network_join p (textsend p c from) mc events
        (record ninfo { ip = ip; port = port_of peer_port }) 0
  join_or_create buf ninfo argv = node_network_create p (textsend p c from) mc events 0

  -- none for -1, where there is no node. The event loop runs inside the last call; the handler is read_in_msg.
  unfoldable pub main :
      (List ℕ → List ℕ)
      → NodeSelf
      → List NetConnection
      → List ℕ
      → NodeInfo
      → List (List ℕ)
      → Ev
      → Outcome (Option (ℤ × Host Ev NodeSelf))
  main sha1 block connections buf ninfo (prog ∷ (port ∷ (name ∷ more))) ev =
      elim (node_create p sha1 block connections (port_of port) name ev) [
        | some h ↦
            elim (join_or_create buf ninfo (prog ∷ (port ∷ (name ∷ more)))
              (record h { upper = node_set_node_msg_handler 0 0 h.upper })) [
                | ok r ↦ ok (some r)
                | fault e ↦ fault e
              ]
        | none ↦ ok none
      ]
  main sha1 block connections buf ninfo argv ev = fault null_pointer
