-- ===== src/Textsend/Keeps.antt =====
-- The callbacks of example/textsend.c, and its program from `main` on, with a node's invariant.
use fyp_dht.Prelude.{ℕ, ◌≡◌, refl, Bool, false, List, [], ◌∷◌, Option, some, none, ℤ, length, arith}
use fyp_dht.Prelude.Outcome.{Outcome, ok, fault}
use fyp_dht.Prelude.Leads.{Keeps, keeps_rules, Leads-fail, Keeps-bind}
use fyp_dht.Ident.{get_id}
use fyp_dht.Platform.{Platform}
use fyp_dht.Callback.{NodeInfo, NodeMessage}
use fyp_dht.Netio.State.{NetConnection, max_open_connections}
use fyp_dht.Netio.Server.{Host}
use fyp_dht.Netio.Valid.{Owned}
use fyp_dht.Netio.Keeps.{net_ops}
use fyp_dht.Node.State.{NodeSelf, Machine, id_bits}
use fyp_dht.Node.Inv.Defs.{Inv, node_rules}
use fyp_dht.Node.Inv.Sends.{node_connect_and_send_message-Keeps}
use fyp_dht.Node.Inv.Founds.{AppKeeps}
use fyp_dht.Node.Inv.Finds.{node_find_successor-Keeps}
use fyp_dht.Node.Inv.Events.{handle_event-Keeps}
use fyp_dht.Node.Inv.Reach.{
  node_network_create-Keeps, node_network_join-Keeps, node_create-Inv, after,
}
use fyp_dht.Node.Life.{node_create, node_network_create, node_set_node_msg_handler}
use fyp_dht.Node.Loop.{LoopEvent, handle_event}
use fyp_dht.Textsend.{
  Calls, terminated, read_in_msg, out_conn_event, found_node, net_joined, textsend, in_thread,
  computed, join_or_create, main, port_of,
}

module _ {Ev : Type 0} (p : Platform Ev) (c : Calls Ev) (me : ℕ) (held : Bool) where
  terminated-Keeps : (bytes : List ℕ) (len : ℕ) → Keeps (Inv me held) (terminated p c bytes len)
  unfolding terminated
  terminated-Keeps bytes len = search keeps_rules

  read_in_msg-Keeps :
      (msg : NodeMessage) (conn : ℤ) → Keeps (Inv me held) (read_in_msg p c msg conn)
  unfolding read_in_msg
  read_in_msg-Keeps msg conn = search (node_rules, net_ops, terminated-Keeps) depth 14

  out_conn_event-Keeps : (conn : ℤ) (what : ℕ) → Keeps (Inv me held) (out_conn_event p c conn what)
  unfolding out_conn_event
  out_conn_event-Keeps conn what = search (node_rules, net_ops)

  found_node-Keeps :
      (from node : NodeInfo) (msg : ℕ) → Keeps (Inv me held) (found_node p c from node msg)
  unfolding found_node
  found_node-Keeps from node msg =
      search (node_rules, net_ops, node_connect_and_send_message-Keeps) depth 10

  net_joined-Keeps : Keeps (Inv me held) (net_joined p c)
  unfolding net_joined
  net_joined-Keeps = search (node_rules, net_ops)

pub textsend-AppKeeps :
    {Ev : Type 0} (p : Platform Ev) (c : Calls Ev) (from : NodeInfo) (me : ℕ)
    → AppKeeps (textsend p c from) me
textsend-AppKeeps p c from me = record {
  joined = λ held f. net_joined-Keeps p c me held;
  found = λ held msg node hops. found_node-Keeps p c me held from node msg;
  message = λ held f msg conn arg. read_in_msg-Keeps p c me held msg conn;
  reads = λ held f conn arg. Leads-fail _;
  events = λ held f conn what arg. out_conn_event-Keeps p c me held conn what;
}

module _ {Ev : Type 0} (p : Platform Ev) (c : Calls Ev) (from : NodeInfo) (mc : Machine)
    (sha1 : List ℕ → List ℕ) where
  -- A round of the thread that reads the user's lines, or an event of the loop, that returns.
  pub data Step (h t : Host Ev NodeSelf) : Type 0 where
    types :
        (name line : List ℕ) (r : ℤ) → in_thread p c from mc sha1 name line h ≡ ok (r, t) → Step h t
    handles : (e : LoopEvent) → handle_event p (textsend p c from) mc e h ≡ ok (tt, t) → Step h t

  pub data Session (h : Host Ev NodeSelf) : Host Ev NodeSelf → Type 0 where
    start : Session h h
    step : (t u : Host Ev NodeSelf) → Session h t → Step t u → Session h u

  module _ (me : ℕ) where
    in_thread-Keeps :
        (name line : List ℕ) → Keeps (Inv me false) (in_thread p c from mc sha1 name line)
    unfolding in_thread
    in_thread-Keeps name line = Keeps-bind _ _ (search (node_rules, net_ops)) (λ got.
        Keeps-bind _ _ (search node_rules) (λ msg.
          node_find_successor-Keeps p (textsend p c from) mc me (textsend-AppKeeps p c from me) _
            _))

    Session-Inv : (h t : Host Ev NodeSelf) → Session h t → Inv me false h → Inv me false t
    Session-Inv h t start i = i
    Session-Inv h t (step u t' s (types name line r e)) i =
        after p (textsend p c from) mc me (textsend-AppKeeps p c from me) u t r
          (in_thread-Keeps name line) (Session-Inv h u s i) e
    Session-Inv h t (step u t' s (handles ev e)) i =
        after p (textsend p c from) mc me (textsend-AppKeeps p c from me) u t tt
          (handle_event-Keeps p (textsend p c from) mc me (textsend-AppKeeps p c from me) ev)
          (Session-Inv h u s i) e

    computed-Keeps : {A : Type 0} (o : Outcome A) → Keeps (Inv {Ev = Ev} me false) (computed o)
    unfolding computed
    computed-Keeps (ok a) = record { at = λ h i. i }
    computed-Keeps (fault e) = record { at = λ h i. tt }

    creates :
        (events : List LoopEvent)
        → Keeps (Inv me false) (node_network_create p (textsend p c from) mc events 0)
    creates events =
        node_network_create-Keeps p (textsend p c from) mc me (textsend-AppKeeps p c from me) events
          0

    join_or_create-Keeps :
        (events : List LoopEvent) (buf : List ℕ) (ninfo : NodeInfo) (argv : List (List ℕ))
        → Keeps (Inv me false) (join_or_create p c from mc events buf ninfo argv)
    unfolding join_or_create
    join_or_create-Keeps events buf ninfo (prog ∷ (port ∷ (name ∷ (addr ∷ (peer_port ∷ more))))) =
        Keeps-bind _ _ (computed-Keeps _) (λ ip.
          node_network_join-Keeps p (textsend p c from) mc me (textsend-AppKeeps p c from me) _ _ _)
    join_or_create-Keeps events buf ninfo (prog ∷ (port ∷ (name ∷ (addr ∷ [])))) = creates events
    join_or_create-Keeps events buf ninfo (prog ∷ (port ∷ (name ∷ []))) = creates events
    join_or_create-Keeps events buf ninfo (prog ∷ (port ∷ [])) = creates events
    join_or_create-Keeps events buf ninfo (prog ∷ []) = creates events
    join_or_create-Keeps events buf ninfo [] = creates events

    handler_set-Inv :
        (h : Host Ev NodeSelf)
        → Inv me false h
        → Inv me false (record h { upper = node_set_node_msg_handler 0 0 h.upper })
    unfolding node_set_node_msg_handler
    handler_set-Inv h i =
        (i.0, record { id = i.1.id; lock = i.1.lock; succs = i.1.succs; fingers = i.1.fingers })

  -- If the blocks from malloc hold a table of 256 entries in which an entry has its context exactly while
  -- it has a bufferevent, and 32 fingers, then the node of the program keeps the id of the name that is
  -- its second argument, its lock free between events, the sizes of its tables and well-formed
  -- connections from `main` on, whatever events its loop hands over, and through every sequence of rounds of the input thread and of events of
  -- the loop that return, one after the other.
  pub main-Inv :
      (events : List LoopEvent) (block : NodeSelf) (cs : List NetConnection) (buf : List ℕ)
      (ninfo : NodeInfo) (prog port name : List ℕ) (more : List (List ℕ)) (ev : Ev) (r : ℤ)
      (h t : Host Ev NodeSelf)
      → length cs ≡ max_open_connections
      → Owned cs
      → length block.finger_table ≡ id_bits
      → main p c from mc events sha1 block cs buf ninfo (prog ∷ (port ∷ (name ∷ more))) ev
        ≡ ok (some (r, h))
      → Session h t
      → Inv (get_id sha1 name) false t
  unfolding main
  main-Inv events block cs buf ninfo prog port name more ev r h t size owned fingers e s =
      Session-Inv (get_id sha1 name) h t s
        (made (node_create p sha1 block cs (port_of port) name ev) refl e)
    where
      made :
          (x : Option (Host Ev NodeSelf))
          → node_create p sha1 block cs (port_of port) name ev ≡ x
          → elim x [
            | some h ↦
                elim (join_or_create p c from mc events buf ninfo
                  (prog ∷ (port ∷ (name ∷ more)))
                  (record h { upper = node_set_node_msg_handler 0 0 h.upper })) [
                    | ok r ↦ ok (some r)
                    | fault e ↦ fault e
                  ]
            | none ↦ ok none
          ]
            ≡ ok (some (r, h))
          → Inv (get_id sha1 name) false h
      made none is run = ground arith
      made (some u) is run =
          after p (textsend p c from) mc (get_id sha1 name)
            (textsend-AppKeeps p c from (get_id sha1 name)) _ h r
            (join_or_create-Keeps (get_id sha1 name) events buf ninfo
              (prog ∷ (port ∷ (name ∷ more))))
            (handler_set-Inv (get_id sha1 name) u
              (node_create-Inv p sha1 block cs (port_of port) name ev u size owned fingers is))
            (ground (arith, run))
