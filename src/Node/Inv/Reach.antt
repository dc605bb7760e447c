-- ===== src/Node/Inv/Reach.antt =====
-- The life of a node of src/node.c from node_create on: what the application calls, and the events.
use fyp_dht.Prelude.{
  ℕ, ◌≡◌, refl, subst, Bool, true, false, List, Option, some, none, ℤ, length, if◌then◌else◌, arith,
}
use fyp_dht.Prelude.Outcome.{Outcome, ok}
use fyp_dht.Prelude.Leads.{Keeps, Post}
use fyp_dht.Platform.{Platform}
use fyp_dht.Callback.{
  NodeInfo, NodeMessage, CbArg, DataCb, EventCb, app_found, self_arg, incoming_connection,
}
use fyp_dht.Netio.State.{NetConnection, NetServer, max_open_connections}
use fyp_dht.Netio.Server.{Host, net_server_create}
use fyp_dht.Netio.Valid.{IsValid, Owned}
use fyp_dht.Netio.Keeps.{net_ops}
use fyp_dht.Ident.{get_id}
use fyp_dht.Node.State.{NodeSelf, Machine, id_bits}
use fyp_dht.Node.Send.{node_connect_and_send_message}
use fyp_dht.Node.Found.{App}
use fyp_dht.Node.Find.{node_find_successor}
use fyp_dht.Node.Loop.{LoopEvent, handle_event}
use fyp_dht.Node.Life.{
  init_node, node_create, with_net, net_server_run, node_network_create, node_network_join,
  node_set_node_msg_handler,
}
use fyp_dht.Node.Inv.Defs.{NodeInv, Inv, node_rules, change-Keeps}
use fyp_dht.Node.Inv.Sends.{
  new_block-Keeps, node_find_successor_remote-Keeps, node_connect_and_send_message-Keeps,
}
use fyp_dht.Node.Inv.Finds.{node_find_successor-Keeps}
use fyp_dht.Node.Inv.Founds.{AppKeeps}
use fyp_dht.Node.Inv.Events.{handle_event-Keeps, run_loop-Keeps}

module _ {me : ℕ} where
  has_own_pred :
      (s : NodeSelf)
      → NodeInv me false s
      → NodeInv me false (record s { predecessor = s.self; has_pred = true })
  has_own_pred s v = record { id = v.id; lock = v.lock; succs = v.succs; fingers = v.fingers }

  no_pred : (s : NodeSelf) → NodeInv me false s → NodeInv me false (record s { has_pred = false })
  no_pred s v = record { id = v.id; lock = v.lock; succs = v.succs; fingers = v.fingers }

module _ {Ev : Type 0} (p : Platform Ev) (app : App Ev) (mc : Machine) where
  -- A call of the application's, or an event of the loop, that returns.
  pub data Step (h t : Host Ev NodeSelf) : Type 0 where
    sets_handler :
        (f arg : ℕ) → t ≡ record h { upper = node_set_node_msg_handler f arg h.upper } → Step h t
    creates :
        (events : List LoopEvent) (joined : ℕ) (r : ℤ)
        → node_network_create p app mc events joined h ≡ ok (r, t)
        → Step h t
    joins :
        (events : List LoopEvent) (node : NodeInfo) (joined : ℕ) (r : ℤ)
        → node_network_join p app mc events node joined h ≡ ok (r, t)
        → Step h t
    finds :
        (id f : ℕ) (r : ℤ) → node_find_successor p app mc id (app_found f) h ≡ ok (r, t) → Step h t
    sends :
        (msg : NodeMessage) (reads : Option DataCb) (events : Option EventCb) (arg : Option CbArg)
        (timeout : Option ℕ) (r : ℤ)
        → node_connect_and_send_message p msg reads events arg timeout h ≡ ok (r, t)
        → Step h t
    handles : (e : LoopEvent) → handle_event p app mc e h ≡ ok (tt, t) → Step h t

  pub data Reach (h : Host Ev NodeSelf) : Host Ev NodeSelf → Type 0 where
    start : Reach h h
    step : (t u : Host Ev NodeSelf) → Reach h t → Step t u → Reach h u

  module _ (me : ℕ) (keeps : AppKeeps app me) where
    pub node_network_create-Keeps :
        (events : List LoopEvent) (joined : ℕ)
        → Keeps (Inv me false) (node_network_create p app mc events joined)
    unfolding node_network_create net_server_run
    node_network_create-Keeps events joined =
        search
          (node_rules, net_ops, new_block-Keeps, run_loop-Keeps, keeps, change-Keeps, has_own_pred)
          depth 12

    pub node_network_join-Keeps :
        (events : List LoopEvent) (node : NodeInfo) (joined : ℕ)
        → Keeps (Inv me false) (node_network_join p app mc events node joined)
    unfolding node_network_join net_server_run
    node_network_join-Keeps events node joined =
        search
          (
            node_rules, net_ops, new_block-Keeps, run_loop-Keeps, keeps, change-Keeps, no_pred,
            node_find_successor_remote-Keeps,
          )
          depth 12

    pub after :
        {A : Type 0} {m : Host Ev NodeSelf → Outcome (A × Host Ev NodeSelf)}
        (h t : Host Ev NodeSelf) (a : A)
        → Keeps (Inv me false) m
        → Inv me false h
        → m h ≡ ok (a, t)
        → Inv me false t
    after h t a km i e = subst (Post (λ _. Inv me false)) e (km.at h i)

    Step-Inv : (h t : Host Ev NodeSelf) → Step h t → Inv me false h → Inv me false t
    unfolding node_set_node_msg_handler
    Step-Inv h t (sets_handler f arg e) i =
        rw e
          (i.0, record { id = i.1.id; lock = i.1.lock; succs = i.1.succs; fingers = i.1.fingers })
    Step-Inv h t (creates es j r e) i = after h t r (node_network_create-Keeps es j) i e
    Step-Inv h t (joins es n j r e) i = after h t r (node_network_join-Keeps es n j) i e
    Step-Inv h t (finds id f r e) i =
        after h t r (node_find_successor-Keeps p app mc me keeps id (app_found f)) i e
    Step-Inv h t (sends msg reads events arg timeout r e) i =
        after h t r
          (node_connect_and_send_message-Keeps p (NodeInv me false) msg reads events arg timeout) i
          e
    Step-Inv h t (handles ev e) i = after h t tt (handle_event-Keeps p app mc me keeps ev) i e

    pub Reach-Inv : (h t : Host Ev NodeSelf) → Reach h t → Inv me false h → Inv me false t
    Reach-Inv h t start i = i
    Reach-Inv h t (step u t' r s) i = Step-Inv u t s (Reach-Inv h u r i)

module _ {Ev : Type 0} (p : Platform Ev) where
  net_server_create-IsValid :
      (cs : List NetConnection) (port : ℕ) (ev : Ev) (srv : NetServer Ev)
      → length cs ≡ max_open_connections
      → Owned cs
      → (net_server_create p cs port incoming_connection (some self_arg) ev).0 ≡ some srv
      → IsValid srv
  unfolding net_server_create
  net_server_create-IsValid cs port ev srv size owned e = ground arith

  with_net-Inv :
      (sha1 : List ℕ → List ℕ) (block : NodeSelf) (port : ℕ) (name : List ℕ) (srv : NetServer Ev)
      → IsValid srv
      → length block.finger_table ≡ id_bits
      → Inv (get_id sha1 name) false (with_net p (init_node sha1 block port name) srv)
  unfolding with_net init_node
  with_net-Inv sha1 block port name srv v fingers = (
    record { size = v.size; unlocked = v.unlocked; owned = v.owned },
    record { id = refl; lock = refl; succs = refl; fingers = fingers },
  )

  all_made :
      (got inited fingers : Bool) (net : Option (NetServer Ev))
      (made : NetServer Ev → Host Ev NodeSelf) (h : Host Ev NodeSelf)
      → (if got
          then (if inited
              then (if fingers then elim net [ some srv ↦ some (made srv) | none ↦ none ] else none)
              else none)
          else none)
        ≡ some h
      → (srv : NetServer Ev) × (net ≡ some srv) × (made srv ≡ h)
  all_made true true true (some srv) made h e = (srv, refl, cc)
  all_made true true true none made h e = ground arith
  all_made true true false net made h e = ground arith
  all_made true false fingers net made h e = ground arith
  all_made false inited fingers net made h e = ground arith

  -- If the block of the server holds a table of 256 in which no entry has a context without a bufferevent or a
  -- bufferevent without its context, and the finger table has its 32 entries, a node that node_create
  -- returns is well formed and its id is that of its name.
  pub node_create-Inv :
      (sha1 : List ℕ → List ℕ) (block : NodeSelf) (cs : List NetConnection) (port : ℕ)
      (name : List ℕ) (ev : Ev) (h : Host Ev NodeSelf)
      → length cs ≡ max_open_connections
      → Owned cs
      → length block.finger_table ≡ id_bits
      → node_create p sha1 block cs port name ev ≡ some h
      → Inv (get_id sha1 name) false h
  unfolding node_create
  node_create-Inv sha1 block cs port name ev h size owned fingers e =
      let ev1 = (p.malloc ev).1 in
      let ev2 = (p.mutex_init ev1).1 in
      let (fingers_got, ev3) = p.malloc ev2 in
      let (srv, made, is) =
        all_made (p.malloc ev).0 (p.mutex_init ev1).0 fingers_got _
          (with_net p (init_node sha1 block port name)) h e in
      subst (Inv (get_id sha1 name) false) is (
        with_net-Inv sha1 block port name srv
          (net_server_create-IsValid cs port ev3 srv size owned made) fingers)

  -- If the application's callbacks keep the invariant, the server's block holds a table of 256 entries in
  -- which an entry has its context exactly while it has a bufferevent, and the finger table has 32
  -- entries, then a node that node_create returns keeps its id, its lock free, the sizes of its tables
  -- and well-formed connections through every sequence of the application's calls and the loop's events
  -- that return.
  pub life-Inv :
      (app : App Ev) (mc : Machine) (sha1 : List ℕ → List ℕ) (block : NodeSelf)
      (cs : List NetConnection) (port : ℕ) (name : List ℕ) (ev : Ev) (h t : Host Ev NodeSelf)
      → AppKeeps app (get_id sha1 name)
      → length cs ≡ max_open_connections
      → Owned cs
      → length block.finger_table ≡ id_bits
      → node_create p sha1 block cs port name ev ≡ some h
      → Reach p app mc h t
      → Inv (get_id sha1 name) false t
  life-Inv app mc sha1 block cs port name ev h t keeps size owned fingers e r =
      Reach-Inv p app mc (get_id sha1 name) keeps h t r
        (node_create-Inv sha1 block cs port name ev h size owned fingers e)
