-- ===== src/Tests/Systems.antt =====
-- Three nodes that stabilise their ring, at concrete runs.
use fyp_dht.Node.Found.{stabilize_sp_found, notify_successor}
use fyp_dht.Prelude.{
  ℕ, ◌≡◌, ◌≤◌, ◌⊎◌, inl, inr, refl, true, false, arith, List, [], ◌∷◌, some, get_elem?, replicate,
  sym, subst, length, set, none, ◌==◌, if◌then◌else◌,
}
use fyp_dht.Prelude.Outcome.{ok, ◌>>=◌}
use fyp_dht.Callback.{NodeInfo, null_node, node_notify_rep_event, self_arg}
use fyp_dht.Netio.Server.{Host}
use fyp_dht.Node.State.{
  NodeSelf, lock_succs, unlock_succs, the_node, read_succ, write_succ, change,
  node_first_alive_succ, first_alive_from,
}
use fyp_dht.Node.Send.{
  node_notify_node, node_connect_and_send_message, connected_send, configure, node_send_message,
  send_text, message_text, add_bytes,
}
use fyp_dht.Netio.Server.{on_net}
use fyp_dht.Netio.State.{
  NetConnection, net_valid_connection_num, net_empty_connection_slot, empty_slot_from, read_slot,
  alter, lock_connections, unlock_connections,
}
use fyp_dht.Netio.Conn.{
  net_connection_create, create_in, set_up, net_connection_set_event_cb, net_connection_set_cb_arg,
  net_connection_get_write_buffer, net_connection_activate, net_code, bev_of, ask, call,
}
use fyp_dht.Prelude.Outcome.{need}
use fyp_dht.Wire.Memory.{memory_bytes, little_bytes}
use fyp_dht.Node.Maintain.{node_notified}
use fyp_dht.Node.Found.{stabilize_sp_found, take_successor, notify_successor}
use fyp_dht.Node.System.{
  answer, notice, System, goes, Step, is_answered, is_notified, Reach, here, later,
}
use fyp_dht.Node.System.Inv.{NodeOk, Directory, SystemOk}
use fyp_dht.Node.System.Advance.{ahead, behind}
use fyp_dht.Node.System.Closer.{Reach-closer}
use fyp_dht.Node.System.Right.{IsNext, IsPrevious, Reach-right}
use fyp_dht.Node.Ring.Join.{Between, StabilisesTo, stabilize_sp_found-Between}
use fyp_dht.Ident.Arc.{arc}
use fyp_dht.Node.Inv.Defs.{Inv}
use fyp_dht.Tests.Toy.{closed_slots, toy, quiet, little, node_at, node_ten, server}
use fyp_dht.Tests.Nets.{server-IsValid}
use fyp_dht.Ident.{node_id_in_range, node_id_compare}

abbrev pub Three : ℕ → Type 0
Three i = (i ≡ 10) ⊎ (i ≡ 20) ⊎ (i ≡ 40)

pub three_directory : Directory Three node_at
three_directory = record {
  own = λ i m. refl;
  ids = λ i m. ground arith;
  alive = λ i m. λ e. omega arith;
}

abbrev pub node_of : ℕ → NodeInfo → NodeInfo → NodeSelf
node_of id succ pred = record node_ten {
  self = node_at id;
  successor = succ ∷ replicate 7 null_node;
  predecessor = pred;
}

-- Nodes 10 and 40 are each other's neighbours; node 20 has joined behind 10.
abbrev joined_at : ℕ → NodeSelf
joined_at i =
    if i == 10
    then node_of 10 (node_at 40) (node_at 40)
    else if i == 40
    then node_of 40 (node_at 10) (node_at 10)
    else record (node_of i (node_at 40) null_node) { has_pred = false }

-- Node 20 has notified 40, which has answered 10.
abbrev joined : System (List ℕ)
joined = record {
  node = λ i. record { net = server []; upper = joined_at i };
  letters = notice 40 (node_at 20) ∷ answer 10 (node_at 20) ∷ [];
}

abbrev Ok : ℕ → Type 0
Ok i = NodeOk Three node_at i (joined.node i)

invariant :
    (i : ℕ)
    → (joined_at i).self.id ≡ i
    → (joined_at i).succs_lock ≡ false
    → length (joined_at i).successor ≡ 8
    → length (joined_at i).finger_table ≡ 32
    → Inv i false (joined.node i)
invariant i id lock succs fingers =
    (server-IsValid [], record { id = id; lock = lock; succs = succs; fingers = fingers })

ten-Ok : Ok 10
ten-Ok = (
  invariant 10 refl refl refl refl,
  record {
    port = refl;
    succ = node_at 40;
    first = refl;
    succ_known = (inr (inr refl), refl);
    other = λ e. omega arith;
    pred_known = λ _. (inr (inr refl), refl);
    pred_id = omega arith;
  },
)

twenty-Ok : Ok 20
twenty-Ok = (
  invariant 20 refl refl refl refl,
  record {
    port = refl;
    succ = node_at 40;
    first = refl;
    succ_known = (inr (inr refl), refl);
    other = λ e. omega arith;
    pred_known = λ e. cc;
    pred_id = omega arith;
  },
)

forty-Ok : Ok 40
forty-Ok = (
  invariant 40 refl refl refl refl,
  record {
    port = refl;
    succ = node_at 10;
    first = refl;
    succ_known = (inl refl, refl);
    other = λ e. omega arith;
    pred_known = λ _. (inl refl, refl);
    pred_id = omega arith;
  },
)

joined-SystemOk : SystemOk Three node_at joined
joined-SystemOk = record {
  nodes = λ i m. elim m [
    | inl e ↦ subst Ok (sym e) ten-Ok
    | inr (inl e) ↦ subst Ok (sym e) twenty-Ok
    | inr (inr e) ↦ subst Ok (sym e) forty-Ok
  ];
  sent = (((inr (inl refl), refl), λ e. omega arith), (inr (inr (inl refl), refl), tt));
}

-- Node 40 takes notice of node 20.
abbrev noticed : Host (List ℕ) NodeSelf
noticed = record { net = server []; upper = node_of 40 (node_at 10) (node_at 20) }

takes_notice : noticed.upper ≡ node_notified (joined_at 40) (node_at 20)
unfolding node_notified node_id_in_range node_id_compare
takes_notice = refl

-- Node 10 has heard of node 20, and has a connection to it.
abbrev to_twenty : NetConnection
to_twenty = record {
  bev = some 7;
  sin = record { is_inet = true; sin_addr = 120; sin_port = 4000 };
  read_cb = none;
  write_cb = none;
  evt_cb = some node_notify_rep_event;
  upper_cb_arg = some self_arg;
  net_cb_arg = some 0;
}

abbrev heard : Host (List ℕ) NodeSelf
heard = record {
  net = record (server (10 ∷ 0 ∷ 0 ∷ 0 ∷ 160 ∷ 15 ∷ [])) {
    connections = set closed_slots 0 to_twenty;
  };
  upper = node_of 10 (node_at 20) (node_at 40);
}

hears : stabilize_sp_found toy quiet little (node_at 20) (joined.node 10) ≡ ok (tt, heard)
unfolding stabilize_sp_found take_successor notify_successor lock_succs unlock_succs the_node
    read_succ write_succ change node_first_alive_succ first_alive_from node_id_in_range
    node_id_compare ◌>>=◌ node_notify_node node_connect_and_send_message connected_send configure
    node_send_message send_text message_text add_bytes on_net net_connection_create create_in set_up
    net_connection_set_event_cb net_connection_set_cb_arg net_connection_get_write_buffer
    net_connection_activate alter net_code bev_of read_slot net_valid_connection_num
    net_empty_connection_slot empty_slot_from need ask call lock_connections unlock_connections
    memory_bytes little_bytes
hears = refl

reads_twenty : read_succ (node_first_alive_succ heard.upper) heard ≡ ok (node_at 20, heard)
unfolding read_succ the_node node_first_alive_succ first_alive_from ◌>>=◌
reads_twenty = refl

abbrev told_forty : System (List ℕ)
told_forty = goes joined 40 noticed joined.letters

abbrev told_both : System (List ℕ)
told_both = goes told_forty 10 heard (notice 20 (node_at 10) ∷ joined.letters)

forty_first : Reach toy quiet little Three node_at joined told_forty
forty_first =
    later here
      (is_notified 40 (node_at 20) (inr (inr refl)) (inl refl) (server-IsValid []) takes_notice)

ten_next : Step toy quiet little Three node_at told_forty told_both
ten_next = is_answered 10 (node_at 20) (node_at 20) (inl refl) (inr (inl refl)) hears reads_twenty

Reach-closer_example :
    SystemOk Three node_at told_both
    × ((i : ℕ)
        → Three i
        → (ahead i (told_both.node i).upper ≤ ahead i (joined.node i).upper)
          × (behind i (told_both.node i).upper ≤ behind i (joined.node i).upper))
Reach-closer_example =
    Reach-closer Three node_at three_directory toy quiet little (later forty_first ten_next)
      joined-SystemOk

told_forty-SystemOk : SystemOk Three node_at told_forty
told_forty-SystemOk =
    (Reach-closer Three node_at three_directory toy quiet little forty_first joined-SystemOk).0

forty-IsNext : IsNext Three node_at three_directory 40 10
unfolding arc
forty-IsNext m mem = ground arith

forty-IsPrevious : IsPrevious Three node_at three_directory 40 20
unfolding arc
forty-IsPrevious m mem = ground arith

Reach-right_example :
    (get_elem? (told_both.node 40).upper.successor 0 ≡ some (node_at 10))
    × ((told_both.node 40).upper.has_pred ≡ true)
    × ((told_both.node 40).upper.predecessor ≡ node_at 20)
Reach-right_example =
    Reach-right Three node_at three_directory toy quiet little 40 (node_at 10) (node_at 20)
      (later here ten_next) told_forty-SystemOk (inr (inr refl)) refl forty-IsNext refl refl
      forty-IsPrevious

twenty-Between : Between 10 20 40
unfolding arc
twenty-Between = (λ e. omega arith, λ e. omega arith, inr (omega arith))

stabilize_sp_found-Between_example :
    (node_notified (joined_at 40) (node_at 20)
      ≡ record (joined_at 40) { predecessor = node_at 20; has_pred = true })
    × (stabilize_sp_found toy quiet little
          (node_notified (joined_at 40) (node_at 20)).predecessor
          (joined.node 10)
        ≡ notify_successor toy quiet little (record (joined.node 10) {
          upper = record (joined_at 10) {
            successor = set (joined_at 10).successor 0 (node_at 20);
            succs_lock = false;
          };
        }))
    × (node_notified (joined_at 20) (node_at 10)
        ≡ record (joined_at 20) { predecessor = node_at 10; has_pred = true })
    × StabilisesTo toy quiet little (node_at 40) (joined_at 40).predecessor (joined.node 20)
    × StabilisesTo toy quiet little
        (node_at 40)
        (node_notified (joined_at 40) (node_at 20)).predecessor
        (joined.node 20)
stabilize_sp_found-Between_example =
    stabilize_sp_found-Between toy quiet little (joined.node 10) (joined.node 20) (joined_at 40)
      (node_at 10) (node_at 20) (node_at 40) ten-Ok.0 twenty-Ok.0 refl (omega arith) (omega arith)
      (omega arith) (λ e. omega arith) (λ e. omega arith) (λ e. omega arith) twenty-Between refl
      refl refl refl refl (omega arith)

-- A node that is notified of itself takes itself, though its predecessor is nearer.
takes_itself :
    (node_notified (node_of 10 (node_at 10) (node_at 5)) (node_at 10)).predecessor ≡ node_at 10
unfolding node_notified node_id_in_range node_id_compare
takes_itself = refl
