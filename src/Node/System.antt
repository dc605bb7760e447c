-- ===== src/Node/System.antt =====
-- Nodes of src/node.c that stabilise their ring: the runs of several processes, in any order, and what
-- they send each other. A process is named by its id, which stands for its address.
pub mod Runs
pub mod Inv
pub mod Advance
pub mod Closer
pub mod Right
pub mod Route
use fyp_dht.Prelude.{ℕ, ◌≡◌, ◌<◌, ◌⊎◌, Bool, false, List, [], ◌∷◌, ℤ, ◌==◌, if◌then◌else◌}
use fyp_dht.Prelude.Outcome.{ok}
use fyp_dht.Platform.{Platform}
use fyp_dht.Callback.{NodeInfo, null_node}
use fyp_dht.Netio.Valid.{IsValid}
use fyp_dht.Netio.Server.{Host}
use fyp_dht.Node.State.{NodeSelf, Machine, node_first_alive_succ, read_succ}
use fyp_dht.Node.Found.{App, stabilize_sp_found, update_succs_found, update_finger}
use fyp_dht.Node.Maintain.{node_notified, node_network_stabalize}
use fyp_dht.Node.Incoming.{pred_request}

-- What stabilisation sends: node_get_predecessor_remote asks, handle_pred_request answers, and
-- node_notify_node tells the successor of its sender.
pub data Letter : Type 0 where
  -- to, from
  ask : ℕ → ℕ → Letter
  answer : ℕ → NodeInfo → Letter
  notice : ℕ → NodeInfo → Letter

abbrev pub In : Letter → List Letter → Type 0
In l [] = ⊥
In l (m ∷ ls) = (l ≡ m) ⊎ In l ls

-- The processes by their ids, and every letter that was sent. A letter may arrive at any later time, in
-- any order, more than once or never.
pub record System (Ev : Type 0) : Type 0 where
  pub node : ℕ → Host Ev NodeSelf
  pub letters : List Letter

abbrev pub at_node : {A : Type 0} → (ℕ → A) → ℕ → A → ℕ → A
at_node f i a j = if i == j then a else f j

-- The node that handle_pred_request names: with no predecessor the answer is 'N', which
-- node_found_remote_cb reads as the null node.
abbrev pub named : NodeSelf → NodeInfo
named s = if s.has_pred then s.predecessor else null_node

-- A notification carries the id and the port; the address is that of the connection's peer.
abbrev pub as_seen : (ℕ → NodeInfo) → ℕ → NodeSelf → NodeInfo
as_seen info i s = record (s.self) { ip = (info i).ip }

module _ {Ev : Type 0} where
  -- Process i goes to `h` and sends letters.
  abbrev pub goes : System Ev → ℕ → Host Ev NodeSelf → List Letter → System Ev
  goes s i h ls = record { node = at_node s.node i h; letters = ls }

  module _ (p : Platform Ev) (app : App Ev) (mc : Machine) (Member : ℕ → Type 0)
      (info : ℕ → NodeInfo) where
    -- A run that returns in one of the processes.
    pub data Step (s : System Ev) : System Ev → Type 0 where
      -- The timer of node_network_stabalize.
      stabalizes :
          (i : ℕ) (succ : NodeInfo) {h : Host Ev NodeSelf}
          → Member i
          → node_network_stabalize p app mc (s.node i) ≡ ok (tt, h)
          → read_succ (node_first_alive_succ (s.node i).upper) (s.node i) ≡ ok (succ, s.node i)
          → Step s (goes s i h (ask succ.id i ∷ s.letters))
      -- handle_pred_request.
      answers :
          (i from : ℕ) (conn : ℤ) {h : Host Ev NodeSelf}
          → Member i
          → In (ask i from) s.letters
          → pred_request p app mc conn (s.node i) ≡ ok (tt, h)
          → Step s (goes s i h (answer from (named (s.node i).upper) ∷ s.letters))
      -- node_stabilize_sp_found, with the notification of the first successor.
      is_answered :
          (i : ℕ) (n succ : NodeInfo) {h : Host Ev NodeSelf}
          → Member i
          → In (answer i n) s.letters
          → stabilize_sp_found p app mc n (s.node i) ≡ ok (tt, h)
          → read_succ (node_first_alive_succ h.upper) h ≡ ok (succ, h)
          → Step s (goes s i h (notice succ.id (as_seen info i h.upper) ∷ s.letters))
      -- node_notified, when handle_notif_request has read the notification.
      is_notified :
          (i : ℕ) (n : NodeInfo) {h : Host Ev NodeSelf}
          → Member i
          → In (notice i n) s.letters
          → IsValid h.net
          → h.upper ≡ node_notified (s.node i).upper n
          → Step s (goes s i h s.letters)
      -- node_update_succs_found for an entry behind the first, with whatever was found.
      lists :
          (i : ℕ) (n : NodeInfo) (succ_num : ℕ) {h : Host Ev NodeSelf}
          → Member i
          → 0 < succ_num
          → update_succs_found p app mc n succ_num (s.node i) ≡ ok (tt, h)
          → Step s (goes s i h s.letters)
      -- finger_update.
      fingers :
          (i : ℕ) (n : NodeInfo) (finger_num : ℕ) {h : Host Ev NodeSelf}
          → Member i
          → update_finger p app mc n finger_num (s.node i) ≡ ok (tt, h)
          → Step s (goes s i h s.letters)
      -- Anything else that leaves the node's record as it is: checks that succeed, answers to other
      -- requests, accepted and closed connections.
      serves :
          (i : ℕ) {h : Host Ev NodeSelf}
          → Member i
          → IsValid h.net
          → h.upper ≡ (s.node i).upper
          → Step s (goes s i h s.letters)

    pub data Reach (s : System Ev) : System Ev → Type 0 where
      here : Reach s s
      later : {t u : System Ev} → Reach s t → Step t u → Reach s u
