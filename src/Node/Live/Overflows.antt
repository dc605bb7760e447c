-- ===== src/Node/Live/Overflows.antt =====
-- The timers of src/node.c that check other nodes.
use fyp_dht.Prelude.{
  ℕ, ap, subst, Bool, zero, suc, ◌+◌, ◌≡◌, ◌≢◌, ◌≤◌, ◌<◌, inl, inr, refl, ◌∙◌, true, false, not,
  arith, ◌==◌, pos, some, get_elem?, get_elem?_total, length, Bool-cases, ==_iff,
}
use fyp_dht.Prelude.Outcome.{ok, fault, out_of_bounds, when, ◌>>=◌, ◌>>◌, >>=-ok, >>=-fault, >>-ok}
use fyp_dht.Platform.{Platform}
use fyp_dht.Callback.{
  NodeInfo, NodeCheckCb, node_check_pred_result, TimerCb, node_tm_stabilise, node_tm_fix_fingers,
  node_tm_check_pred, node_tm_check_succs, node_tm_update_succs, node_network_joined,
}
use fyp_dht.Netio.Server.{Host}
use fyp_dht.Node.State.{NodeSelf, NodeM, Machine, the_node, read_succ, num_of_succs}
use fyp_dht.Node.Send.{new_block, node_check_node, write_fields}
use fyp_dht.Node.Found.{App}
use fyp_dht.Node.Maintain.{check_from, node_check_successors, node_check_predecessor}
use fyp_dht.Node.Blocks.{Gives, after_block, new_block-ok}
use fyp_dht.Node.Loop.{expired, run_timer_cb, handle_event}
use fyp_dht.Node.Inv.Defs.{Inv}

module _ {Ev : Type 0} (p : Platform Ev) (memory : Gives p) (app : App Ev) (mc : Machine) where
  check-overflows :
      (h : Host Ev NodeSelf) (n : NodeInfo) (cb : NodeCheckCb)
      → node_check_node p mc n cb h ≡ fault out_of_bounds
  unfolding node_check_node write_fields the_node ◌>>=◌
  check-overflows h n cb = rw (new_block-ok p memory h) refl

  read_succ-at :
      (h : Host Ev NodeSelf) (i : ℕ) (n : NodeInfo)
      → get_elem? h.upper.successor i ≡ some n
      → read_succ (pos i) h ≡ ok (n, h)
  unfolding read_succ the_node ◌>>=◌
  read_succ-at h i n at = rw at refl

  fresh_check-overflows :
      (h : Host Ev NodeSelf) (n : NodeInfo) (cb : NodeCheckCb)
      → (new_block p >> node_check_node p mc n cb) h ≡ fault out_of_bounds
  fresh_check-overflows h n cb =
      >>-ok (new_block p) _ h (new_block-ok p memory h) ∙ check-overflows (after_block p h) n cb

  -- The rounds from number i on come to one that checks, if there is one from there on.
  check_from-overflows :
      (left i k : ℕ) (h : Host Ev NodeSelf) (n : NodeInfo)
      → i ≤ k
      → k < left + i
      → left + i ≤ length h.upper.successor
      → get_elem? h.upper.successor k ≡ some n
      → n.ip ≢ 0
      → check_from p app mc left i h ≡ fault out_of_bounds
  unfolding check_from when
  check_from-overflows zero i k h n le lt size at alive = absurd (omega arith)
  check_from-overflows (suc left) i k h n le lt size at alive =
      let (m, there) = get_elem?_total h.upper.successor i (omega arith) in
      >>=-ok (read_succ (pos i)) _ h (read_succ-at h i m there) ∙ elim (Bool-cases (m.ip == 0)) [
        | inl dead ↦
            >>-ok (when (not (m.ip == 0)) _) _ h (rw dead (λ _. ok (tt, h)))
            ∙ check_from-overflows left (suc i) k h n (later m there dead) (omega arith)
                (omega arith) at alive
        | inr up ↦ >>=-fault (when (not (m.ip == 0)) _) _ h (rw up (fresh_check-overflows h m _))
      ]
    where
      stays_dead :
          (m : NodeInfo) → get_elem? h.upper.successor i ≡ some m → i ≡ k → m.ip ≡ 0 → n.ip ≡ 0
      stays_dead m there same dead =
          let is : m ≡ n = cc in subst (λ (x : NodeInfo). x.ip ≡ 0) is dead

      later :
          (m : NodeInfo) → get_elem? h.upper.successor i ≡ some m → (m.ip == 0) ≡ true → suc i ≤ k
      later m there dead = elim (Bool-cases (i == k)) [
        | inl same ↦
            absurd (alive (stays_dead m there ((==_iff i k).0 same) ((==_iff m.ip 0).0 dead)))
        | inr less ↦ ground arith
      ]

  -- There is something for the timer to check: a predecessor, or a successor that is alive.
  abbrev pub Checks : TimerCb → NodeSelf → Type 0
  Checks node_tm_check_pred s = s.has_pred ≡ true
  Checks node_tm_check_succs s =
      (k : ℕ) × (n : NodeInfo) × (get_elem? s.successor k ≡ some n)
      × (k < num_of_succs)
      × (n.ip ≢ 0)
  Checks _ s = ⊥

  checking : (b : Bool) (m : NodeM Ev (Unit {0})) → b ≡ true → when b m ≡ m
  unfolding when
  checking true m e = refl
  checking false m e = cc

  run_timer_cb-overflows :
      (me : ℕ) (cb : TimerCb) (h : Host Ev NodeSelf)
      → Inv me false h
      → Checks cb h.upper
      → run_timer_cb p app mc cb h ≡ fault out_of_bounds
  unfolding run_timer_cb node_check_predecessor node_check_successors when the_node ◌>>=◌
  run_timer_cb-overflows me node_tm_check_pred h i there =
      ap (λ (m : NodeM Ev (Unit {0})). m h) (checking h.upper.has_pred _ there)
      ∙ check-overflows h h.upper.predecessor node_check_pred_result
  run_timer_cb-overflows me node_tm_check_succs h i (k, n, at, lt, alive) =
      check_from-overflows 8 0 k h n (omega arith) (omega arith) (omega (arith, i.1.succs)) at alive
  run_timer_cb-overflows me node_tm_stabilise h i there = absurd there
  run_timer_cb-overflows me node_tm_fix_fingers h i there = absurd there
  run_timer_cb-overflows me node_tm_update_succs h i there = absurd there
  run_timer_cb-overflows me (node_network_joined joined) h i there = absurd there

  -- If malloc always gives a block: in a well-formed process with a predecessor, the timer that checks it
  -- writes outside a block, and so does the one that checks the successors when any of the eight is alive:
  -- a block of the size of a pointer is filled as a node_check_arg, before the check is sent.
  pub handle_event-overflows :
      (me : ℕ) (cb : TimerCb) (h : Host Ev NodeSelf)
      → Inv me false h
      → Checks cb h.upper
      → handle_event p app mc (expired cb) h ≡ fault out_of_bounds
  unfolding handle_event
  handle_event-overflows me cb h i there = run_timer_cb-overflows me cb h i there
