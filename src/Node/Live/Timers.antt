-- ===== src/Node/Live/Timers.antt =====
-- The timers of src/node.c that keep the ring up, for a node with a successor that is alive.
use fyp_dht.Prelude.{ℕ, ◌+◌, ◌%◌, ◌≡◌, ◌∙◌, true, false, ◌==◌, if◌then◌else◌, ℤ}
use fyp_dht.Prelude.Outcome.{ok, ◌>>=◌, pure, >>-ok, >>=-ok}
use fyp_dht.Prelude.Returns.{Total-ok, Stays, Returns-bind, Stays-bind, Returns-pure, Returns-if}
use fyp_dht.Ident.{IsId, hash_mod}
use fyp_dht.Platform.{Platform}
use fyp_dht.Callback.{
  NodeInfo, TimerCb, node_tm_stabilise, node_tm_fix_fingers, node_tm_check_pred,
  node_tm_check_succs, node_tm_update_succs, node_network_joined, node_update_succs_found,
}
use fyp_dht.Netio.Server.{Host}
use fyp_dht.Netio.Live.{with_ev-IsValid}
use fyp_dht.Node.State.{NodeSelf, NodeM, Machine, the_node, read_succ, node_first_alive_succ}
use fyp_dht.Node.Found.{App, node_update_succ, next_num}
use fyp_dht.Node.Maintain.{node_network_stabalize, node_update_succs}
use fyp_dht.Node.Send.{new_block, new_found, node_find_successor_remote}
use fyp_dht.Node.Blocks.{Gives, after_block, new_block-ok}
use fyp_dht.Node.Loop.{expired, run_timer_cb, handle_event}
use fyp_dht.Node.Live.Sends.{
  node_find_successor_remote-Returns, node_get_predecessor_remote-Returns,
}
use fyp_dht.Node.Live.Ready.{
  Ready, Runs, with_first, read_first, lock_succs-Returns, unlock_succs-Returns,
}
use fyp_dht.Node.Live.Fingers.{node_fix_fingers-Returns}

-- The timers of the upkeep that send no checks.
abbrev pub IsUpkeep : TimerCb → Type 0
IsUpkeep node_tm_stabilise = Unit {0}
IsUpkeep node_tm_fix_fingers = Unit {0}
IsUpkeep node_tm_update_succs = Unit {0}
IsUpkeep _ = ⊥

module _ {Ev : Type 0} (p : Platform Ev) (memory : Gives p) (app : App Ev) (mc : Machine)
    (me : ℕ) where
  stabalize-Returns : Stays (Runs me false) (node_network_stabalize p app mc)
  unfolding node_network_stabalize
  stabalize-Returns =
      with_first _ (λ s n. node_get_predecessor_remote-Returns p (Ready me false) mc memory n _)

  -- node_update_succ behind its two blocks.
  abbrev asks_successor : NodeInfo → ℤ → NodeM Ev (Unit {0})
  asks_successor succ k = if succ.ip == 0 then pure tt else (do
    rc ←
        node_find_successor_remote p mc succ ((succ.id + 1) % hash_mod)
          (new_found mc (node_update_succs_found (next_num k)))
    pure tt)

  asks_successor-Returns : (succ : NodeInfo) (k : ℤ) → Stays (Runs me true) (asks_successor succ k)
  asks_successor-Returns succ k =
      Returns-if (succ.ip == 0) _ _ (λ _. Returns-pure tt)
        (λ _.
          Stays-bind _ _ (node_find_successor_remote-Returns p (Ready me true) mc succ _ _)
            (λ rc. Returns-pure tt))

  abbrev with_blocks : Host Ev NodeSelf → Host Ev NodeSelf
  with_blocks h = after_block p (after_block p h)

  update_asks :
      (h : Host Ev NodeSelf) (k : ℤ) (n : NodeInfo)
      → read_succ k (with_blocks h) ≡ ok (n, with_blocks h)
      → node_update_succ p app mc k h ≡ asks_successor n k (with_blocks h)
  unfolding node_update_succ
  update_asks h k n reads =
      >>-ok (new_block p) _ h (new_block-ok p memory h)
      ∙ >>-ok (new_block p) _ (after_block p h) (new_block-ok p memory (after_block p h))
      ∙ >>=-ok (read_succ k) _ (with_blocks h) reads

  update_first-Returns :
      Stays (Runs me true) (the_node >>= λ s. node_update_succ p app mc (node_first_alive_succ s))
  unfolding the_node ◌>>=◌
  update_first-Returns = record {
    at = λ h (v, r).
        let t = with_blocks h in
        let (n, reads) = read_first t r in
        rw (update_asks h (node_first_alive_succ h.upper) n reads) (
          (asks_successor-Returns n (node_first_alive_succ h.upper)).at t
            (with_ev-IsValid h.net t.net.ev v, r));
  }

  update_succs-Returns : Stays (Runs me false) (node_update_succs p app mc)
  unfolding node_update_succs the_node ◌>>=◌
  update_succs-Returns = Returns-bind _ _ lock_succs-Returns (λ _.
      Returns-bind (the_node >>= λ s. node_update_succ p app mc (node_first_alive_succ s)) _
        update_first-Returns (λ _. unlock_succs-Returns))

  run_timer_cb-Returns :
      (cb : TimerCb) → IsUpkeep cb → IsId me → Stays (Runs me false) (run_timer_cb p app mc cb)
  unfolding run_timer_cb
  run_timer_cb-Returns node_tm_stabilise upkeep hm = stabalize-Returns
  run_timer_cb-Returns node_tm_fix_fingers upkeep hm =
      node_fix_fingers-Returns p memory app mc me hm
  run_timer_cb-Returns node_tm_update_succs upkeep hm = update_succs-Returns
  run_timer_cb-Returns node_tm_check_pred upkeep hm = absurd upkeep
  run_timer_cb-Returns node_tm_check_succs upkeep hm = absurd upkeep
  run_timer_cb-Returns (node_network_joined joined) upkeep hm = absurd upkeep

  -- If malloc always gives a block: for a well-formed process whose node has an id of 32 bits, its lock
  -- free and a successor that is alive, the timers of the stabilisation, of the fingers and of the list of
  -- successors return to the event loop with no fault, whatever else libevent answers, and leave a process
  -- of that kind.
  pub handle_event-Runs :
      (cb : TimerCb) (h : Host Ev NodeSelf)
      → IsUpkeep cb
      → IsId me
      → Runs me false h
      → (t : Host Ev NodeSelf) × (handle_event p app mc (expired cb) h ≡ ok (tt, t))
        × Runs me false t
  unfolding handle_event
  handle_event-Runs cb h upkeep hm r =
      let (u, t, runs, q) =
        Total-ok (run_timer_cb p app mc cb h) ((run_timer_cb-Returns cb upkeep hm).at h r) in
      (t, runs, q)
