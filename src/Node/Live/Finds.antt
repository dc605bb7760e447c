-- ===== src/Node/Live/Finds.antt =====
-- node_find_successor of src/node.c, for a node with a successor that is alive.
use fyp_dht.Prelude.{ℕ, zero, suc, ◌≢◌, ◌<◌, sym, ◌∙◌, Bool, true, false, arith, some, none, pos}
use fyp_dht.Prelude.Outcome.{◌>>=◌, ◌>>◌, pure}
use fyp_dht.Prelude.Returns.{
  Returns, Stays, Returns-bind, Stays-bind, Returns-pure, Returns-if, Returns-if_some, Returns-when,
}
use mathlib.Core.Bool.{◌||◌}
use fyp_dht.Ident.{node_id_in_range}
use fyp_dht.Platform.{Platform}
use fyp_dht.Callback.{NodeInfo, FoundCb}
use fyp_dht.Node.State.{Machine, the_node, lock_succs}
use fyp_dht.Node.Blocks.{Gives, new_block-Returns}
use fyp_dht.Node.Found.{App, same_id, node_found, run_found}
use fyp_dht.Node.Find.{
  finger_before, node_closest_preceding_node, ask_around, answer, find_among_succs,
  node_find_successor, precedes,
}
use fyp_dht.Node.Ring.Search.{same_id_ne}
use fyp_dht.Node.Live.Sends.{the_node-Returns, node_find_successor_remote-Returns}
use fyp_dht.Node.Live.Ready.{
  Ready, Runs, with_first, read_first, read_finger-Returns, lock_succs-Returns,
  unlock_succs-Returns,
}

module _ {Ev : Type 0} {me : ℕ} where
  finger_before-Returns :
      {held : Bool} (i id : ℕ) → i < 32 → Stays (Runs {Ev = Ev} me held) (finger_before i id)
  unfolding finger_before
  finger_before-Returns zero id lt = Returns-pure none
  finger_before-Returns (suc i) id lt = Stays-bind _ _ the_node-Returns (λ s.
      Stays-bind _ _ (read_finger-Returns (suc i) lt) (λ n.
        Returns-if (precedes s id n) (pure (some n)) (finger_before i id)
          (λ _. Returns-pure (some n)) (λ _. finger_before-Returns i id (omega arith))))

  pub node_closest_preceding_node-Returns :
      {held : Bool} (id : ℕ) → Stays (Runs {Ev = Ev} me held) (node_closest_preceding_node id)
  unfolding node_closest_preceding_node the_node ◌>>=◌
  node_closest_preceding_node-Returns id =
      Stays-bind _ _ (finger_before-Returns 31 id (omega arith)) (λ finger.
        Returns-if_some finger _ _ (λ n _. Returns-pure n)
          (λ _. record { at = λ h (v, r). let (n, reads) = read_first h r in rw reads (v, r) }))

-- A callback that returns, with the lock held, when it is run with the node that was found.
abbrev pub Answers : {Ev : Type 0} → Platform Ev → App Ev → Machine → ℕ → FoundCb → Type 0
Answers p app mc me cb =
    (n : NodeInfo) (hops : ℕ) → Stays (Runs me true) (run_found p app mc cb n hops)

module _ {Ev : Type 0} (p : Platform Ev) (memory : Gives p) (app : App Ev) (mc : Machine)
    (me : ℕ) where
  answer-Returns :
      (cb : FoundCb) (n : NodeInfo)
      → Answers p app mc me cb
      → Returns (Runs me true) (answer p app mc false cb n) (λ _. Runs me false)
  unfolding answer node_found
  answer-Returns cb n answers = Stays-bind _ _ (new_block-Returns p memory (Ready me true)) (λ _.
      Stays-bind _ _ (Returns-when false _ (λ e. cc)) (λ _.
        Stays-bind _ _ (answers n 0)
          (λ _. Returns-bind _ _ unlock_succs-Returns (λ _. Returns-pure (pos 0)))))

  ask_around-Returns :
      (id : ℕ) (cb : FoundCb)
      → Returns (Runs me true) (ask_around p app mc id cb) (λ _. Runs me false)
  unfolding ask_around
  ask_around-Returns id cb = Returns-bind _ _ unlock_succs-Returns (λ _.
      Stays-bind _ _ (node_closest_preceding_node-Returns id) (λ n.
        Stays-bind _ _ (new_block-Returns p memory (Ready me false))
          (λ _. node_find_successor_remote-Returns p (Ready me false) mc n id _)))

  look_up-Returns :
      (id : ℕ) (cb : FoundCb)
      → Answers p app mc me cb
      → Returns
          (Runs me false)
          (lock_succs >> find_among_succs p app mc false id cb)
          (λ _. Runs me false)
  unfolding find_among_succs
  look_up-Returns id cb answers = Returns-bind _ _ lock_succs-Returns (λ _. with_first _ (λ s n.
      Returns-if (node_id_in_range id s.self.id n.id || same_id s.self.id n.id) _ _
        (λ _. answer-Returns cb n answers) (λ _. ask_around-Returns id cb)))

  pub node_find_successor-Returns :
      (id : ℕ) (cb : FoundCb)
      → me ≢ id
      → Answers p app mc me cb
      → Stays (Runs me false) (node_find_successor p app mc id cb)
  unfolding node_find_successor the_node ◌>>=◌
  node_find_successor-Returns id cb other answers = record {
    at = λ h (v, r).
        let ne : h.upper.self.id ≢ id = λ e. other (sym r.inv.id ∙ e) in
        rw (same_id_ne h.upper.self.id id ne) ((look_up-Returns id cb answers).at h (v, r));
  }
