-- ===== src/Node/Ring/Alone.antt =====
-- A node of src/node.c that has created a network, and is alone in it.
use fyp_dht.Prelude.{
  ℕ, ◌⊎◌, ◌<◌, ◌≡◌, ◌≢◌, inl, inr, refl, sym, ◌∙◌, Bool, true, false, arith, List, [], ◌∷◌,
  Option-cases, some, ◌==◌, ◌||◌, ℤ, pos, negsuc, set, get_elem?, length, ltb,
}
use fyp_dht.Prelude.Outcome.{Outcome, ok, ◌>>=◌, ◌>>◌, >>-ok, pure, if_some}
use fyp_dht.Ident.{node_id_in_range}
use fyp_dht.Platform.{Platform}
use fyp_dht.Callback.{NodeInfo, FoundCb, node_network_joined}
use fyp_dht.Netio.Conn.{ask, call}
use fyp_dht.Netio.Server.{Host, on_net}
use fyp_dht.Node.State.{
  NodeSelf, Machine, the_node, change, write_succ, unlock_succs, node_first_alive_succ,
  first_alive_from,
}
use fyp_dht.Node.Send.{new_block}
use fyp_dht.Node.Blocks.{Gives, after_block, new_block-ok}
use fyp_dht.Node.Loop.{LoopEvent}
use fyp_dht.Node.Found.{App, node_found, same_id}
use fyp_dht.Node.Find.{found_here, node_find_successor}
use fyp_dht.Node.Inv.Defs.{Inv}
use fyp_dht.Netio.State.{NetServer}
use fyp_dht.Node.Life.{node_network_create, net_server_run}
use fyp_dht.Node.Ring.Search.{locked, node_find_successor-asks, same_id_self}

-- Its own successor and predecessor.
abbrev pub alone : NodeSelf → NodeSelf
alone s = record s { successor = set s.successor 0 s.self; predecessor = s.self; has_pred = true }

module _ (s : NodeSelf) (n : NodeInfo) (ns : List NodeInfo) (are : s.successor ≡ n ∷ ns) where
  alone_first : s.self.ip ≢ 0 → node_first_alive_succ (alone s) ≡ pos 0
  unfolding node_first_alive_succ first_alive_from
  alone_first up = let set_up : (s.self.ip == 0) ≡ false = ground arith in rw (are, set_up) refl

  alone_at : get_elem? (alone s).successor 0 ≡ some s.self
  alone_at = rw are refl

module _ {Ev : Type 0} (p : Platform Ev) (memory : Gives p) (app : App Ev) (mc : Machine) where
  -- A run of the event loop with the node alone.
  abbrev pub loop_alone :
      List LoopEvent → Host Ev NodeSelf → NetServer Ev → Outcome (ℤ × Host Ev NodeSelf)
  loop_alone events h net =
      net_server_run p app mc events (record { net = net; upper = alone h.upper })

  -- It is refused, with no event for the loop, or the loop runs.
  abbrev pub CreatesAlone : List LoopEvent → ℕ → Host Ev NodeSelf → NetServer Ev → Type 0
  CreatesAlone events joined h net =
      (node_network_create p app mc events joined h
        ≡ ok (negsuc 0, record { net = net; upper = alone h.upper }))
      ⊎ (node_network_create p app mc events joined h ≡ loop_alone events h net)

  creates_alone :
      (events : List LoopEvent) (joined : ℕ) (h : Host Ev NodeSelf)
      → 0 < length h.upper.successor
      → (net : NetServer Ev) × CreatesAlone events joined h net
  unfolding node_network_create new_block write_succ change the_node on_net ask call if_some pure
      ◌>>=◌
  creates_alone events joined h some_there =
      let within : ltb 0 (length h.upper.successor) ≡ true = ground arith in
      let got = memory.given h.net.ev in
      let made = p.event_new (p.malloc h.net.ev).1 false (node_network_joined joined) in
      elim (Option-cases made.0) [
        | inl absent ↦ (record (h.net) { ev = made.1 }, inl (rw (within, got, absent) refl))
        | inr (e, there) ↦
            (record (h.net) { ev = p.event_active made.1 e }, inr (rw (within, got, there) refl))
      ]

  some_first :
      (xs : List NodeInfo) → 0 < length xs → (n : NodeInfo) × (ns : List NodeInfo) × (xs ≡ n ∷ ns)
  some_first [] lt = absurd (omega arith)
  some_first (n ∷ ns) lt = (n, ns, refl)

  -- If malloc always gives a block, and the process is well formed and its node has an address:
  -- node_network_create makes the node its own successor and predecessor, and then returns -1 or runs the
  -- event loop, whatever events that hands over; and where the loop starts, a search for any id but the
  -- node's own finds the node itself, with its lock held while the callback runs.
  pub node_network_create-finds_itself :
      (me joined id : ℕ) (events : List LoopEvent) (h : Host Ev NodeSelf) (cb : FoundCb)
      → Inv me false h
      → h.upper.self.ip ≢ 0
      → me ≢ id
      → (net : NetServer Ev) × CreatesAlone events joined h net
        × (node_find_successor p app mc id cb (record { net = net; upper = alone h.upper })
            ≡ (node_found p app mc (found_here p app mc cb h.upper.self)
                  >> (unlock_succs >> pure (pos 0)))
                (after_block p (locked p app mc (record { net = net; upper = alone h.upper }))))
  node_network_create-finds_itself me joined id events h cb (v, i) up other =
      let (n, ns, are) = some_first h.upper.successor (omega (arith, i.succs)) in
      let (net, runs) = creates_alone events joined h (omega (arith, i.succs)) in
      let t : Host Ev NodeSelf = record { net = net; upper = alone h.upper } in
      let ne : h.upper.self.id ≢ id = λ e. other (sym i.id ∙ e) in
      (
        net,
        runs,
        elim (node_find_successor-asks p app mc t id 0 h.upper.self cb i.lock ne
            (alone_first h.upper n ns are up) (alone_at h.upper n ns are)) [
              | inl (here, e) ↦
                  e
                  ∙ >>-ok (new_block p) _ (locked p app mc t)
                      (new_block-ok p memory (locked p app mc t))
              | inr (there, e) ↦
                  absurd (itself (node_id_in_range id h.upper.self.id h.upper.self.id) there)
            ],
      )
    where
      itself : (b : Bool) → ¬ (b || same_id h.upper.self.id h.upper.self.id ≡ false)
      itself true e = cc
      itself false e = cc (same_id_self h.upper.self.id)
