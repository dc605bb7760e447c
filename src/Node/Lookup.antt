-- ===== src/Node/Lookup.antt =====
-- A search of src/node.c that ends at the node that is asked: the request comes in, the answer goes out.
use fyp_dht.Prelude.{
  ℕ, ◌^◌, ◌≡◌, ◌≢◌, ◌<◌, refl, ap, sym, ◌∙◌, true, false, List, [], ◌++◌, some, ℤ, pos, get_elem?,
  inl, inr, ◌||◌,
}
use fyp_dht.Prelude.Outcome.{ok, >>=-ok, >>-ok, pure}
use fyp_dht.Ident.{node_id_in_range}
use fyp_dht.Platform.{Platform, Evbuffer, input, output}
use fyp_dht.Callback.{NodeInfo, node_successor_found_for_remote}
use fyp_dht.Wire.Memory.{memory_bytes}
use fyp_dht.Netio.Server.{Host}
use fyp_dht.Netio.Live.{IsOpen, moved_on}
use fyp_dht.Node.State.{NodeSelf, Machine, id_bytes, unlock_succs, node_first_alive_succ}
use fyp_dht.Node.Send.{new_block, message_text, request, msg_t_succ_req}
use fyp_dht.Node.Blocks.{Gives, after_block, new_block-ok}
use fyp_dht.Node.Found.{App, same_id, run_found, node_found, successor_found_for_remote}
use fyp_dht.Node.Find.{node_find_successor, found_here}
use fyp_dht.Node.Incoming.{incoming_read}
use fyp_dht.Node.Replies.{Removes}
use fyp_dht.Node.Requests.{since, request_taken}
use fyp_dht.Node.Exchange.{Adds, reply, answered}
use fyp_dht.Node.Ring.Search.{locked, node_find_successor-asks}

-- malloc leaves what the buffers hold.
pub record Leaves {Ev : Type 0} (p : Platform Ev) (contents : Ev → Evbuffer → List ℕ) : Type 0 where
  pub same : (ev : Ev) (b : Evbuffer) → contents (p.malloc ev).1 b ≡ contents ev b

-- What is taken from an input buffer leaves the output buffers.
pub record Apart {Ev : Type 0} (p : Platform Ev) (contents : Ev → Evbuffer → List ℕ) : Type 0 where
  pub left :
      (ev : Ev) (b w : ℕ)
      → contents (p.evbuffer_remove ev (input b) w).1 (output b) ≡ contents ev (output b)

module _ {Ev : Type 0} (p : Platform Ev) (contents : Ev → Evbuffer → List ℕ)
    (laws : Removes p contents) (adds : Adds p contents) (apart : Apart p contents)
    (memory : Gives p) (leaves : Leaves p contents) (app : App Ev) (mc : Machine) where
  unlock_held :
      (t : Host Ev NodeSelf)
      → t.upper.succs_lock ≡ true
      → unlock_succs t ≡ ok (tt, record t { upper = record (t.upper) { succs_lock = false } })
  unfolding unlock_succs
  unlock_held t held = rw held refl

  found_runs :
      (conn : ℤ) (n : NodeInfo) (h : Host Ev NodeSelf)
      → node_found p app mc (found_here p app mc (node_successor_found_for_remote conn) n) h
        ≡ successor_found_for_remote p app mc n conn 0 h
  unfolding node_found run_found
  found_runs conn n h = refl

  -- If malloc always gives a block and leaves the buffers alone: a node with its lock free is asked, over an open connection with nothing in its output buffer, for the
  -- successor of a 32-bit id other than its own, which lies between it and its first successor that is
  -- alive, or that successor is the node itself: incoming_read_cb returns with no fault, the node is as it
  -- was, and what is in the output buffer is the answer with that successor and one hop.
  pub incoming_read-answers :
      (h : Host Ev NodeSelf) (conn : ℤ) (is_open : IsOpen conn h.net) (from to n : NodeInfo)
      (id k : ℕ) (more : List ℕ)
      → h.upper.succs_lock ≡ false
      → h.upper.self.id ≢ id
      → node_first_alive_succ h.upper ≡ pos k
      → get_elem? h.upper.successor k ≡ some n
      → node_id_in_range id h.upper.self.id n.id || same_id h.upper.self.id n.id ≡ true
      → id < 2 ^ 32
      → contents h.net.ev (input is_open.handle)
        ≡ message_text (request from to msg_t_succ_req id_bytes)
          ++ (memory_bytes mc.big id_bytes id ++ more)
      → contents h.net.ev (output is_open.handle) ≡ []
      → (t : Host Ev NodeSelf) × (incoming_read p app mc conn h ≡ ok (tt, t))
        × (t.upper ≡ h.upper)
        × (contents t.net.ev (output is_open.handle) ≡ reply mc.big n 1 [])
  unfolding pure
  incoming_read-answers h conn is_open from to n id k more free other first at here lt came
        nothing =
      let out = output is_open.handle in
      let (ev, taken, rest, empty) =
        request_taken p contents laws app mc h conn is_open (λ ev. contents ev out ≡ [])
          (λ ev w e. apart.left ev is_open.handle w ∙ e) from to id _ more lt came (inl refl)
          nothing in
      let s = since p contents laws app mc h ev in
      let s' = after_block p s in
      let w = after_block p (locked p app mc s') in
      let (t, runs, holds, same) =
        answered p contents app mc adds w conn (moved_on h.net w.net.ev is_open) n 0 in
      let found = node_find_successor p app mc id (node_successor_found_for_remote conn) in
      let finds : found s'
          ≡ ok (pos 0, record t { upper = record (t.upper) { succs_lock = false } }) =
        elim (node_find_successor-asks p app mc s' id k n (node_successor_found_for_remote conn)
          free other first at) [
            | inl (in_range, e) ↦
                e
                ∙ >>-ok (new_block p) _ (locked p app mc s')
                    (new_block-ok p memory (locked p app mc s'))
                ∙ >>-ok
                    (node_found p app mc
                      (found_here p app mc (node_successor_found_for_remote conn) n))
                    _ w (found_runs conn n w ∙ runs)
                ∙ >>-ok unlock_succs _ t (unlock_held t (ap (λ (u : NodeSelf). u.succs_lock) same))
            | inr (outside, e) ↦ cc
          ] in
      (
        record t { upper = record (t.upper) { succs_lock = false } },
        taken ∙ >>-ok (new_block p) _ s (new_block-ok p memory s) ∙ >>=-ok found _ s' finds,
        ap (λ (u : NodeSelf). record u { succs_lock = false }) same
            ∙ ap (λ b. record (h.upper) { succs_lock = b }) (sym free),
        holds
            ∙ ap (λ (c : List ℕ). c ++ reply mc.big n 1 [])
                (leaves.same s'.net.ev out ∙ leaves.same ev out ∙ empty),
      )
