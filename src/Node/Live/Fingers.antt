-- ===== src/Node/Live/Fingers.antt =====
-- node_fix_fingers of src/node.c, for a node with a successor that is alive.
use fyp_dht.Prelude.{
  ℕ, zero, suc, ◌+◌, ◌%◌, ◌^◌, ◌≢◌, ◌<◌, inl, inr, ap, ◌∙◌, false, arith, pos, ltb,
}
use fyp_dht.Prelude.Outcome.{ok, ◌>>=◌}
use fyp_dht.Prelude.Returns.{Stays, Stays-bind, Returns-pure, Returns-if}
use native.Mathlib.Nat.{pow-suc}
use fyp_dht.Ident.{IsId, hash_mod, two_to_the_n}
use fyp_dht.Ident.Arc.{two_to_the_n_lem, pow_small}
use fyp_dht.Platform.{Platform}
use fyp_dht.Callback.{finger_update}
use fyp_dht.Node.State.{Machine, the_node}
use fyp_dht.Node.Send.{new_block}
use fyp_dht.Node.Blocks.{Gives, new_block-Returns}
use fyp_dht.Node.Found.{App, run_found, update_finger}
use fyp_dht.Node.Find.{
  node_find_successor, fix_finger, node_fix_a_finger, fix_from, node_fix_fingers,
}
use fyp_dht.Node.Live.Sends.{the_node-Returns}
use fyp_dht.Node.Live.Ready.{Ready, Runs, write_finger-Returns}
use fyp_dht.Node.Live.Finds.{Answers, node_find_successor-Returns}

-- The id that a finger is to follow is another than the node's own.
beside : (me power : ℕ) → IsId me → 0 < power → power < 2 ^ 32 → me ≢ (me + power) % hash_mod
beside me power hm positive lt e = omega arith

pow_pos : (n : ℕ) → 0 < 2 ^ n
pow_pos zero = omega arith
pow_pos (suc n) = omega (arith, pow_pos n, pow-suc 2 n)

module _ {Ev : Type 0} (p : Platform Ev) (memory : Gives p) (app : App Ev) (mc : Machine)
    (me : ℕ) where
  finger_update-Answers : (i : ℕ) → i < 32 → Answers p app mc me (finger_update i)
  unfolding run_found update_finger
  finger_update-Answers i lt n hops =
      Stays-bind _ _ the_node-Returns (λ s. write_finger-Returns i _ lt)

  fix_finger-Returns :
      (i power : ℕ)
      → IsId me
      → i < 32
      → 0 < power
      → power < 2 ^ 32
      → Stays (Runs me false) (fix_finger p app mc i (ok power))
  unfolding fix_finger the_node ◌>>=◌
  fix_finger-Returns i power hm lt positive small = record {
    at = λ h (v, r).
        let other : me ≢ (h.upper.self.id + power) % hash_mod =
          λ e. beside me power hm positive small (e ∙ ap (λ x. (x + power) % hash_mod) r.inv.id) in
        (Stays-bind (new_block p) _ (new_block-Returns p memory (Ready me false)) (λ _.
            Stays-bind
              (node_find_successor p app mc ((h.upper.self.id + power) % hash_mod)
                (finger_update i))
              _
              (node_find_successor-Returns p memory app mc me _ _ other
                (finger_update-Answers i lt))
              (λ rc. Returns-pure tt))).at
          h (v, r);
  }

  node_fix_a_finger-Returns :
      (i : ℕ) → IsId me → Stays (Runs me false) (node_fix_a_finger p app mc i)
  unfolding node_fix_a_finger
  node_fix_a_finger-Returns zero hm = Returns-pure tt
  node_fix_a_finger-Returns (suc i) hm =
      Returns-if (ltb (suc i) 32) _ _ (λ e. filled (ground arith)) (λ _. Returns-pure tt)
    where
      filled :
          suc i < 32 → Stays (Runs me false) (fix_finger p app mc (suc i) (two_to_the_n (pos i)))
      filled lt = elim (two_to_the_n_lem i) [
        | inl (less, e) ↦ rw e (
            fix_finger-Returns (suc i) (2 ^ i) hm lt (pow_pos i)
              (omega (arith, pow_small i (omega arith))))
        | inr (more, e) ↦ absurd (omega arith)
      ]

  fix_from-Returns : (left i : ℕ) → IsId me → Stays (Runs me false) (fix_from p app mc left i)
  unfolding fix_from
  fix_from-Returns zero i hm = Returns-pure tt
  fix_from-Returns (suc left) i hm =
      Stays-bind _ _ (node_fix_a_finger-Returns i hm) (λ _. fix_from-Returns left (suc i) hm)

  pub node_fix_fingers-Returns : IsId me → Stays (Runs me false) (node_fix_fingers p app mc)
  unfolding node_fix_fingers
  node_fix_fingers-Returns hm = fix_from-Returns 32 0 hm
