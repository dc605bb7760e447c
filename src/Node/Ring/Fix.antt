-- ===== src/Node/Ring/Fix.antt =====
-- node_fix_a_finger of src/node.c: the id that a finger is to follow.
use fyp_dht.Prelude.{
  ℕ, zero, suc, ◌+◌, ◌-◌, ◌%◌, ◌^◌, ◌≡◌, ◌≤◌, ◌<◌, ◌⊎◌, inl, inr, refl, Bool-cases, arith, ltb,
}
use fyp_dht.Prelude.Outcome.{ok, ◌>>=◌, ◌>>◌, pure}
use fyp_dht.Ident.{IsId, hash_mod}
use fyp_dht.Ident.Arc.{arc, two_to_the_n_lem, pow_small}
use fyp_dht.Platform.{Platform}
use fyp_dht.Callback.{finger_update}
use fyp_dht.Netio.Server.{Host}
use fyp_dht.Node.State.{NodeSelf, Machine, id_bits, the_node}
use fyp_dht.Node.Send.{new_block}
use fyp_dht.Node.Found.{App}
use fyp_dht.Node.Find.{node_find_successor, fix_finger, node_fix_a_finger}

-- The arc from an id to the one that is `d` further on.
arc-further : (me d : ℕ) → IsId me → d < hash_mod → arc me ((me + d) % hash_mod) ≡ d
unfolding arc
arc-further me d hm lt = omega arith

module _ {Ev : Type 0} (p : Platform Ev) (app : App Ev) (mc : Machine) where
  -- Where the finger's search starts.
  abbrev pub target : Host Ev NodeSelf → ℕ → ℕ
  target h i = (h.upper.self.id + 2 ^ (i - 1)) % hash_mod

  -- For a node with an id of 32 bits: finger 0, and any from 32 on, is left alone; for another number i the
  -- successor of the id that is 2 ^ (i - 1) further on the ring is searched for, to be finger i,
  -- with a block from malloc for the callback's argument.
  pub node_fix_a_finger-arc :
      (i : ℕ) (h : Host Ev NodeSelf)
      → IsId h.upper.self.id
      → ((0 < i)
          × (i < id_bits)
          × (arc h.upper.self.id (target h i) ≡ 2 ^ (i - 1))
          × (node_fix_a_finger p app mc i h
              ≡ (new_block p
                    >> (node_find_successor p app mc (target h i) (finger_update i) >>= λ rc.
                        pure tt))
                  h))
        ⊎ (((i ≡ 0) ⊎ (id_bits ≤ i)) × (node_fix_a_finger p app mc i h ≡ ok (tt, h)))
  unfolding node_fix_a_finger fix_finger the_node pure ◌>>=◌
  node_fix_a_finger-arc zero h hm = inr (inl refl, refl)
  node_fix_a_finger-arc (suc n) h hm = elim (Bool-cases (ltb (suc n) id_bits)) [
    | inr beyond ↦ inr (inr (ground arith), rw beyond refl)
    | inl within ↦ elim (two_to_the_n_lem n) [
      | inl (less, e) ↦
          let shift : suc n - 1 ≡ n = omega arith in
          inl (
            omega arith,
            ground arith,
            rw shift (arc-further h.upper.self.id (2 ^ n) hm (omega (arith, pow_small n less))),
            rw (within, e, shift) refl,
          )
      | inr (more, e) ↦ absurd (ground arith)
    ]
  ]
