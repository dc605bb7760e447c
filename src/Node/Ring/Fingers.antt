-- ===== src/Node/Ring/Fingers.antt =====
-- node_closest_preceding_node of src/node.c: which node is asked for the successor of an id.
use fyp_dht.Prelude.{
  ℕ, zero, suc, ◌≡◌, ◌≤◌, ◌<◌, ◌⊎◌, inl, inr, refl, ◌∙◌, true, false, arith, some, none, get_elem?,
  length, get_elem?_total, Bool-cases,
}
use native.Mathlib.Decide.{ℕ_discrete}
use fyp_dht.Prelude.Outcome.{ok, ◌>>=◌}
use fyp_dht.Ident.{IsId}
use fyp_dht.Ident.Arc.{arc, in_range_closer}
use fyp_dht.Callback.{NodeInfo}
use fyp_dht.Netio.Server.{Host}
use fyp_dht.Node.State.{NodeSelf, the_node, read_finger, read_succ, node_first_alive_succ, id_bits}
use fyp_dht.Node.Find.{precedes, finger_before, node_closest_preceding_node}

-- No finger with a number above `j`, up to `i`, precedes the id.
abbrev pub NoneAbove : NodeSelf → ℕ → ℕ → ℕ → Type 0
NoneAbove s id j i =
    (k : ℕ) (n : NodeInfo)
    → j < k
    → k ≤ i
    → get_elem? s.finger_table k ≡ some n
    → precedes s id n ≡ false

-- `n` is the finger with the highest number, from 1 to `i`, that precedes the id.
pub record IsHighest (s : NodeSelf) (id i : ℕ) (n : NodeInfo) : Type 0 where
  pub number : ℕ
  pub positive : 0 < number
  pub within : number ≤ i
  pub at : get_elem? s.finger_table number ≡ some n
  pub before : precedes s id n ≡ true
  pub above : NoneAbove s id number i

module _ {Ev : Type 0} (h : Host Ev NodeSelf) (id : ℕ) where
  abbrev Searched : ℕ → Type 0
  Searched i =
      ((n : NodeInfo) × (finger_before i id h ≡ ok (some n, h)) × IsHighest h.upper id i n)
      ⊎ ((finger_before i id h ≡ ok (none, h)) × NoneAbove h.upper id 0 i)

  passed_over :
      (i : ℕ) (n : NodeInfo)
      → get_elem? h.upper.finger_table (suc i) ≡ some n
      → precedes h.upper id n ≡ false
      → finger_before (suc i) id h ≡ finger_before i id h
  unfolding finger_before the_node read_finger ◌>>=◌
  passed_over i n at no_match = rw (at, no_match)

  one_more :
      (i j : ℕ) (n : NodeInfo)
      → get_elem? h.upper.finger_table (suc i) ≡ some n
      → precedes h.upper id n ≡ false
      → NoneAbove h.upper id j i
      → NoneAbove h.upper id j (suc i)
  one_more i j n at miss above k m lt le e = elim (ℕ_discrete k (suc i)) [
    | yes same ↦
        let is : get_elem? h.upper.finger_table (suc i) ≡ some m = rw (← same) e in
        let eq : n ≡ m = cc (at, is) in rw (← eq) miss
    | no ne ↦ above k m lt (omega arith) e
  ]

  taken :
      (i : ℕ) (n : NodeInfo)
      → get_elem? h.upper.finger_table (suc i) ≡ some n
      → precedes h.upper id n ≡ true
      → finger_before (suc i) id h ≡ ok (some n, h)
  unfolding finger_before the_node read_finger ◌>>=◌
  taken i n at match = rw (at, match)

  search_fingers : (i : ℕ) → i < length h.upper.finger_table → Searched i
  search_fingers zero lt =
      inr (unfold finger_before ◌>>=◌ in refl, λ k n pos le e. absurd (omega arith))
  search_fingers (suc i) lt =
      let (n, at) = get_elem?_total h.upper.finger_table (suc i) lt in
      elim (Bool-cases (precedes h.upper id n)) [
        | inl match ↦ inl (
          n,
          taken i n at match,
          record {
            number = suc i;
            positive = omega arith;
            within = omega arith;
            at = at;
            before = match;
            above = λ k m above le e. absurd (omega arith);
          },
        )
        | inr miss ↦ elim (search_fingers i (omega arith)) [
          | inl (m, runs, best) ↦ inl (
            m,
            passed_over i n at miss ∙ runs,
            record {
              number = best.number;
              positive = best.positive;
              within = omega (arith, best.within);
              at = best.at;
              before = best.before;
              above = one_more i best.number n at miss best.above;
            },
          )
          | inr (runs, nothing) ↦
              inr (passed_over i n at miss ∙ runs, one_more i 0 n at miss nothing)
        ]
      ]

  -- With a table of 32 fingers the node asked is the highest-numbered finger, from 1 on, that is set
  -- and lies in the range from this node to the id; with no such finger it is the first successor
  -- that is alive. The state does not change.
  pub closest_preceding-IsHighest :
      length h.upper.finger_table ≡ id_bits
      → ((n : NodeInfo) × (node_closest_preceding_node id h ≡ ok (n, h))
          × IsHighest h.upper id 31 n)
        ⊎ ((node_closest_preceding_node id h ≡ read_succ (node_first_alive_succ h.upper) h)
            × NoneAbove h.upper id 0 31)
  unfolding node_closest_preceding_node the_node ◌>>=◌
  closest_preceding-IsHighest size = elim (search_fingers 31 (omega arith)) [
    | inl (n, runs, best) ↦ inl (n, rw runs, best)
    | inr (runs, nothing) ↦ inr (rw runs, nothing)
  ]

-- A finger that precedes an id is no further from this node, clockwise, than the id is.
pub precedes-arc :
    (s : NodeSelf) (id : ℕ) (n : NodeInfo)
    → IsId s.self.id
    → IsId id
    → IsId n.id
    → precedes s id n ≡ true
    → (arc s.self.id n.id ≤ arc s.self.id id) × (arc n.id id ≤ arc s.self.id id)
precedes-arc s id n hs hi hn e = ground (arith, in_range_closer n.id s.self.id id hn hs hi)
