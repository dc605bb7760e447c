-- ===== src/Node/Ring/Predecessor.antt =====
-- node_notified of src/node.c: when a node that claims to be the predecessor is taken.
use fyp_dht.Prelude.{Bool-cases, ◌≡◌, ◌≢◌, ◌≤◌, ◌⊎◌, inl, inr, true, false, arith, leb}
use native.Mathlib.Decide.{ℕ_discrete}
use fyp_dht.Ident.{IsId, node_id_compare}
use fyp_dht.Ident.Arc.{arc, in_range-arc, in_range_closer}
use fyp_dht.Callback.{NodeInfo}
use fyp_dht.Node.State.{NodeSelf}
use fyp_dht.Node.Maintain.{node_notified}

-- On the ring: there is no predecessor, or the predecessor is this node, or the claimant is no further
-- behind the predecessor, clockwise, than this node is.
abbrev pub Claims : NodeSelf → NodeInfo → Type 0
Claims s n =
    (s.has_pred ≡ false)
    ⊎ (s.predecessor.id ≡ s.self.id)
    ⊎ (arc s.predecessor.id n.id ≤ arc s.predecessor.id s.self.id)

Claims-or_not : (s : NodeSelf) (n : NodeInfo) → Claims s n ⊎ (¬ Claims s n)
Claims-or_not s n = elim (Bool-cases s.has_pred) [
  | inr none ↦ inl (inl none)
  | inl has ↦ elim (ℕ_discrete s.predecessor.id s.self.id) [
    | yes own ↦ inl (inr (inl own))
    | no other ↦
        elim (Bool-cases (leb (arc s.predecessor.id n.id) (arc s.predecessor.id s.self.id))) [
          | inr far ↦ inr (λ c. ground arith)
          | inl near ↦ inl (inr (inr (ground arith)))
        ]
  ]
]

-- A claimant is taken as the predecessor exactly when it has the claim; then only the predecessor
-- changes, and otherwise nothing does.
pub node_notified-Claims :
    (s : NodeSelf) (n : NodeInfo)
    → IsId s.self.id
    → IsId s.predecessor.id
    → IsId n.id
    → (Claims s n × (node_notified s n ≡ record s { predecessor = n; has_pred = true }))
      ⊎ ((¬ Claims s n) × (node_notified s n ≡ s))
unfolding node_notified node_id_compare
node_notified-Claims s n hs hp hn = elim (Claims-or_not s n) [
  | inl c ↦ inl (c, ground (arith, in_range-arc n.id s.predecessor.id s.self.id hn hp hs))
  | inr c ↦
      let has : ¬ (s.has_pred ≡ false) = λ e. c (inl e) in
      let other : ¬ (s.predecessor.id ≡ s.self.id) = λ e. c (inr (inl e)) in
      let far : ¬ (arc s.predecessor.id n.id ≤ arc s.predecessor.id s.self.id) =
        λ e. c (inr (inr e)) in
      inr (c, ground (arith, in_range-arc n.id s.predecessor.id s.self.id hn hp hs))
]

-- A predecessor other than this node is only replaced by one that is no further away, clockwise.
pub node_notified_closer :
    (s : NodeSelf) (n : NodeInfo)
    → IsId s.self.id
    → IsId s.predecessor.id
    → IsId n.id
    → s.has_pred ≡ true
    → s.predecessor.id ≢ s.self.id
    → (arc (node_notified s n).predecessor.id s.self.id ≤ arc s.predecessor.id s.self.id)
      × ((node_notified s n).has_pred ≡ true)
unfolding node_notified node_id_compare
node_notified_closer s n hs hp hn has ne =
    ground (arith, in_range_closer n.id s.predecessor.id s.self.id hn hp hs)
