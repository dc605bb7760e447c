-- ===== src/Node/Ring/Alive.antt =====
-- node_first_alive_succ of src/node.c.
use fyp_dht.Prelude.{
  ℕ, zero, suc, ◌+◌, ◌≡◌, ◌≢◌, ◌<◌, ◌⊎◌, inl, inr, refl, subst, arith, List, [], ◌∷◌, some,
  get_elem?, length, ◌==◌, ==_iff, ℤ, pos, negsuc, Bool-cases,
}
use fyp_dht.Callback.{NodeInfo}
use fyp_dht.Node.State.{NodeSelf, node_first_alive_succ, first_alive_from}

-- The entries before the i-th are all cleared: their address is 0.
abbrev pub ClearedBelow : ℕ → List NodeInfo → Type 0
ClearedBelow i ns = (j : ℕ) (n : NodeInfo) → j < i → get_elem? ns j ≡ some n → n.ip ≡ 0

abbrev pub FirstAlive : ℕ → List NodeInfo → ℤ → Type 0
FirstAlive k ns r =
    ((r ≡ negsuc 0) × ClearedBelow (length ns) ns)
    ⊎ ((i : ℕ) × (n : NodeInfo) × (r ≡ pos (k + i))
        × (get_elem? ns i ≡ some n)
        × (n.ip ≢ 0)
        × ClearedBelow i ns)

ClearedBelow-cons :
    (n : NodeInfo) (ns : List NodeInfo) (i : ℕ)
    → n.ip ≡ 0
    → ClearedBelow i ns
    → ClearedBelow (suc i) (n ∷ ns)
ClearedBelow-cons n ns i e h zero m lt at = ground arith
ClearedBelow-cons n ns i e h (suc j) m lt at = h j m (omega arith) at

skip_cleared :
    (k : ℕ) (n : NodeInfo) (ns : List NodeInfo) (r : ℤ)
    → n.ip ≡ 0
    → FirstAlive (suc k) ns r
    → FirstAlive k (n ∷ ns) r
skip_cleared k n ns r e (inl (none, h)) = inl (none, ClearedBelow-cons n ns _ e h)
skip_cleared k n ns r e (inr (i, m, is, at, alive, h)) =
    inr (suc i, m, ground arith, at, alive, ClearedBelow-cons n ns i e h)

first_alive_from_lem : (k : ℕ) (ns : List NodeInfo) → FirstAlive k ns (first_alive_from k ns)
unfolding first_alive_from
first_alive_from_lem k [] = inl (refl, λ j n lt at. absurd (omega arith))
first_alive_from_lem k (n ∷ ns) = elim (Bool-cases (n.ip == 0)) [
  | inl dead ↦
      subst (FirstAlive k (n ∷ ns)) (ground arith)
        (skip_cleared k n ns _ ((==_iff n.ip 0).0 dead) (first_alive_from_lem (suc k) ns))
  | inr alive ↦ inr (0, n, ground arith, refl, ground arith, λ j m lt at. absurd (omega arith))
]

-- The number found is that of the first successor whose address is not 0, and it is -1 exactly when
-- every successor is cleared.
pub node_first_alive_succ-FirstAlive :
    (s : NodeSelf) → FirstAlive 0 s.successor (node_first_alive_succ s)
unfolding node_first_alive_succ
node_first_alive_succ-FirstAlive s = first_alive_from_lem 0 s.successor

first_alive_from_head :
    (ns : List NodeInfo) (n : NodeInfo)
    → get_elem? ns 0 ≡ some n
    → n.ip ≢ 0
    → first_alive_from 0 ns ≡ pos 0
unfolding first_alive_from
first_alive_from_head [] n at alive = cc
first_alive_from_head (m ∷ ns) n at alive = ground arith

-- A first entry that is alive is the first successor that is.
pub node_first_alive_succ_head :
    (s : NodeSelf) (n : NodeInfo)
    → get_elem? s.successor 0 ≡ some n
    → n.ip ≢ 0
    → node_first_alive_succ s ≡ pos 0
unfolding node_first_alive_succ
node_first_alive_succ_head s n at alive = first_alive_from_head s.successor n at alive
