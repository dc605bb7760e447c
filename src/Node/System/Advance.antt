-- ===== src/Node/System/Advance.antt =====
-- What one run of src/node.c does to the places of a node on the ring: its successor and its
-- predecessor.
use fyp_dht.Prelude.{
  ℕ, zero, suc, ◌+◌, ◌%◌, ◌≡◌, ◌≢◌, ◌≤◌, ◌<◌, inl, inr, refl, sym, subst, ◌∙◌, false, arith, List,
  [], ◌∷◌, Option, some, none, get_elem?, set, Bool-cases, if◌then◌else◌,
}
use fyp_dht.Ident.{IsId, hash_mod}
use fyp_dht.Ident.Arc.{arc}
use fyp_dht.Ident.Gap.{not_own, taken_between, own_gap, arc-lt}
use fyp_dht.Callback.{NodeInfo}
use fyp_dht.Node.State.{NodeSelf}
use fyp_dht.Node.Maintain.{node_notified}
use fyp_dht.Node.Inv.Defs.{NodeInv, set_succ-Inv, set_finger-Inv}
use fyp_dht.Node.Ring.Successor.{Nearer}
use fyp_dht.Node.Ring.Predecessor.{node_notified-Claims}
use fyp_dht.Node.System.Inv.{Directory, Known, Placed}

-- The ids between a node and its first successor; all of them without one.
abbrev pub gap : ℕ → Option NodeInfo → ℕ
gap i (some n) = arc ((i + 1) % hash_mod) n.id
gap i none = hash_mod

abbrev pub ahead : ℕ → NodeSelf → ℕ
ahead i s = gap i (get_elem? s.successor 0)

-- The ids between a node and its predecessor; all of them without one.
abbrev pub behind : ℕ → NodeSelf → ℕ
behind i s = if s.has_pred then arc ((s.predecessor.id + 1) % hash_mod) i else hash_mod

get_elem?-set_head :
    (ns : List NodeInfo) (m n : NodeInfo)
    → get_elem? ns 0 ≡ some m
    → get_elem? (set ns 0 n) 0 ≡ some n
get_elem?-set_head [] m n e = cc
get_elem?-set_head (x ∷ ns) m n e = refl

get_elem?-set_behind :
    (ns : List NodeInfo) (k : ℕ) (n : NodeInfo) → 0 < k → get_elem? (set ns k n) 0 ≡ get_elem? ns 0
get_elem?-set_behind [] k n lt = refl
get_elem?-set_behind (x ∷ ns) zero n lt = absurd (omega arith)
get_elem?-set_behind (x ∷ ns) (suc k) n lt = refl

module _ (Member : ℕ → Type 0) (info : ℕ → NodeInfo) (dir : Directory Member info) where
  -- A node stays well placed and gets no further from its neighbours.
  pub record Advance (i : ℕ) (s s' : NodeSelf) : Type 0 where
    pub inv : NodeInv i false s'
    pub placed : Placed Member info i s'
    pub nearer : ahead i s' ≤ ahead i s
    pub closer : behind i s' ≤ behind i s

  module _ (i : ℕ) (s : NodeSelf) (inv : NodeInv i false s) (placed : Placed Member info i s) where
    pub Advance-same : {s' : NodeSelf} → s' ≡ s → Advance i s s'
    Advance-same e =
        subst (Advance i s) (sym e)
          (record { inv = inv; placed = placed; nearer = omega arith; closer = omega arith })

    pub Advance-finger :
        (k : ℕ) (n : NodeInfo) → Advance i s (record s { finger_table = set s.finger_table k n })
    Advance-finger k n = record {
      inv = set_finger-Inv k n s inv;
      placed = record {
        port = placed.port;
        succ = placed.succ;
        first = placed.first;
        succ_known = placed.succ_known;
        other = placed.other;
        pred_known = placed.pred_known;
        pred_id = placed.pred_id;
      };
      nearer = omega arith;
      closer = omega arith;
    }

    pub Advance-list :
        (k : ℕ) (n : NodeInfo) → 0 < k → Advance i s (record s { successor = set s.successor k n })
    Advance-list k n lt =
        let first = get_elem?-set_behind s.successor k n lt in
        record {
          inv = set_succ-Inv k n s inv;
          placed = record {
            port = placed.port;
            succ = placed.succ;
            first = first ∙ placed.first;
            succ_known = placed.succ_known;
            other = placed.other;
            pred_known = placed.pred_known;
            pred_id = placed.pred_id;
          };
          nearer = rw first (omega arith);
          closer = omega arith;
        }

    pub Advance-successor :
        (n : NodeInfo)
        → IsId i
        → Known Member info n
        → Nearer s placed.succ n
        → Advance i s (record s { successor = set s.successor 0 n })
    Advance-successor n hi known near =
        let first = get_elem?-set_head s.successor placed.succ n placed.first in
        let hn : IsId n.id = dir.ids n.id known.0 in
        let hs : IsId placed.succ.id = dir.ids placed.succ.id (placed.succ_known.0) in
        let le : arc ((i + 1) % hash_mod) n.id ≤ arc ((i + 1) % hash_mod) placed.succ.id =
          elim near [
            | inl own ↦ absurd (placed.other (sym own ∙ inv.id))
            | inr le ↦
                subst (λ k. arc ((k + 1) % hash_mod) n.id ≤ arc ((k + 1) % hash_mod) placed.succ.id)
                  (inv.id) le
          ] in
        record {
          inv = set_succ-Inv 0 n s inv;
          placed = record {
            port = placed.port;
            succ = n;
            first = first;
            succ_known = known;
            other = not_own i n.id placed.succ.id hi hn hs le placed.other;
            pred_known = placed.pred_known;
            pred_id = placed.pred_id;
          };
          nearer = rw (first, placed.first) le;
          closer = omega arith;
        }

    pub Advance-notified :
        (n : NodeInfo) → IsId i → Known Member info n → n.id ≢ i → Advance i s (node_notified s n)
    Advance-notified n hi known other =
        let hn : IsId n.id = dir.ids n.id known.0 in
        let own : IsId s.self.id = subst IsId (sym inv.id) hi in
        elim (node_notified-Claims s n own placed.pred_id hn) [
          | inr (far, e) ↦ Advance-same e
          | inl (claims, e) ↦ subst (Advance i s) (sym e) (record {
            inv = record { id = inv.id; lock = inv.lock; succs = inv.succs; fingers = inv.fingers };
            placed = record {
              port = placed.port;
              succ = placed.succ;
              first = placed.first;
              succ_known = placed.succ_known;
              other = placed.other;
              pred_known = λ _. known;
              pred_id = hn;
            };
            nearer = omega arith;
            closer = elim (Bool-cases s.has_pred) [
              | inr nothing ↦ rw nothing (omega (arith, arc-lt ((n.id + 1) % hash_mod) i))
              | inl has ↦ rw has (elim claims [
                | inl nothing ↦ cc
                | inr (inl itself) ↦ own_gap s.predecessor.id n.id i hn hi (itself ∙ inv.id)
                | inr (inr le) ↦
                    taken_between s.predecessor.id n.id i placed.pred_id hn hi
                      (subst (λ k. arc s.predecessor.id n.id ≤ arc s.predecessor.id k) (inv.id) le)
                      other
              ])
            ];
          })
        ]
