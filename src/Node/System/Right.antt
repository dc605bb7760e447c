-- ===== src/Node/System/Right.antt =====
-- A node of src/node.c that has its right neighbours keeps them, in every order of the runs.
use fyp_dht.Prelude.{
  ℕ, ◌+◌, ◌%◌, ◌≡◌, ◌≤◌, refl, ap, sym, subst, ◌∙◌, true, arith, some, get_elem?, Bool-cases, inl,
  inr,
}
use fyp_dht.Ident.{hash_mod}
use fyp_dht.Ident.Arc.{arc}
use fyp_dht.Ident.Gap.{same_end, same_start, arc-lt}
use fyp_dht.Platform.{Platform}
use fyp_dht.Callback.{NodeInfo}
use fyp_dht.Node.State.{NodeSelf, Machine}
use fyp_dht.Node.Found.{App}
use fyp_dht.Node.System.{System, Reach}
use fyp_dht.Node.System.Inv.{Directory, Known, Placed, SystemOk}
use fyp_dht.Node.System.Advance.{ahead, behind}
use fyp_dht.Node.System.Closer.{Reach-closer}

module _ (Member : ℕ → Type 0) (info : ℕ → NodeInfo) (dir : Directory Member info) where
  -- No member is nearer behind the node.
  abbrev pub IsNext : ℕ → ℕ → Type 0
  IsNext i n = (m : ℕ) → Member m → arc ((i + 1) % hash_mod) n ≤ arc ((i + 1) % hash_mod) m

  abbrev pub IsPrevious : ℕ → ℕ → Type 0
  IsPrevious i n = (m : ℕ) → Member m → arc ((n + 1) % hash_mod) i ≤ arc ((m + 1) % hash_mod) i

  Known-eq : (m n : NodeInfo) → Known Member info m → Known Member info n → m.id ≡ n.id → m ≡ n
  Known-eq m n km kn e = km.1 ∙ ap info e ∙ sym kn.1

  module _ (i : ℕ) (m : Member i) (a b : NodeSelf) (pa : Placed Member info i a)
      (pb : Placed Member info i b) where
    keeps_succ :
        (succ : NodeInfo)
        → get_elem? a.successor 0 ≡ some succ
        → IsNext i succ.id
        → ahead i b ≤ ahead i a
        → get_elem? b.successor 0 ≡ some succ
    keeps_succ succ first next le =
        let found : pa.succ ≡ succ = ground (arith, pa.first) in
        let known : Known Member info succ = subst (Known Member info) found pa.succ_known in
        let near : arc ((i + 1) % hash_mod) pb.succ.id ≤ arc ((i + 1) % hash_mod) succ.id =
          rw pb.first at (rw first at le) in
        let same =
          same_end i pb.succ.id succ.id (dir.ids pb.succ.id (pb.succ_known.0))
            (dir.ids succ.id (known.0)) (omega (arith, next pb.succ.id (pb.succ_known.0))) in
        pb.first ∙ ap some (Known-eq pb.succ succ pb.succ_known known same)

    keeps_pred :
        (pred : NodeInfo)
        → a.has_pred ≡ true
        → a.predecessor ≡ pred
        → IsPrevious i pred.id
        → behind i b ≤ behind i a
        → (b.has_pred ≡ true) × (b.predecessor ≡ pred)
    keeps_pred pred has before previous le =
        let known : Known Member info pred = subst (Known Member info) before (pa.pred_known has) in
        let was : behind i a ≡ arc ((pred.id + 1) % hash_mod) i =
          rw has (ap (λ (n : NodeInfo). arc ((n.id + 1) % hash_mod) i) before) in
        elim (Bool-cases b.has_pred) [
          | inr nothing ↦
              let all : behind i b ≡ hash_mod = rw nothing refl in
              absurd (omega (arith, arc-lt ((pred.id + 1) % hash_mod) i))
          | inl still ↦
              let is : behind i b ≡ arc ((b.predecessor.id + 1) % hash_mod) i = rw still refl in
              let known' = pb.pred_known still in
              let same =
                same_start i b.predecessor.id pred.id (dir.ids i m)
                  (dir.ids b.predecessor.id known'.0) (dir.ids pred.id (known.0))
                  (omega (arith, previous b.predecessor.id known'.0)) in
              (still, Known-eq b.predecessor pred known' known same)
        ]

  -- In a system in which each member is well formed with its lock free, has another member as its first
  -- successor, and has no one but members as that and as its predecessor, and in which the letters name no
  -- one else and none is from its receiver: a member whose first successor is the next member on the ring, and whose predecessor is the
  -- previous one, has the same first successor and the same predecessor after every sequence of runs.
  pub Reach-right :
      {Ev : Type 0} (p : Platform Ev) (app : App Ev) (mc : Machine) {s t : System Ev} (i : ℕ)
      (succ pred : NodeInfo)
      → Reach p app mc Member info s t
      → SystemOk Member info s
      → Member i
      → get_elem? (s.node i).upper.successor 0 ≡ some succ
      → IsNext i succ.id
      → (s.node i).upper.has_pred ≡ true
      → (s.node i).upper.predecessor ≡ pred
      → IsPrevious i pred.id
      → (get_elem? (t.node i).upper.successor 0 ≡ some succ)
        × ((t.node i).upper.has_pred ≡ true)
        × ((t.node i).upper.predecessor ≡ pred)
  Reach-right p app mc {s} {t} i succ pred r good m first next has before previous =
      let (there, by) = Reach-closer Member info dir p app mc r good in
      let (near, close) = by i m in
      let pa = (good.nodes i m).1 in
      let pb = (there.nodes i m).1 in
      let (has', same) =
        keeps_pred i m (s.node i).upper (t.node i).upper pa pb pred has before previous close in
      (keeps_succ i m (s.node i).upper (t.node i).upper pa pb succ first next near, has', same)
