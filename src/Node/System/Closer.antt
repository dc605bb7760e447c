-- ===== src/Node/System/Closer.antt =====
-- Nodes of src/node.c that stabilise their ring get closer to their neighbours, in every order of the
-- runs.
use fyp_dht.Prelude.{
  ℕ, ◌≡◌, ◌≢◌, ◌≤◌, ◌⊎◌, inl, inr, refl, ap, sym, subst, ◌∙◌, false, arith, List, ◌∷◌, Bool-cases,
  ◌==◌, ==_iff,
}
use fyp_dht.Prelude.Outcome.{ok, ◌>>=◌}
use fyp_dht.Ident.{IsId}
use fyp_dht.Platform.{Platform}
use fyp_dht.Callback.{NodeInfo, null_node}
use fyp_dht.Netio.Valid.{IsValid}
use fyp_dht.Netio.Server.{Host}
use fyp_dht.Node.State.{NodeSelf, Machine, read_succ, the_node, node_first_alive_succ}
use fyp_dht.Node.Found.{App}
use fyp_dht.Node.Inv.Defs.{NodeInv}
use fyp_dht.Node.Ring.Alive.{node_first_alive_succ_head}
use fyp_dht.Node.System.{
  Letter, ask, answer, notice, System, named, as_seen, goes, Step, stabalizes, answers, is_answered,
  is_notified, lists, fingers, serves, Reach, here, later,
}
use fyp_dht.Node.System.Runs.{
  Same, Stabilised, is_null, Post-ok, stabilize_sp_found-Stabilised, update_succs_found-Same,
  update_finger-Same, node_network_stabalize-Same, pred_request-Same,
}
use fyp_dht.Node.System.Inv.{
  Directory, Known, Placed, LettersOk, letter_ok, SystemOk, goes-SystemOk,
}
use fyp_dht.Node.System.Advance.{
  Advance, ahead, behind, Advance-same, Advance-finger, Advance-list, Advance-successor,
  Advance-notified,
}

module _ (Member : ℕ → Type 0) (info : ℕ → NodeInfo) (dir : Directory Member info) where
  abbrev Goes : ℕ → NodeSelf → NodeSelf → Type 0
  Goes = Advance Member info dir

  as_seen-Known :
      (i : ℕ) (s : NodeSelf)
      → Member i
      → NodeInv i false s
      → Placed Member info i s
      → Known Member info (as_seen info i s)
  as_seen-Known i s m inv placed = (
    subst Member (sym inv.id) m,
    (λ j. record { id = (inv.id ∙ sym (dir.own i m)) j; ip = (info i).ip; port = placed.port j })
        ∙ ap info (sym inv.id),
  )

  succ_alive : (i : ℕ) (s : NodeSelf) (placed : Placed Member info i s) → placed.succ.ip ≢ 0
  succ_alive i s placed e =
      dir.alive placed.succ.id (placed.succ_known.0)
        (subst (λ (m : NodeInfo). m.ip ≡ 0) (placed.succ_known.1) e)

  told_id : (n : NodeInfo) → (n ≡ null_node) ⊎ Known Member info n → IsId n.id
  told_id n (inl e) = subst (λ (k : NodeInfo). IsId k.id) (sym e) (omega arith)
  told_id n (inr known) = dir.ids n.id known.0

  named-Known :
      (i : ℕ) (s : NodeSelf)
      → Placed Member info i s
      → (named s ≡ null_node) ⊎ Known Member info (named s)
  named-Known i s placed = elim (Bool-cases s.has_pred) [
    | inl has ↦ rw has (inr (placed.pred_known has))
    | inr nothing ↦ rw nothing (inl refl)
  ]

  module _ {Ev : Type 0} where
    abbrev Ok : System Ev → Type 0
    Ok = SystemOk Member info

    abbrev After : System Ev → System Ev → Type 0
    After s t = Ok t × ((j : ℕ) → Member j → Goes j (s.node j).upper (t.node j).upper)

    unmoved :
        (s : System Ev) (i : ℕ) (m : Member i) {u : NodeSelf}
        → Ok s
        → u ≡ (s.node i).upper
        → Goes i (s.node i).upper u
    unmoved s i m good e =
        Advance-same Member info dir i (s.node i).upper ((good.nodes i m).0).1 ((good.nodes i m).1)
          e

    stays : (s : System Ev) → Ok s → After s s
    stays s good = (good, λ j m. unmoved s j m good refl)

    goes-After :
        (s : System Ev) (i : ℕ) (h : Host Ev NodeSelf) (ls : List Letter)
        → Ok s
        → IsValid h.net
        → Goes i (s.node i).upper h.upper
        → LettersOk Member info ls
        → After s (goes s i h ls)
    goes-After s i h ls good v adv sent = (
      goes-SystemOk Member info s i h ls good ((v, adv.inv), adv.placed) sent,
      λ j m. elim (Bool-cases (i == j)) [
        | inl e ↦ rw e (subst (λ k. Goes k (s.node k).upper h.upper) ((==_iff i j).0 e) adv)
        | inr e ↦ rw e ((stays s good).1 j m)
      ],
    )

    -- The successor that is read is the first entry.
    reads_first :
        (i : ℕ) (h : Host Ev NodeSelf) (placed : Placed Member info i h.upper) (n : NodeInfo)
        → read_succ (node_first_alive_succ h.upper) h ≡ ok (n, h)
        → n ≡ placed.succ
    unfolding read_succ the_node ◌>>=◌
    reads_first i h placed n reads =
        let first =
          node_first_alive_succ_head h.upper placed.succ placed.first
            (succ_alive i h.upper placed) in
        let same : read_succ (node_first_alive_succ h.upper) h ≡ ok (placed.succ, h) =
          rw (first, placed.first) refl in
        cc

    module _ (p : Platform Ev) (app : App Ev) (mc : Machine) where
      told :
          (s : System Ev) (i : ℕ) (n : NodeInfo) (h : Host Ev NodeSelf) (m : Member i) (good : Ok s)
          → (n ≡ null_node) ⊎ Known Member info n
          → Stabilised p app mc (s.node i) ((good.nodes i m).1).succ n h
          → Goes i (s.node i).upper h.upper
      told s i n h m good known (v, inl e) = unmoved s i m good e
      told s i n h m good (inl nothing) (v, inr (real, near, e)) =
          let not_null : is_null null_node ≡ false =
            subst (λ (k : NodeInfo). is_null k ≡ false) nothing real in
          cc
      told s i n h m good (inr known) (v, inr (real, near, e)) =
          subst (Goes i (s.node i).upper) (sym e) (
            Advance-successor Member info dir i (s.node i).upper ((good.nodes i m).0).1
              ((good.nodes i m).1) n (dir.ids i m) known near)

      pub Step-After : {s t : System Ev} → Step p app mc Member info s t → Ok s → After s t
      Step-After {s} (stabalizes i succ {h} m runs reads) good =
          let (v, e) =
            Post-ok (λ _. Same (s.node i).upper) runs
              ((node_network_stabalize-Same p app mc (s.node i).upper).at (s.node i)
                (((good.nodes i m).0).0, refl)) in
          goes-After s i h (ask succ.id i ∷ s.letters) good v (unmoved s i m good e) (tt, good.sent)
      Step-After {s} (answers i from conn {h} m asked runs) good =
          let (v, e) =
            Post-ok (λ _. Same (s.node i).upper) runs
              ((pred_request-Same p app mc (s.node i).upper conn).at (s.node i)
                (((good.nodes i m).0).0, refl)) in
          goes-After s i h (answer from (named (s.node i).upper) ∷ s.letters) good v
            (unmoved s i m good e) (named-Known i (s.node i).upper ((good.nodes i m).1), good.sent)
      Step-After {s} (is_answered i n succ {h} m sent runs reads) good =
          let placed = (good.nodes i m).1 in
          let known = letter_ok Member info (answer i n) s.letters good.sent sent in
          let after =
            stabilize_sp_found-Stabilised p app mc ((good.nodes i m).0) placed.succ n placed.first
              (succ_alive i (s.node i).upper placed) (dir.ids placed.succ.id (placed.succ_known.0))
              (told_id n known) runs in
          let adv = told s i n h m good known after in
          goes-After s i h (notice succ.id (as_seen info i h.upper) ∷ s.letters) good after.0 adv (
            (
              as_seen-Known i h.upper m adv.inv adv.placed,
              λ e. adv.placed.other (
                  ap (λ (n : NodeInfo). n.id) (sym (reads_first i h adv.placed succ reads))
                  ∙ sym e
                  ∙ adv.inv.id),
            ),
            good.sent,
          )
      Step-After {s} (is_notified i n {h} m sent v e) good =
          let known = letter_ok Member info (notice i n) s.letters good.sent sent in
          goes-After s i h s.letters good v
            (subst (Goes i (s.node i).upper) (sym e) (
              Advance-notified Member info dir i (s.node i).upper ((good.nodes i m).0).1
                ((good.nodes i m).1) n (dir.ids i m) (known.0) (known.1)))
            good.sent
      Step-After {s} (lists i n k {h} m lt runs) good =
          let (v, e) =
            Post-ok (λ _. Same _) runs
              ((update_succs_found-Same p app mc (s.node i).upper n k
                  (((good.nodes i m).0).1.lock)).at
                (s.node i) (((good.nodes i m).0).0, refl)) in
          goes-After s i h s.letters good v
            (subst (Goes i (s.node i).upper) (sym e) (
              Advance-list Member info dir i (s.node i).upper ((good.nodes i m).0).1
                ((good.nodes i m).1) k n lt))
            good.sent
      Step-After {s} (fingers i n k {h} m runs) good =
          let (v, e) =
            Post-ok (λ _. Same _) runs
              ((update_finger-Same p app mc (s.node i).upper n k).at (s.node i)
                (((good.nodes i m).0).0, refl)) in
          goes-After s i h s.letters good v
            (subst (Goes i (s.node i).upper) (sym e) (
              Advance-finger Member info dir i (s.node i).upper ((good.nodes i m).0).1
                ((good.nodes i m).1) k _))
            good.sent
      Step-After {s} (serves i {h} m v e) good =
          goes-After s i h s.letters good v (unmoved s i m good e) good.sent

  -- From a system in which each member is well formed with its lock free, has another member as its first
  -- successor, and has no one but members as that and as its predecessor, and in which the letters name no
  -- one else and none is from its receiver: every sequence of runs leads to such a system, in which no
  -- member is further from its first successor or from its predecessor than before, counted by the ids
  -- between them, and by the whole ring without a predecessor.
  pub Reach-closer :
      {Ev : Type 0} (p : Platform Ev) (app : App Ev) (mc : Machine) {s t : System Ev}
      → Reach p app mc Member info s t
      → SystemOk Member info s
      → SystemOk Member info t
        × ((i : ℕ)
            → Member i
            → (ahead i (t.node i).upper ≤ ahead i (s.node i).upper)
              × (behind i (t.node i).upper ≤ behind i (s.node i).upper))
  Reach-closer p app mc here good = (good, λ i m. (omega arith, omega arith))
  Reach-closer p app mc (later r st) good =
      let (there, by) = Reach-closer p app mc r good in
      let (next, adv) = Step-After p app mc st there in
      (next, λ i m. let (a, b) = by i m in let step = adv i m in (omega arith, omega arith))
