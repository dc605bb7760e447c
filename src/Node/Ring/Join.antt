-- ===== src/Node/Ring/Join.antt =====
-- A node that has joined a ring of src/node.c: the stabilisations that put it between its neighbours.
use fyp_dht.Prelude.{◌==◌, ◌&&◌, not, Bool}
use fyp_dht.Prelude.Outcome.{when, >>-ok}
use fyp_dht.Node.Found.{stabilize_sp_found, notify_successor}
use fyp_dht.Prelude.{
  ℕ, ◌+◌, ◌%◌, ◌≡◌, ◌≢◌, ◌≤◌, ◌⊎◌, inl, inr, refl, ap, sym, subst, ◌∙◌, true, false, arith, some,
  get_elem?, set, List, [], ◌∷◌,
}
use native.Mathlib.Decide.{ℕ_discrete}
use fyp_dht.Prelude.Outcome.{ok}
use fyp_dht.Ident.{IsId, hash_mod}
use fyp_dht.Ident.Arc.{arc}
use fyp_dht.Platform.{Platform}
use fyp_dht.Callback.{NodeInfo}
use fyp_dht.Netio.Server.{Host}
use fyp_dht.Node.State.{NodeSelf, Machine}
use fyp_dht.Node.Found.{App, take_successor}
use fyp_dht.Node.Maintain.{node_notified}
use fyp_dht.Node.Inv.Defs.{Inv}
use fyp_dht.Node.Ring.Alive.{node_first_alive_succ_head}
use fyp_dht.Node.Ring.Predecessor.{Claims, node_notified-Claims}
use fyp_dht.Node.Ring.Successor.{Nearer, take_successor-Nearer}

-- An id is strictly between two others on the ring, or the two are one.
abbrev pub Between : ℕ → ℕ → ℕ → Type 0
Between p n s =
    (n ≢ p) × (n ≢ s) × ((p ≡ s) ⊎ (arc ((p + 1) % hash_mod) n ≤ arc ((p + 1) % hash_mod) s))

Between-le : (p n s : ℕ) → IsId p → IsId n → IsId s → Between p n s → (p ≡ s) ⊎ (arc p n ≤ arc p s)
unfolding arc
Between-le p n s hp hn hs (np, ns, inl own) = inl own
Between-le p n s hp hn hs (np, ns, inr le) = elim (ℕ_discrete p s) [
  | yes own ↦ inl own
  | no other ↦ inr (ground arith)
]

-- The new node's successor is nearer to it than the node behind it.
Between-eq :
    (p n s : ℕ)
    → IsId p
    → IsId n
    → IsId s
    → Between p n s
    → arc ((n + 1) % hash_mod) p ≤ arc ((n + 1) % hash_mod) s
    → p ≡ s
unfolding arc
Between-eq p n s hp hn hs (np, ns, inl own) le = own
Between-eq p n s hp hn hs (np, ns, inr le') le = ground arith

own_last :
    (n s : ℕ)
    → IsId n
    → IsId s
    → n ≢ s
    → ¬ (arc ((n + 1) % hash_mod) n ≤ arc ((n + 1) % hash_mod) s)
unfolding arc
own_last n s hn hs ne le = ground arith

-- The first successor has the id of the given node.
abbrev pub FirstIs : {Ev : Type 0} → NodeInfo → Host Ev NodeSelf → Type 0
FirstIs succ h = (n : NodeInfo) × (get_elem? h.upper.successor 0 ≡ some n) × (n.id ≡ succ.id)

set_first :
    (ns : List NodeInfo) (m n : NodeInfo)
    → get_elem? ns 0 ≡ some m
    → get_elem? (set ns 0 n) 0 ≡ some n
set_first [] m n e = cc
set_first (x ∷ ns) m n e = refl

module _ {Ev : Type 0} (p : Platform Ev) (app : App Ev) (mc : Machine) where
  -- A stabilisation with a node that is not null goes on to the notification.
  takes_and_notifies :
      (h t : Host Ev NodeSelf) (n : NodeInfo)
      → n.ip ≢ 0
      → take_successor p app mc n h ≡ ok (tt, t)
      → stabilize_sp_found p app mc n h ≡ notify_successor p app mc t
  unfolding stabilize_sp_found when
  takes_and_notifies h t n alive takes =
      let real : (n.port == 0 && n.ip == 0) ≡ false = ground arith in
      >>-ok (when (not (n.port == 0 && n.ip == 0)) (take_successor p app mc n))
        (notify_successor p app mc) h (goes_in (n.port == 0 && n.ip == 0) real)
    where
      goes_in : (b : Bool) → b ≡ false → when (not b) (take_successor p app mc n) h ≡ ok (tt, t)
      goes_in true e = cc
      goes_in false e = takes

  -- A stabilisation goes on to the notification with this first successor.
  abbrev pub StabilisesTo : NodeInfo → NodeInfo → Host Ev NodeSelf → Type 0
  StabilisesTo succ n h =
      (t : Host Ev NodeSelf) × (stabilize_sp_found p app mc n h ≡ notify_successor p app mc t)
      × FirstIs succ t

  -- The new node asks: its successor stays, whether it is named the node behind it or itself.
  keeps_first :
      (h : Host Ev NodeSelf) (me : ℕ) (succ n : NodeInfo)
      → Inv me false h
      → IsId succ.id
      → IsId n.id
      → succ.ip ≢ 0
      → n.ip ≢ 0
      → get_elem? h.upper.successor 0 ≡ some succ
      → me ≢ succ.id
      → (arc ((me + 1) % hash_mod) n.id ≤ arc ((me + 1) % hash_mod) succ.id → n.id ≡ succ.id)
      → StabilisesTo succ n h
  keeps_first h me succ n i hs hn alive up at other same =
      let first = node_first_alive_succ_head h.upper succ at alive in
      elim (take_successor-Nearer p app mc me h 0 succ n i first at hs hn) [
        | inl (near, e) ↦
            let equal : n.id ≡ succ.id = elim near [
              | inl own ↦ absurd (other (sym i.1.id ∙ own))
              | inr le ↦ same (
                  subst (λ k. arc ((k + 1) % hash_mod) n.id ≤ arc ((k + 1) % hash_mod) succ.id)
                    (i.1.id) le)
            ] in
            (_, takes_and_notifies h _ n up e, (n, set_first h.upper.successor succ n at, equal))
        | inr (far, e) ↦ (_, takes_and_notifies h _ n up e, (succ, at, refl))
      ]

  takes_new :
      (h : Host Ev NodeSelf) (me : ℕ) (succ n : NodeInfo)
      → Inv me false h
      → IsId succ.id
      → IsId n.id
      → succ.ip ≢ 0
      → get_elem? h.upper.successor 0 ≡ some succ
      → Between me n.id succ.id
      → take_successor p app mc n h
        ≡ ok (
          tt,
          record h {
            upper = record (h.upper) { successor = set h.upper.successor 0 n; succs_lock = false };
          },
        )
  takes_new h me succ n i hs hn alive at (np, ns, near) =
      let first = node_first_alive_succ_head h.upper succ at alive in
      let nearer : Nearer h.upper succ n =
        subst
          (λ k. (k ≡ succ.id) ⊎ (arc ((k + 1) % hash_mod) n.id ≤ arc ((k + 1) % hash_mod) succ.id))
          (sym i.1.id) near in
      elim (take_successor-Nearer p app mc me h 0 succ n i first at hs hn) [
        | inl (_, e) ↦ e
        | inr (far, _) ↦ absurd (far nearer)
      ]

  -- Three nodes, or two that are each other's neighbours and a third, with addresses: `before` has `succ`
  -- as its first successor, the record `s` of `succ` has it as its predecessor, and a new node between the
  -- two on the ring has `succ` as its first successor, no predecessor, and no part in the ring yet. When
  -- `succ` is notified of the new node, it takes it; when `before` then stabilises and is named the new
  -- node, it goes on to its notification, whatever comes of that, with the new node as its first successor;
  -- when the new node is notified of `before`, it takes it; and whether the new node itself is named
  -- `before` or, later, the new node, it goes on to its notification with a first successor of the same id.
  pub stabilize_sp_found-Between :
      (h new : Host Ev NodeSelf) (s : NodeSelf) (before n succ : NodeInfo)
      → Inv before.id false h
      → Inv n.id false new
      → s.self.id ≡ succ.id
      → IsId before.id
      → IsId n.id
      → IsId succ.id
      → before.ip ≢ 0
      → n.ip ≢ 0
      → succ.ip ≢ 0
      → Between before.id n.id succ.id
      → get_elem? h.upper.successor 0 ≡ some succ
      → get_elem? new.upper.successor 0 ≡ some succ
      → s.has_pred ≡ true
      → s.predecessor ≡ before
      → new.upper.has_pred ≡ false
      → IsId new.upper.predecessor.id
      → (node_notified s n ≡ record s { predecessor = n; has_pred = true })
        × (stabilize_sp_found p app mc (node_notified s n).predecessor h
            ≡ notify_successor p app mc (record h {
              upper = record (h.upper) {
                successor = set h.upper.successor 0 n;
                succs_lock = false;
              };
            }))
        × (node_notified new.upper before
            ≡ record (new.upper) { predecessor = before; has_pred = true })
        × StabilisesTo succ s.predecessor new
        × StabilisesTo succ (node_notified s n).predecessor new
  stabilize_sp_found-Between h new s before n succ i j own hb hn hs before_up up alive between at
        at' has pred nothing hp =
      let claims : Claims s n = elim (Between-le before.id n.id succ.id hb hn hs between) [
        | inl one ↦ inr (inl (ap (λ (m : NodeInfo). m.id) pred ∙ one ∙ sym own))
        | inr le ↦ inr (inr (rw (pred, own) le))
      ] in
      let notified : node_notified s n ≡ record s { predecessor = n; has_pred = true } =
        elim (node_notified-Claims s n (subst IsId (sym own) hs)
          (subst (λ (m : NodeInfo). IsId m.id) (sym pred) hb) hn) [
            | inl (_, e) ↦ e
            | inr (not_claimed, _) ↦ absurd (not_claimed claims)
          ] in
      let welcomed : node_notified new.upper before
          ≡ record (new.upper) { predecessor = before; has_pred = true } =
        elim (node_notified-Claims new.upper before (subst IsId (sym j.1.id) hn) hp hb) [
          | inl (_, e) ↦ e
          | inr (not_claimed, _) ↦ absurd (not_claimed (inl nothing))
        ] in
      let told : (node_notified s n).predecessor ≡ n =
        ap (λ (u : NodeSelf). u.predecessor) notified in
      (
        notified,
        rw told
            (takes_and_notifies h _ n up (takes_new h before.id succ n i hs hn alive at between)),
        welcomed,
        rw pred (
            keeps_first new n.id succ before j hs hb alive before_up at' between.1
              (Between-eq before.id n.id succ.id hb hn hs between)),
        rw told (
            keeps_first new n.id succ n j hs hn alive up at' between.1
              (λ le. absurd (own_last n.id succ.id hn hs between.1 le))),
      )
