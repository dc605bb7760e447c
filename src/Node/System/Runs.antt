-- ===== src/Node/System/Runs.antt =====
-- What runs of src/node.c leave of the node's record when they return.
use fyp_dht.Prelude.{
  ℕ, ◌≡◌, ◌⊎◌, inl, inr, refl, ap, sym, subst, ◌∙◌, Bool, true, false, not, some, ltb, ◌==◌, ◌&&◌,
  get_elem?, set, ◌≢◌, ℤ, Bool-cases, length, if◌then◌else◌,
}
use fyp_dht.Prelude.Outcome.{Outcome, ok, ◌>>=◌, >>-ok, when, fail}
use fyp_dht.Prelude.Leads.{Leads, Keeps, Post, Leads-bind}
use fyp_dht.Ident.{IsId}
use fyp_dht.Platform.{Platform}
use fyp_dht.Callback.{NodeInfo, null_node}
use fyp_dht.Netio.Keeps.{net_ops}
use fyp_dht.Netio.Valid.{IsValid}
use fyp_dht.Netio.Server.{Host}
use fyp_dht.Netio.Hosts.{HostInv}
use fyp_dht.Node.State.{
  NodeSelf, Machine, the_node, change, lock_succs, unlock_succs, write_succ, write_finger,
}
use fyp_dht.Node.Found.{
  App, take_successor, notify_successor, stabilize_sp_found, node_update_succ, update_succs_found,
  update_finger, same_id,
}
use fyp_dht.Node.Maintain.{node_network_stabalize}
use fyp_dht.Node.Incoming.{pred_request}
use fyp_dht.Node.Inv.Defs.{Inv, node_rules, Leads-then}
use fyp_dht.Node.Inv.Sends.{
  new_block-Keeps, node_notify_node-Keeps, node_find_successor_remote-Keeps,
  node_get_predecessor_remote-Keeps, add_bytes-Keeps,
}
use fyp_dht.Node.Ring.Alive.{node_first_alive_succ_head}
use fyp_dht.Node.Ring.Successor.{Nearer, take_successor-Nearer}

-- The server is well formed, and the node's record is the given one.
abbrev pub Same : {Ev : Type 0} → NodeSelf → Host Ev NodeSelf → Type 0
Same s = HostInv (λ u. u ≡ s) IsValid

abbrev pub with_lock : Bool → NodeSelf → NodeSelf
with_lock held s = record s { succs_lock = held }

pub Post-ok :
    {S A : Type 0} (Q : A → S → Type 0) {x : Outcome (A × S)} {a : A} {s : S}
    → x ≡ ok (a, s)
    → Post Q x
    → Q a s
Post-ok Q e q = subst (Post Q) e q

abbrev pub is_null : NodeInfo → Bool
is_null n = n.port == 0 && n.ip == 0

module _ {Ev : Type 0} where
  lock_succs-Same :
      (s : NodeSelf)
      → s.succs_lock ≡ false
      → Leads (Same {Ev = Ev} s) lock_succs (λ _. Same (with_lock true s))
  unfolding lock_succs
  lock_succs-Same s free = record {
    at = λ h (v, e). rw (ap (λ (u : NodeSelf). u.succs_lock) e ∙ free) (v, ap (with_lock true) e);
  }

  unlock_succs-Same :
      (s : NodeSelf)
      → s.succs_lock ≡ false
      → Leads (Same {Ev = Ev} (with_lock true s)) unlock_succs (λ _. Same s)
  unfolding unlock_succs
  unlock_succs-Same s free = record {
    at = λ h (v, e).
        rw (ap (λ (u : NodeSelf). u.succs_lock) e)
          (v, ap (with_lock false) e ∙ λ i. record s { succs_lock = sym free i });
  }

  -- A write behind the first entry.
  write_succ-Same :
      (s : NodeSelf) (i : ℕ) (n : NodeInfo)
      → Leads
          (Same {Ev = Ev} s)
          (write_succ i n)
          (λ _. Same (record s { successor = set s.successor i n }))
  unfolding write_succ the_node change fail ◌>>=◌
  write_succ-Same s i n = record {
    at = λ h (v, e). elim (Bool-cases (ltb i (length h.upper.successor))) [
      | inl fits ↦
          rw fits (v, ap (λ (u : NodeSelf). record u { successor = set u.successor i n }) e)
      | inr over ↦ rw over tt
    ];
  }

module _ {Ev : Type 0} (p : Platform Ev) (app : App Ev) (mc : Machine) where
  pub notify_successor-Same :
      (s : NodeSelf) → s.succs_lock ≡ false → Keeps (Same s) (notify_successor p app mc)
  unfolding notify_successor
  notify_successor-Same s free = Leads-bind _ _ (lock_succs-Same s free) (λ _.
      search (node_rules, node_notify_node-Keeps, Leads-then, unlock_succs-Same s free) depth 10)

  pub update_succs_found-Same :
      (s : NodeSelf) (n : NodeInfo) (i : ℕ)
      → s.succs_lock ≡ false
      → Leads
          (Same s)
          (update_succs_found p app mc n i)
          (λ _. Same (record s { successor = set s.successor i n }))
  unfolding update_succs_found node_update_succ
  update_succs_found-Same s n i free = Leads-bind _ _ (lock_succs-Same s free) (λ _.
      Leads-bind _ _ (write_succ-Same (with_lock true s) i n) (λ _.
        search
          (
            node_rules,
            new_block-Keeps,
            node_find_successor_remote-Keeps,
            Leads-then,
            unlock_succs-Same (record s { successor = set s.successor i n }) free,
          )
          depth 12))

  pub update_finger-Same :
      (s : NodeSelf) (n : NodeInfo) (i : ℕ)
      → Leads (Same s) (update_finger p app mc n i) (λ _. Same (record s {
        finger_table = set s.finger_table i (if same_id s.self.id n.id then null_node else n);
      }))
  unfolding update_finger write_finger the_node change fail ◌>>=◌
  update_finger-Same s n i = record {
    at = λ h (v, e). elim (Bool-cases (ltb i (length h.upper.finger_table))) [
      | inl fits ↦ rw fits (
        v,
        ap
            (λ (u : NodeSelf). record u {
              finger_table = set u.finger_table i (if same_id u.self.id n.id then null_node else n);
            })
            e,
      )
      | inr over ↦ rw over tt
    ];
  }

  pub node_network_stabalize-Same :
      (s : NodeSelf) → Keeps (Same s) (node_network_stabalize p app mc)
  unfolding node_network_stabalize
  node_network_stabalize-Same s = search (node_rules, node_get_predecessor_remote-Keeps) depth 8

  pub pred_request-Same : (s : NodeSelf) (conn : ℤ) → Keeps (Same s) (pred_request p app mc conn)
  unfolding pred_request
  pred_request-Same s conn = search (node_rules, net_ops, add_bytes-Keeps) depth 14

  -- What is left of the node's record after a stabilisation that returns.
  abbrev pub Stabilised : Host Ev NodeSelf → NodeInfo → NodeInfo → Host Ev NodeSelf → Type 0
  Stabilised h succ n t =
      IsValid t.net
      × ((t.upper ≡ h.upper)
          ⊎ ((is_null n ≡ false)
              × Nearer h.upper succ n
              × (t.upper ≡ record (h.upper) { successor = set h.upper.successor 0 n })))

  module _ {me : ℕ} {h : Host Ev NodeSelf} (i : Inv me false h) where
    -- The code behind the test for the null node.
    after_take :
        (h' : Host Ev NodeSelf) {t : Host Ev NodeSelf} (s : NodeSelf)
        → h'.upper ≡ s
        → IsValid h'.net
        → s.succs_lock ≡ false
        → notify_successor p app mc h' ≡ ok (tt, t)
        → IsValid t.net × (t.upper ≡ s)
    after_take h' s e v free runs =
        Post-ok (λ _. Same s) runs ((notify_successor-Same s free).at h' (v, e))

    unlocked : (s : NodeSelf) → s.succs_lock ≡ false → record s { succs_lock = false } ≡ s
    unlocked s free = λ j. record s { succs_lock = sym free j }

    pub stabilize_sp_found-Stabilised :
        (succ n : NodeInfo) {t : Host Ev NodeSelf}
        → get_elem? h.upper.successor 0 ≡ some succ
        → succ.ip ≢ 0
        → IsId succ.id
        → IsId n.id
        → stabilize_sp_found p app mc n h ≡ ok (tt, t)
        → Stabilised h succ n t
    unfolding stabilize_sp_found when
    stabilize_sp_found-Stabilised succ n at alive hs hn runs = elim (Bool-cases (is_null n)) [
      | inl nothing ↦
          let (v, e) = after_take h h.upper refl i.0 i.1.lock (
            sym (
              >>-ok (when (not (is_null n)) (take_successor p app mc n)) (notify_successor p app mc)
                h (rw nothing refl))
            ∙ runs) in
          (v, inl e)
      | inr real ↦
          let first = node_first_alive_succ_head h.upper succ at alive in
          elim (take_successor-Nearer p app mc me h 0 succ n i first at hs hn) [
            | inl (near, took) ↦
                let s = record (h.upper) { successor = set h.upper.successor 0 n } in
                let (v, e) =
                  after_take (record h { upper = record s { succs_lock = false } }) s
                    (unlocked s i.1.lock) i.0 i.1.lock
                    (sym (
                        >>-ok (when (not (is_null n)) (take_successor p app mc n))
                          (notify_successor p app mc) h (rw real took))
                      ∙ runs) in
                (v, inr (real, near, e))
            | inr (far, left) ↦
                let (v, e) =
                  after_take (record h { upper = record (h.upper) { succs_lock = false } }) h.upper
                    (unlocked h.upper i.1.lock) i.0 i.1.lock
                    (sym (
                        >>-ok (when (not (is_null n)) (take_successor p app mc n))
                          (notify_successor p app mc) h (rw real left))
                      ∙ runs) in
                (v, inl e)
          ]
    ]
