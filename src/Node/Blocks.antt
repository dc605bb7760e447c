-- ===== src/Node/Blocks.antt =====
-- The blocks that src/node.c takes from malloc and writes to with no test.
use fyp_dht.Prelude.{◌≡◌, refl, sym, ◌∙◌, inl, inr, Bool-cases, true, false}
use fyp_dht.Prelude.Outcome.{ok, fault, null_pointer, ◌>>=◌, ◌>>◌, >>-ok, >>=-fault}
use fyp_dht.Prelude.Returns.{Stays}
use fyp_dht.Platform.{Platform}
use fyp_dht.Netio.State.{with_ev}
use fyp_dht.Netio.Conn.{ask}
use fyp_dht.Netio.Server.{Host, on_net}
use fyp_dht.Netio.Valid.{IsValid}
use fyp_dht.Netio.Hosts.{HostInv}
use fyp_dht.Netio.Live.{with_ev-IsValid}
use fyp_dht.Node.State.{NodeSelf, NodeM}
use fyp_dht.Node.Send.{new_block}

-- There is memory whenever malloc is called.
pub record Gives {Ev : Type 0} (p : Platform Ev) : Type 0 where
  pub given : (ev : Ev) → (p.malloc ev).0 ≡ true

module _ {Ev : Type 0} (p : Platform Ev) where
  abbrev pub after_block : Host Ev NodeSelf → Host Ev NodeSelf
  after_block h = record h { net = with_ev h.net (p.malloc h.net.ev).1 }

  new_block-given :
      (h : Host Ev NodeSelf) → (p.malloc h.net.ev).0 ≡ true → new_block p h ≡ ok (tt, after_block h)
  unfolding new_block on_net ask ◌>>=◌
  new_block-given h e = rw e refl

  new_block-refused :
      (h : Host Ev NodeSelf) → (p.malloc h.net.ev).0 ≡ false → new_block p h ≡ fault null_pointer
  unfolding new_block on_net ask ◌>>=◌
  new_block-refused h e = rw e refl

  -- What comes after a block depends only on the process that malloc leaves.
  pub new_block-then :
      {A : Type 0} (m n : NodeM Ev A) (h : Host Ev NodeSelf)
      → m (after_block h) ≡ n (after_block h)
      → (new_block p >> m) h ≡ (new_block p >> n) h
  new_block-then m n h same = elim (Bool-cases (p.malloc h.net.ev).0) [
    | inl got ↦
        >>-ok (new_block p) m h (new_block-given h got)
        ∙ same
        ∙ sym (>>-ok (new_block p) n h (new_block-given h got))
    | inr none_left ↦
        >>=-fault (new_block p) (λ _. m) h (new_block-refused h none_left)
        ∙ sym (>>=-fault (new_block p) (λ _. n) h (new_block-refused h none_left))
  ]

  module _ (memory : Gives p) where
    pub new_block-ok : (h : Host Ev NodeSelf) → new_block p h ≡ ok (tt, after_block h)
    new_block-ok h = new_block-given h (memory.given h.net.ev)

    pub new_block-Returns : (Q : NodeSelf → Type 0) → Stays (HostInv Q IsValid) (new_block p)
    new_block-Returns Q = record {
      at = λ h (v, q). rw (new_block-ok h) (with_ev-IsValid h.net (p.malloc h.net.ev).1 v, q);
    }
