-- ===== src/Node/System/Inv.antt =====
-- Nodes of src/node.c that stabilise their ring: who is known to whom, in every order of the runs.
use fyp_dht.Prelude.{
  ℕ, ◌≡◌, ◌≢◌, ◌⊎◌, inl, inr, sym, subst, true, false, List, [], ◌∷◌, some, get_elem?, Bool-cases,
  ◌==◌, ==_iff,
}
use fyp_dht.Ident.{IsId}
use fyp_dht.Callback.{NodeInfo, null_node}
use fyp_dht.Netio.Server.{Host}
use fyp_dht.Node.State.{NodeSelf}
use fyp_dht.Node.Inv.Defs.{Inv}
use fyp_dht.Node.System.{Letter, ask, answer, notice, In, System, goes}

module _ (Member : ℕ → Type 0) (info : ℕ → NodeInfo) where
  -- Who takes part: each with an id and an address that is not 0.
  pub record Directory : Type 0 where
    pub own : (i : ℕ) → Member i → (info i).id ≡ i
    pub ids : (i : ℕ) → Member i → IsId i
    pub alive : (i : ℕ) → Member i → (info i).ip ≢ 0

  abbrev pub Known : NodeInfo → Type 0
  Known n = Member n.id × (n ≡ info n.id)

  -- The record of node i: its first successor is another member, and so is its predecessor if it has
  -- one.
  pub record Placed (i : ℕ) (s : NodeSelf) : Type 0 where
    pub port : s.self.port ≡ (info i).port
    pub succ : NodeInfo
    pub first : get_elem? s.successor 0 ≡ some succ
    pub succ_known : Known succ
    pub other : succ.id ≢ i
    pub pred_known : s.has_pred ≡ true → Known s.predecessor
    pub pred_id : IsId s.predecessor.id

  abbrev pub NodeOk : {Ev : Type 0} → ℕ → Host Ev NodeSelf → Type 0
  NodeOk i h = Inv i false h × Placed i h.upper

  abbrev pub LetterOk : Letter → Type 0
  LetterOk (ask to from) = Unit {0}
  LetterOk (answer to n) = (n ≡ null_node) ⊎ Known n
  LetterOk (notice to n) = Known n × (n.id ≢ to)

  abbrev pub LettersOk : List Letter → Type 0
  LettersOk [] = Unit {0}
  LettersOk (l ∷ ls) = LetterOk l × LettersOk ls

  pub letter_ok : (l : Letter) (ls : List Letter) → LettersOk ls → In l ls → LetterOk l
  letter_ok l [] oks at = absurd at
  letter_ok l (m ∷ ls) oks (inl e) = subst LetterOk (sym e) (oks.0)
  letter_ok l (m ∷ ls) oks (inr at) = letter_ok l ls oks.1 at

  pub record SystemOk {Ev : Type 0} (s : System Ev) : Type 0 where
    pub nodes : (i : ℕ) → Member i → NodeOk i (s.node i)
    pub sent : LettersOk s.letters

  module _ {Ev : Type 0} where
    -- A process that goes to a good state, with good letters.
    pub goes-SystemOk :
        (s : System Ev) (i : ℕ) (h : Host Ev NodeSelf) (ls : List Letter)
        → SystemOk s
        → NodeOk i h
        → LettersOk ls
        → SystemOk (goes s i h ls)
    goes-SystemOk s i h ls good node sent = record {
      nodes = λ j m. elim (Bool-cases (i == j)) [
        | inl e ↦ rw e (subst (λ k. NodeOk k h) ((==_iff i j).0 e) node)
        | inr e ↦ rw e (good.nodes j m)
      ];
      sent = sent;
    }
