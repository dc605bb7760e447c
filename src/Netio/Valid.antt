-- ===== src/Netio/Valid.antt =====
-- Well-formed states of the server of src/netio.c.
use fyp_dht.Prelude.{
  ℕ, ◌≡◌, ◌≢◌, sym, ◌⊎◌, inl, inr, false, List, Option, none, some, get_elem?, length, arith, ◌∙◌,
  get_elem?_total, lt-length,
}
use native.Mathlib.Decide.{ℕ_discrete}
use fyp_dht.Netio.State.{NetConnection, NetServer, alter, max_open_connections}
use fyp_dht.Netio.Slots.{get_elem?-alter_self, get_elem?-alter_ne, length-alter}

-- The context that belongs to entry `i`: its own number while it has a bufferevent, NULL otherwise.
abbrev pub context : ℕ → Option ℕ → Option ℕ
context i none = none
context i (some b) = some i

abbrev pub IsOwned : ℕ → NetConnection → Type 0
IsOwned i c = c.net_cb_arg ≡ context i c.bev

abbrev pub Owned : List NetConnection → Type 0
Owned cs = (i : ℕ) (c : NetConnection) → get_elem? cs i ≡ some c → IsOwned i c

-- The table has its 256 entries, its lock is free, and each entry has a context block exactly while
-- it has a bufferevent, with its own number in it.
pub record IsValid {Ev : Type 0} (srv : NetServer Ev) : Type 0 where
  pub size : length srv.connections ≡ max_open_connections
  pub unlocked : srv.connections_lock ≡ false
  pub owned : Owned srv.connections

-- A write to an entry shows at its index and nowhere else.
pub alter_at :
    (cs : List NetConnection) (i : ℕ) (f : NetConnection → NetConnection) (j : ℕ)
    (c : NetConnection)
    → get_elem? (alter cs i f) j ≡ some c
    → ((x : NetConnection) × (i ≡ j) × (get_elem? cs i ≡ some x) × (c ≡ f x))
      ⊎ ((i ≢ j) × (get_elem? cs j ≡ some c))
alter_at cs i f j c e = elim (ℕ_discrete i j) [
  | yes same ↦ hit same
  | no ne ↦ inr (ne, sym (get_elem?-alter_ne cs i j f ne) ∙ e)
]
  where
    hit :
        i ≡ j
        → ((x : NetConnection) × (i ≡ j) × (get_elem? cs i ≡ some x) × (c ≡ f x))
          ⊎ ((i ≢ j) × (get_elem? cs j ≡ some c))
    hit same =
        let (x, at) =
          get_elem?_total cs i (omega (arith, lt-length (alter cs i f) j e, length-alter cs i f)) in
        inl (x, same, at, cc (get_elem?-alter_self cs i f at))

pub Owned-alter :
    (cs : List NetConnection) (i : ℕ) (f : NetConnection → NetConnection)
    → ((c : NetConnection) → get_elem? cs i ≡ some c → IsOwned i (f c))
    → Owned cs
    → Owned (alter cs i f)
Owned-alter cs i f new old j c e = elim (alter_at cs i f j c e) [
  | inl (x, same, at, is) ↦ rw (is, ← same) (new x at)
  | inr (ne, at) ↦ old j c at
]
