-- ===== src/Netio/Slots.antt =====
-- The table of src/netio.c: which entry net_empty_connection_slot finds, and what a write to one leaves.
use fyp_dht.Prelude.{
  ℕ, zero, suc, ◌+◌, ◌<◌, ◌≡◌, ◌≢◌, refl, ap, subst, ◌⊎◌, inl, inr, List, [], ◌∷◌, Option, none,
  some, ℤ, pos, negsuc, get_elem?, length, arith, Option-cases,
}
use fyp_dht.Netio.State.{NetConnection, alter, empty_slot_from, net_empty_connection_slot}

abbrev pub IsBusy : Option NetConnection → Type 0
IsBusy c = (x : NetConnection) → c ≡ some x → x.bev ≢ none

-- Every entry before the i-th is busy.
abbrev pub BusyBelow : ℕ → List NetConnection → Type 0
BusyBelow i cs = (j : ℕ) → j < i → IsBusy (get_elem? cs j)

abbrev pub IsFree : List NetConnection → ℕ → Type 0
IsFree cs i = (c : NetConnection) × (get_elem? cs i ≡ some c) × (c.bev ≡ none)

BusyBelow-cons :
    (c : NetConnection) (cs : List NetConnection) (i : ℕ)
    → c.bev ≢ none
    → BusyBelow i cs
    → BusyBelow (suc i) (c ∷ cs)
BusyBelow-cons c cs i busy below zero h x e = λ free. busy (cc)
BusyBelow-cons c cs i busy below (suc j) h x e = below j (omega arith) x e

abbrev FirstFree : ℕ → List NetConnection → ℤ → Type 0
FirstFree k cs r =
    ((r ≡ negsuc 0) × BusyBelow (length cs) cs)
    ⊎ ((i : ℕ) × (r ≡ pos (k + i)) × IsFree cs i × BusyBelow i cs)

empty_slot_from_cons :
    (k : ℕ) (c : NetConnection) (cs : List NetConnection)
    → c.bev ≢ none
    → FirstFree (suc k) cs (empty_slot_from (suc k) cs)
    → FirstFree k (c ∷ cs) (empty_slot_from (suc k) cs)
empty_slot_from_cons k c cs busy (inl (e, full)) =
    inl (e, BusyBelow-cons c cs (length cs) busy full)
empty_slot_from_cons k c cs busy (inr (i, e, free, below)) =
    inr (suc i, rw e (ap pos (omega arith)), free, BusyBelow-cons c cs i busy below)

empty_slot_from_lem : (k : ℕ) (cs : List NetConnection) → FirstFree k cs (empty_slot_from k cs)
unfolding empty_slot_from
empty_slot_from_lem k [] = inl (refl, λ j h. absurd (omega arith))
empty_slot_from_lem k (c ∷ cs) = elim (Option-cases c.bev) [
  | inl free ↦ inr (0, ground arith, (c, refl, free), λ j h. absurd (omega arith))
  | inr (b, busy) ↦
      subst (FirstFree k (c ∷ cs)) (ground arith)
        (empty_slot_from_cons k c cs (λ e. cc) (empty_slot_from_lem (suc k) cs))
]

-- The search finds the first free entry, and answers -1 exactly when there is none.
pub empty_slot-first :
    (cs : List NetConnection)
    → ((net_empty_connection_slot cs ≡ negsuc 0) × BusyBelow (length cs) cs)
      ⊎ ((i : ℕ) × (net_empty_connection_slot cs ≡ pos i) × IsFree cs i × BusyBelow i cs)
unfolding net_empty_connection_slot
empty_slot-first cs = elim (empty_slot_from_lem 0 cs) [
  | inl full ↦ inl full
  | inr (i, e, free, below) ↦ inr (i, rw e (ap pos (omega arith)), free, below)
]

module _ {ℓ} {A : Type ℓ} where
  pub length-alter : (xs : List A) (i : ℕ) (f : A → A) → length (alter xs i f) ≡ length xs
  unfolding alter
  length-alter [] i f = refl
  length-alter (x ∷ xs) zero f = refl
  length-alter (x ∷ xs) (suc i) f = ap suc (length-alter xs i f)

  pub get_elem?-alter_self :
      (xs : List A) (i : ℕ) (f : A → A) {x : A}
      → get_elem? xs i ≡ some x
      → get_elem? (alter xs i f) i ≡ some (f x)
  unfolding alter
  get_elem?-alter_self [] i f e = cc
  get_elem?-alter_self (y ∷ xs) zero f e = cc
  get_elem?-alter_self (y ∷ xs) (suc i) f e = get_elem?-alter_self xs i f e

  pub get_elem?-alter_ne :
      (xs : List A) (i j : ℕ) (f : A → A) → i ≢ j → get_elem? (alter xs i f) j ≡ get_elem? xs j
  unfolding alter
  get_elem?-alter_ne [] i j f h = refl
  get_elem?-alter_ne (x ∷ xs) zero zero f h = absurd (h refl)
  get_elem?-alter_ne (x ∷ xs) zero (suc j) f h = refl
  get_elem?-alter_ne (x ∷ xs) (suc i) zero f h = refl
  get_elem?-alter_ne (x ∷ xs) (suc i) (suc j) f h = get_elem?-alter_ne xs i j f (λ e. h (ap suc e))

  pub alter-alter :
      (xs : List A) (i : ℕ) (f g : A → A) → alter (alter xs i f) i g ≡ alter xs i (λ x. g (f x))
  unfolding alter
  alter-alter [] i f g = refl
  alter-alter (x ∷ xs) zero f g = refl
  alter-alter (x ∷ xs) (suc i) f g = ap (◌∷◌ x) (alter-alter xs i f g)

  -- Two writes to one entry are the same if they agree on what stands there.
  pub alter-agree :
      (xs : List A) (i : ℕ) (f g : A → A)
      → ((x : A) → get_elem? xs i ≡ some x → f x ≡ g x)
      → alter xs i f ≡ alter xs i g
  unfolding alter
  alter-agree [] i f g h = refl
  alter-agree (x ∷ xs) zero f g h = rw (h x refl)
  alter-agree (x ∷ xs) (suc i) f g h = ap (◌∷◌ x) (alter-agree xs i f g h)

  pub alter-same :
      (xs : List A) (i : ℕ) (f : A → A)
      → ((x : A) → get_elem? xs i ≡ some x → f x ≡ x)
      → alter xs i f ≡ xs
  unfolding alter
  alter-same [] i f h = refl
  alter-same (x ∷ xs) zero f h = rw (h x refl)
  alter-same (x ∷ xs) (suc i) f h = ap (◌∷◌ x) (alter-same xs i f h)
