-- ===== src/Prelude/Returns.antt =====
-- Total correctness: `Returns P m Q` says that `m`, run where `P` holds, returns, with no fault, a value
-- and a state in `Q`. One rule for each way to build a function.
use mathlib.Core.Path.{◌≡◌, refl}
use mathlib.Core.Bool.{Bool, true, false}
use mathlib.Core.Option.{Option, none, some}
use fyp_dht.Prelude.Tests.{if◌then◌else◌}
use fyp_dht.Prelude.Outcome.{
  Outcome, ok, fault, Fault, Run, continue, pure, get, when, need, if_some, ◌>>=◌,
}

abbrev pub Total : {S A : Type 0} → (A → S → Type 0) → Outcome (A × S) → Type 0
Total Q (ok (a, s)) = Q a s
Total Q (fault e) = ⊥

pub ok-Total :
    {S A : Type 0} (Q : A → S → Type 0) {x : Outcome (A × S)} {a : A} {s : S}
    → x ≡ ok (a, s)
    → Q a s
    → Total Q x
ok-Total Q e q = rw e q

pub record Returns {S A : Type 0} (P : S → Type 0) (m : Run S A) (Q : A → S → Type 0) : Type 0 where
  pub at : (s : S) → P s → Total Q (m s)

-- A function that ends where it began.
abbrev pub Stays : {S A : Type 0} → (S → Type 0) → Run S A → Type 0
Stays P m = Returns P m (λ _. P)

module _ {S A : Type 0} {Q : A → S → Type 0} where
  -- What a total result is.
  pub Total-ok : (x : Outcome (A × S)) → Total Q x → (a : A) × (s : S) × (x ≡ ok (a, s)) × Q a s
  Total-ok (ok (a, s)) q = (a, s, refl, q)
  Total-ok (fault e) q = absurd q

  weaker_post :
      {Q' : A → S → Type 0} (x : Outcome (A × S))
      → ((a : A) (s : S) → Q a s → Q' a s)
      → Total Q x
      → Total Q' x
  weaker_post (ok (a, s)) weaker q = weaker a s q
  weaker_post (fault e) weaker q = q

module _ {S A : Type 0} {P : S → Type 0} {Q : A → S → Type 0} where
  pub Returns-if :
      (b : Bool) (m n : Run S A)
      → (b ≡ true → Returns P m Q)
      → (b ≡ false → Returns P n Q)
      → Returns P (if b then m else n) Q
  Returns-if true m n km kn = km refl
  Returns-if false m n km kn = kn refl

  pub Returns-if_some :
      {B : Type 0} (o : Option B) (f : B → Run S A) (m : Run S A)
      → ((b : B) → o ≡ some b → Returns P (f b) Q)
      → (o ≡ none → Returns P m Q)
      → Returns P (if_some o f m) Q
  unfolding if_some
  Returns-if_some (some b) f m kf km = record { at = λ s h. (kf b refl).at s h }
  Returns-if_some none f m kf km = record { at = λ s h. (km refl).at s h }

  pub Returns-from :
      {P' : S → Type 0} (m : Run S A) → ((s : S) → P' s → P s) → Returns P m Q → Returns P' m Q
  Returns-from m stronger km = record { at = λ s h. km.at s (stronger s h) }

  pub Returns-to :
      {Q' : A → S → Type 0} (m : Run S A)
      → ((a : A) (s : S) → Q a s → Q' a s)
      → Returns P m Q
      → Returns P m Q'
  Returns-to m weaker km = record { at = λ s h. weaker_post (m s) weaker (km.at s h) }

module _ {S : Type 0} {P : S → Type 0} where
  pub Returns-pure : {A : Type 0} (a : A) → Stays P (pure a)
  unfolding pure
  Returns-pure a = record { at = λ s h. h }

  pub Returns-get : Stays P get
  unfolding get
  Returns-get = record { at = λ s h. h }

  pub Returns-need : {A : Type 0} (a : A) (e : Fault) → Stays P (need (some a) e)
  unfolding need
  Returns-need a e = record { at = λ s h. h }

  pub Returns-when : (b : Bool) (m : Run S (Unit {0})) → (b ≡ true → Stays P m) → Stays P (when b m)
  unfolding when
  Returns-when true m km = record { at = λ s h. (km refl).at s h }
  Returns-when false m km = record { at = λ s h. h }

module _ {S A B : Type 0} {R : A → S → Type 0} {Q : B → S → Type 0} where
  Returns-continue :
      (x : Outcome (A × S)) (f : A → Run S B)
      → Total R x
      → ((a : A) → Returns (R a) (f a) Q)
      → Total Q (continue x f)
  Returns-continue (ok (a, s)) f h kf = (kf a).at s h
  Returns-continue (fault e) f h kf = absurd h

  pub Returns-bind :
      {P : S → Type 0} (m : Run S A) (f : A → Run S B)
      → Returns P m R
      → ((a : A) → Returns (R a) (f a) Q)
      → Returns P (m >>= f) Q
  unfolding ◌>>=◌
  Returns-bind m f km kf = record { at = λ s h. Returns-continue (m s) f (km.at s h) kf }

module _ {S A B : Type 0} {P : S → Type 0} {Q : B → S → Type 0} where
  -- A first part that stays, and then the rest.
  pub Stays-bind :
      (m : Run S A) (f : A → Run S B)
      → Stays P m
      → ((a : A) → Returns P (f a) Q)
      → Returns P (m >>= f) Q
  Stays-bind m f km kf = Returns-bind m f km kf

pub ruleset returns_rules =
    (Returns-if, Returns-if_some, Returns-pure, Returns-get, Returns-need, Returns-when, Stays-bind)
