-- ===== src/Prelude/Leads.antt =====
-- Pre- and postconditions of functions on a state, with one rule for each way to build a function.
-- `Leads P m Q` says that `m`, run where `P` holds, faults or returns a value and a state in `Q`.
use mathlib.Core.Path.{◌≡◌, refl}
use mathlib.Core.Bool.{Bool, true, false}
use mathlib.Core.Option.{Option, none, some}
use fyp_dht.Prelude.Tests.{if◌then◌else◌}
use fyp_dht.Prelude.Outcome.{
  Outcome, ok, fault, Fault, Run, continue, pure, fail, get, when, need, if_some, ◌>>=◌,
}

abbrev pub Post : {S A : Type 0} → (A → S → Type 0) → Outcome (A × S) → Type 0
Post Q (ok (a, s)) = Q a s
Post Q (fault e) = Unit {0}

pub record Leads {S A : Type 0} (P : S → Type 0) (m : Run S A) (Q : A → S → Type 0) : Type 0 where
  pub at : (s : S) → P s → Post Q (m s)

-- An invariant.
abbrev pub Keeps : {S A : Type 0} → (S → Type 0) → Run S A → Type 0
Keeps P m = Leads P m (λ _. P)

module _ {S A : Type 0} {P : S → Type 0} {Q : A → S → Type 0} where
  pub Leads-fail : (e : Fault) → Leads P (fail {A = A} e) Q
  unfolding fail
  Leads-fail e = record { at = λ s h. tt }

  pub Leads-if :
      (b : Bool) (m n : Run S A)
      → (b ≡ true → Leads P m Q)
      → (b ≡ false → Leads P n Q)
      → Leads P (if b then m else n) Q
  Leads-if true m n km kn = km refl
  Leads-if false m n km kn = kn refl

  pub Leads-if_some :
      {B : Type 0} (o : Option B) (f : B → Run S A) (m : Run S A)
      → ((b : B) → o ≡ some b → Leads P (f b) Q)
      → (o ≡ none → Leads P m Q)
      → Leads P (if_some o f m) Q
  unfolding if_some
  Leads-if_some (some b) f m kf km = record { at = λ s h. (kf b refl).at s h }
  Leads-if_some none f m kf km = record { at = λ s h. (km refl).at s h }

module _ {S : Type 0} {P : S → Type 0} where
  pub Leads-pure : {A : Type 0} (a : A) → Keeps P (pure a)
  unfolding pure
  Leads-pure a = record { at = λ s h. h }

  pub Leads-get : Keeps P get
  unfolding get
  Leads-get = record { at = λ s h. h }

  pub Leads-need : {A : Type 0} (o : Option A) (e : Fault) → Keeps P (need o e)
  unfolding need
  Leads-need (some a) e = record { at = λ s h. h }
  Leads-need none e = record { at = λ s h. tt }

  pub Leads-when : (b : Bool) (m : Run S (Unit {0})) → (b ≡ true → Keeps P m) → Keeps P (when b m)
  unfolding when
  Leads-when true m km = record { at = λ s h. (km refl).at s h }
  Leads-when false m km = record { at = λ s h. h }

module _ {S A B : Type 0} {R : A → S → Type 0} {Q : B → S → Type 0} where
  pub Leads-continue :
      (x : Outcome (A × S)) (f : A → Run S B)
      → Post R x
      → ((a : A) → Leads (R a) (f a) Q)
      → Post Q (continue x f)
  Leads-continue (ok (a, s)) f h kf = (kf a).at s h
  Leads-continue (fault e) f h kf = tt

  pub Leads-bind :
      {P : S → Type 0} (m : Run S A) (f : A → Run S B)
      → Leads P m R
      → ((a : A) → Leads (R a) (f a) Q)
      → Leads P (m >>= f) Q
  unfolding ◌>>=◌
  Leads-bind m f km kf = record { at = λ s h. Leads-continue (m s) f (km.at s h) kf }

module _ {S A B : Type 0} {P : S → Type 0} where
  pub Keeps-bind :
      (m : Run S A) (f : A → Run S B) → Keeps P m → ((a : A) → Keeps P (f a)) → Keeps P (m >>= f)
  Keeps-bind m f km kf = Leads-bind m f km kf

pub ruleset keeps_rules =
    (Leads-fail, Leads-if, Leads-if_some, Leads-pure, Leads-get, Leads-need, Leads-when, Keeps-bind)
