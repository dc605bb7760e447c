-- ===== src/Prelude/Outcome.antt =====
-- What a C function does: it returns, or it does something that C or POSIX leaves undefined.
-- A fault ends the run of the model, which says nothing of what the machine does afterwards.
use mathlib.Core.Path.{◌≡◌, refl}
use mathlib.Core.Bool.{Bool, true, false}
use mathlib.Core.Option.{Option, none, some}

pub data Fault : Type 0 where
  -- An array is read or written outside its bounds, `successor[-1]` among them.
  out_of_bounds : Fault
  -- A null pointer is handed to libevent or followed.
  null_pointer : Fault
  -- A callback gets a `void*` of another type than the one that it casts to.
  wrong_argument : Fault
  -- A block is used after `free`.
  freed_memory : Fault
  -- A default mutex is locked by its owner: the thread waits for ever.
  deadlock : Fault
  -- A mutex is unlocked that nobody holds.
  not_locked : Fault
  -- A signed number leaves the range of `int`.
  overflow : Fault

pub data Outcome {ℓ} (A : Type ℓ) : Type ℓ where
  ok : A → Outcome A
  fault : Fault → Outcome A

-- Functions on a state `S`, threaded through.
abbrev pub Run : Type 0 → Type 0 → Type 0
Run S A = S → Outcome (A × S)

abbrev pub continue :
    {S A B : Type 0} → Outcome (A × S) → (A → S → Outcome (B × S)) → Outcome (B × S)
continue (ok (a, s)) f = f a s
continue (fault e) f = fault e

unfoldable pub pure : {S A : Type 0} → A → Run S A
pure a s = ok (a, s)

unfoldable pub fail : {S A : Type 0} → Fault → Run S A
fail e s = fault e

unfoldable pub get : {S : Type 0} → Run S S
get s = ok (s, s)

unfoldable pub put : {S : Type 0} → S → Run S (Unit {0})
put s _ = ok (tt, s)

unfoldable pub modify : {S : Type 0} → (S → S) → Run S (Unit {0})
modify f s = ok (tt, f s)

-- `when b m` is the C statement `if (b) { m }`.
unfoldable pub when : {S : Type 0} → Bool → Run S (Unit {0}) → Run S (Unit {0})
when true m s = m s
when false m s = ok (tt, s)

-- A pointer, index or argument that the code uses with no test.
unfoldable pub need : {S A : Type 0} → Option A → Fault → Run S A
need (some a) e s = ok (a, s)
need none e s = fault e

-- A test of a pointer for NULL.
unfoldable pub if_some : {S A B : Type 0} → Option A → (A → Run S B) → Run S B → Run S B
if_some (some a) f m s = f a s
if_some none f m s = m s

infixl 5 ◌>>=◌ ◌>>◌
-- To unfold this is to unfold the actions above too.
unfoldable pub ◌>>=◌ : {S A B : Type 0} → Run S A → (A → Run S B) → Run S B
unfolding pure fail get put modify when need if_some
◌>>=◌ m f s = continue (m s) f

abbrev pub ◌>>◌ : {S B : Type 0} → Run S (Unit {0}) → Run S B → Run S B
m >> k = m >>= λ _. k

continue-eq-ok :
    {S A B : Type 0} (x : Outcome (A × S)) (f : A → Run S B) {r : B × S}
    → continue x f ≡ ok r
    → (a : A) × (t : S) × (x ≡ ok (a, t)) × (f a t ≡ ok r)
continue-eq-ok (ok (a, t)) f h = (a, t, refl, h)
continue-eq-ok (fault e) f h = cc

-- A bind that returned, taken apart.
pub >>=-eq-ok :
    {S A B : Type 0} (m : Run S A) (f : A → Run S B) (s : S) {r : B × S}
    → (m >>= f) s ≡ ok r
    → (a : A) × (t : S) × (m s ≡ ok (a, t)) × (f a t ≡ ok r)
unfolding ◌>>=◌
>>=-eq-ok m f s h = continue-eq-ok (m s) f h

-- A first step that returns is followed by the rest.
pub >>=-ok :
    {S A B : Type 0} (m : Run S A) (f : A → Run S B) (s : S) {a : A} {t : S}
    → m s ≡ ok (a, t)
    → (m >>= f) s ≡ f a t
unfolding ◌>>=◌
>>=-ok m f s e = rw e

pub >>-ok :
    {S B : Type 0} (m : Run S (Unit {0})) (k : Run S B) (s : S) {t : S}
    → m s ≡ ok (tt, t)
    → (m >> k) s ≡ k t
unfolding ◌>>=◌
>>-ok m k s e = rw e

-- A first step that faults is the end.
pub >>=-fault :
    {S A B : Type 0} (m : Run S A) (f : A → Run S B) (s : S) {e : Fault}
    → m s ≡ fault e
    → (m >>= f) s ≡ fault e
unfolding ◌>>=◌
>>=-fault m f s h = rw h
