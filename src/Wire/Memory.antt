-- ===== src/Wire/Memory.antt =====
-- `(char*)&x`: an unsigned number as the bytes of the host's memory, and reads that fill only part of it.
use mathlib.Core.List.{reverse, reverse-reverse, reverse-cons, append-nil}
use fyp_dht.Prelude.{
  ℕ, zero, suc, ◌+◌, ◌*◌, ◌/◌, ◌%◌, ◌^◌, ◌<◌, ◌≡◌, refl, ap, ◌∙◌, Bool, List, [], ◌∷◌, ◌++◌, length,
  drop, if◌then◌else◌, length-append, arith, Bool-cases, inl, inr, sym,
}
use native.Mathlib.Nat.{pow-suc}

-- `w` bytes, least significant first.
unfoldable pub little_bytes : ℕ → ℕ → List ℕ
little_bytes zero n = []
little_bytes (suc w) n = (n % 256) ∷ little_bytes w (n / 256)

unfoldable pub little_value : List ℕ → ℕ
little_value [] = 0
little_value (b ∷ bs) = b + 256 * little_value bs

module _ (big : Bool) where
  unfoldable pub memory_bytes : ℕ → ℕ → List ℕ
  memory_bytes w n = if big then reverse (little_bytes w n) else little_bytes w n

  unfoldable pub memory_value : List ℕ → ℕ
  memory_value bs = if big then little_value (reverse bs) else little_value bs

  -- A variable of `w` bytes that held `old`, after its first bytes are overwritten by `bytes`.
  unfoldable pub overwrite : ℕ → ℕ → List ℕ → ℕ
  overwrite w old bytes = memory_value (bytes ++ drop (length bytes) (memory_bytes w old))

pub length-little_bytes : (w n : ℕ) → length (little_bytes w n) ≡ w
unfolding little_bytes
length-little_bytes zero n = refl
length-little_bytes (suc w) n = ap suc (length-little_bytes w (n / 256))

little_value-little_bytes : (w n : ℕ) → n < 256 ^ w → little_value (little_bytes w n) ≡ n
unfolding little_bytes little_value
little_value-little_bytes zero n h = omega arith
little_value-little_bytes (suc w) n h =
    omega (arith, little_value-little_bytes w (n / 256) (omega (arith, pow-suc 256 w)))

length-reverse {ℓ} : {A : Type ℓ} (xs : List A) → length (reverse xs) ≡ length xs
length-reverse [] = refl
length-reverse (x ∷ xs) =
    rw (reverse-cons x xs) (omega (arith, length-append (reverse xs) (x ∷ []), length-reverse xs))

drop_all {ℓ} : {A : Type ℓ} (xs : List A) (n : ℕ) → length xs ≡ n → drop n xs ≡ []
drop_all [] zero h = refl
drop_all [] (suc n) h = refl
drop_all (x ∷ xs) zero h = absurd (omega arith)
drop_all (x ∷ xs) (suc n) h = drop_all xs n (omega arith)

module _ (big : Bool) where
  pub length-memory_bytes : (w n : ℕ) → length (memory_bytes big w n) ≡ w
  unfolding memory_bytes
  length-memory_bytes w n = elim (Bool-cases big) [
    | inl e ↦ rw e (length-reverse (little_bytes w n) ∙ length-little_bytes w n)
    | inr e ↦ rw e (length-little_bytes w n)
  ]

  -- What one host writes of a number that fits, a host of the same byte order reads back.
  pub memory_value-memory_bytes :
      (w n : ℕ) → n < 256 ^ w → memory_value big (memory_bytes big w n) ≡ n
  unfolding memory_bytes memory_value
  memory_value-memory_bytes w n h = elim (Bool-cases big) [
    | inl e ↦ rw (e, reverse-reverse (little_bytes w n)) (little_value-little_bytes w n h)
    | inr e ↦ rw e (little_value-little_bytes w n h)
  ]

  -- Bytes that fill the variable leave nothing of what it held.
  pub overwrite_full : (w old n : ℕ) → n < 256 ^ w → overwrite big w old (memory_bytes big w n) ≡ n
  unfolding overwrite
  overwrite_full w old n h =
      rw
        (
          drop_all (memory_bytes big w old) (length (memory_bytes big w n))
              (length-memory_bytes w old ∙ sym (length-memory_bytes w n)),
          append-nil,
        )
        (memory_value-memory_bytes w n h)

  -- A read that brings nothing leaves the variable as it was.
  pub overwrite_none : (w old : ℕ) → old < 256 ^ w → overwrite big w old [] ≡ old
  unfolding overwrite
  overwrite_none w old h = memory_value-memory_bytes w old h
