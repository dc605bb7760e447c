-- ===== src/Ident/Arc.antt =====
-- What the tests on ids mean on the ring: arcs measured clockwise.
use fyp_dht.Prelude.{
  Bool-cases, ℕ, zero, suc, ◌+◌, ◌-◌, ◌*◌, ◌%◌, ◌^◌, ◌≤◌, ◌<◌, ◌≡◌, ◌≢◌, refl, ◌↔◌, ◌⊎◌, inl, inr,
  true, false, ltb, leb, pos, negsuc, arith,
}
use native.Mathlib.Nat.{pow-suc, pow-le-pow_right}
use fyp_dht.Prelude.Outcome.{ok, fault, overflow}
use fyp_dht.Ident.{IsId, hash_mod, node_id_compare, node_id_in_range, two_to_the_n}

-- How far it is clockwise from one id to another.
unfoldable pub arc : ℕ → ℕ → ℕ
arc from to = (to + hash_mod - from) % hash_mod

-- An id is in the cyclic range from min to max exactly when it is, clockwise from min, no further than
-- max is; both ends belong to the range.
pub in_range-arc :
    (id min max : ℕ)
    → IsId id
    → IsId min
    → IsId max
    → node_id_in_range id min max ≡ leb (arc min id) (arc min max)
unfolding node_id_in_range arc
in_range-arc id min max hi hm hx = ground arith

-- The cyclic range from a to b and the one from b to a cover the ring.
pub in_range_cover :
    (id a b : ℕ) → a ≢ b → node_id_in_range id a b ≡ false → node_id_in_range id b a ≡ true
unfolding node_id_in_range
in_range_cover id a b ne h = ground arith

pub compare_lem :
    (a b : ℕ)
    → ((node_id_compare a b ≡ pos 0) ↔ (a ≡ b))
      × ((node_id_compare a b ≡ negsuc 0) ↔ (a < b))
      × ((node_id_compare a b ≡ pos 1) ↔ (b < a))
unfolding node_id_compare
compare_lem a b = (
  (λ h. ground arith, λ h. ground arith),
  (λ h. ground arith, λ h. ground arith),
  (λ h. ground arith, λ h. ground arith),
)

-- An id in the range from a to b is no further from b than a is, and no further from a than b is.
pub in_range_closer :
    (id a b : ℕ)
    → IsId id
    → IsId a
    → IsId b
    → node_id_in_range id a b ≡ true
    → (arc id b ≤ arc a b) × (arc a id ≤ arc a b)
unfolding node_id_in_range arc
in_range_closer id a b hi ha hb h = ground arith

pow_double : (m : ℕ) → 2 * 2 ^ (suc m - 1) ≡ 2 ^ suc m
pow_double m = let e : suc m - 1 ≡ m = omega arith in rw e (omega (arith, pow-suc 2 m))

pub pow_small : (m : ℕ) → m < 31 → 2 ^ m < 2 ^ 31
pow_small m h = omega (arith, pow-le-pow_right {n = 2} (omega arith) {i = m} {j = 30} (omega arith))

pow_large : (m : ℕ) → 31 ≤ m → 2 ^ 31 ≤ 2 ^ m
pow_large m h = pow-le-pow_right {n = 2} (omega arith) {i = 31} {j = m} h

-- For n below 31 the function gives 2 ^ n; from n = 31 on the result does not fit an `int`.
pub two_to_the_n_lem :
    (n : ℕ)
    → ((n < 31) × (two_to_the_n (pos n) ≡ ok (2 ^ n)))
      ⊎ ((31 ≤ n) × (two_to_the_n (pos n) ≡ fault overflow))
unfolding two_to_the_n
two_to_the_n_lem zero = inl (omega arith, refl)
two_to_the_n_lem (suc m) = elim (Bool-cases (ltb (suc m) 31)) [
  | inl e ↦
      let h : suc m < 31 = ground arith in
      inl (h, rw pow_double (ground (arith, pow_small (suc m) h)))
  | inr e ↦
      let h : 31 ≤ suc m = ground arith in
      inr (h, rw pow_double (ground (arith, pow_large (suc m) h)))
]
