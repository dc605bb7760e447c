-- ===== src/Textsend/Peer.antt =====
-- The address of the node to join, as `main` of example/textsend.c puts it together.
use fyp_dht.Prelude.{
  ℕ, ◌*◌, ◌≡◌, ◌≤◌, ◌<◌, ◌⊎◌, inl, inr, refl, ap, true, false, Bool-cases, arith, [], ◌∷◌, ltb,
}
use fyp_dht.Prelude.Outcome.{ok, fault, overflow}
use fyp_dht.Wire.Memory.{memory_value, little_value}
use fyp_dht.Textsend.{peer_ip}

-- For the four bytes of an address in network order: below 128.0.0.0 the address is the number that they
-- are in big-endian order, and from there on the shift of the first byte overflows an int.
pub peer_ip-big_endian :
    (a b c d : ℕ)
    → a < 256
    → b < 256
    → c < 256
    → d < 256
    → ((a < 128) × (peer_ip 4 (a ∷ b ∷ c ∷ d ∷ []) 0 ≡ ok (memory_value true (a ∷ b ∷ c ∷ d ∷ []))))
      ⊎ ((128 ≤ a) × (peer_ip 4 (a ∷ b ∷ c ∷ d ∷ []) 0 ≡ fault overflow))
unfolding peer_ip memory_value little_value
peer_ip-big_endian a b c d la lb lc ld =
    let second : ltb (b * 65536) 2147483648 ≡ true = ground arith in
    let third : ltb (c * 256) 2147483648 ≡ true = ground arith in
    let fourth : ltb (d * 1) 2147483648 ≡ true = ground arith in
    elim (Bool-cases (ltb a 128)) [
      | inl below ↦
          let first : ltb (a * 16777216) 2147483648 ≡ true = ground arith in
          inl (ground arith, rw (first, second, third, fourth) (ap ok (omega arith)))
      | inr above ↦
          let first : ltb (a * 16777216) 2147483648 ≡ false = ground arith in
          inr (ground arith, rw first refl)
    ]
