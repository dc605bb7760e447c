-- ===== src/Ident.antt =====
-- Identifiers on the ring: the ID helpers of src/node.c and get_id of src/libdht.c.
-- An id is a hash_type, a uint32_t: a number below 2 ^ 32, with the wrap-around written out.
pub mod Arc
pub mod Digest
pub mod Gap
use fyp_dht.Prelude.{
  ℕ, zero, suc, ◌+◌, ◌-◌, ◌*◌, ◌%◌, ◌^◌, ◌<◌, Bool, List, [], ◌∷◌, ◌&&◌, ◌||◌, ltb, leb, ◌==◌,
  if◌then◌else◌, ℤ, pos, negsuc,
}
use fyp_dht.Prelude.Outcome.{Outcome, ok, fault, overflow}

abbrev pub hash_mod : ℕ
hash_mod = 2 ^ 32

abbrev pub IsId : ℕ → Type 0
IsId id = id < 2 ^ 32

unfoldable pub node_id_compare : ℕ → ℕ → ℤ
node_id_compare id1 id2 = if id1 == id2 then pos 0 else if ltb id1 id2 then negsuc 0 else pos 1

-- Inclusive at both ends.
unfoldable pub node_id_in_range : ℕ → ℕ → ℕ → Bool
node_id_in_range id min max =
    if ltb min max
    then leb min id && leb id max
    else if ltb max min
    then leb min id || leb id max
    else id == max

-- `2 << (n - 1)` as an `int`: from n = 31 on the result does not fit.
unfoldable pub two_to_the_n : ℤ → Outcome ℕ
two_to_the_n (negsuc n) = ok 1
two_to_the_n (pos n) =
    if ltb n 1
    then ok 1
    else if ltb (2 * 2 ^ (n - 1)) (2 ^ 31)
    then ok (2 * 2 ^ (n - 1))
    else fault overflow

-- `hash_id += ((hash_type)sha_1[i]) << 8*(bytes-(i+1))`, for i from 4 - rounds on; the list is what
-- of the digest the loop has not reached.
unfoldable pub hash_bytes : ℕ → List ℕ → ℕ → ℕ
hash_bytes zero sha_1 hash_id = hash_id
hash_bytes (suc left) [] hash_id = hash_id
hash_bytes (suc left) (b ∷ sha_1) hash_id =
    hash_bytes left sha_1 ((hash_id + b * 2 ^ (8 * left) % hash_mod) % hash_mod)

-- SHA1 is OpenSSL's: a function from the name's bytes to the digest's.
unfoldable pub get_id : (List ℕ → List ℕ) → List ℕ → ℕ
unfolding hash_bytes
get_id sha1 name = hash_bytes 4 (sha1 name) 0
