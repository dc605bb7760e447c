-- ===== src/Ident/Digest.antt =====
-- get_id of src/libdht.c and the digest of a name.
use mathlib.Core.List.{foldl}
use fyp_dht.Prelude.{ℕ, ◌+◌, ◌*◌, ◌≤◌, ◌<◌, ◌≡◌, List, [], ◌∷◌, All, length, take, arith}
use fyp_dht.Ident.{IsId, get_id, hash_bytes}

-- A big-endian number, most significant byte first.
abbrev pub big_endian : List ℕ → ℕ
big_endian = foldl (λ acc b. acc * 256 + b) 0

-- The id of a name is the big-endian number that the first four bytes of its SHA-1 digest write,
-- and it is a hash_type, whatever digest of at least four bytes the hash function gives.
pub get_id-big_endian :
    (sha1 : List ℕ → List ℕ) (name : List ℕ)
    → All (λ b. b < 256) (sha1 name)
    → 4 ≤ length (sha1 name)
    → (get_id sha1 name ≡ big_endian (take 4 (sha1 name))) × IsId (get_id sha1 name)
unfolding get_id
get_id-big_endian sha1 name bytes long = digest (sha1 name) bytes long
  where
    digest :
        (d : List ℕ)
        → All (λ b. b < 256) d
        → 4 ≤ length d
        → (hash_bytes 4 d 0 ≡ big_endian (take 4 d)) × IsId (hash_bytes 4 d 0)
    digest [] a h = absurd (omega arith)
    digest (b0 ∷ []) a h = absurd (omega arith)
    digest (b0 ∷ b1 ∷ []) a h = absurd (omega arith)
    digest (b0 ∷ b1 ∷ b2 ∷ []) a h = absurd (omega arith)
    digest (b0 ∷ b1 ∷ b2 ∷ b3 ∷ d) a h = ground arith
