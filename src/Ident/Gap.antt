-- ===== src/Ident/Gap.antt =====
-- How the distances between ids on the ring change when a node takes another as its neighbour.
use fyp_dht.Prelude.{ℕ, ◌+◌, ◌%◌, ◌≡◌, ◌≢◌, ◌≤◌, ◌<◌, true, false, arith}
use fyp_dht.Ident.{IsId, hash_mod, node_id_in_range}
use fyp_dht.Ident.Arc.{arc}

pub not_own :
    (i n succ : ℕ)
    → IsId i
    → IsId n
    → IsId succ
    → arc ((i + 1) % hash_mod) n ≤ arc ((i + 1) % hash_mod) succ
    → succ ≢ i
    → n ≢ i
unfolding arc
not_own i n succ hi hn hs le other e = ground arith

pub taken_between :
    (p n i : ℕ)
    → IsId p
    → IsId n
    → IsId i
    → arc p n ≤ arc p i
    → n ≢ i
    → arc ((n + 1) % hash_mod) i ≤ arc ((p + 1) % hash_mod) i
unfolding arc
taken_between p n i hp hn hi le other = ground arith

pub own_gap :
    (p n i : ℕ) → IsId n → IsId i → p ≡ i → arc ((n + 1) % hash_mod) i ≤ arc ((p + 1) % hash_mod) i
unfolding arc
own_gap p n i hn hi e = ground arith

pub arc-lt : (a b : ℕ) → arc a b < hash_mod
unfolding arc
arc-lt a b = omega arith

pub same_end :
    (i m n : ℕ) → IsId m → IsId n → arc ((i + 1) % hash_mod) m ≡ arc ((i + 1) % hash_mod) n → m ≡ n
unfolding arc
same_end i m n hm hn e = ground arith

pub same_start :
    (i m n : ℕ)
    → IsId i
    → IsId m
    → IsId n
    → arc ((m + 1) % hash_mod) i ≡ arc ((n + 1) % hash_mod) i
    → m ≡ n
unfolding arc
same_start i m n hi hm hn e = ground arith

-- An id in the range to the next member is no further from that than from any other member.
pub within_next :
    (i n m id : ℕ)
    → IsId i
    → IsId n
    → IsId m
    → IsId id
    → id ≢ i
    → node_id_in_range id i n ≡ true
    → arc ((i + 1) % hash_mod) n ≤ arc ((i + 1) % hash_mod) m
    → arc id n ≤ arc id m
unfolding node_id_in_range arc
within_next i n m id hi hn hm hd other e le = ground arith

-- A node in the range to an id is nearer to that.
pub finger_nearer :
    (i c id : ℕ)
    → IsId i
    → IsId c
    → IsId id
    → c ≢ i
    → node_id_in_range c i id ≡ true
    → arc c id < arc i id
unfolding node_id_in_range arc
finger_nearer i c id hi hc hd other e = ground arith

-- The next member is, if the id is behind it.
pub next_nearer :
    (i n id : ℕ)
    → IsId i
    → IsId n
    → IsId id
    → n ≢ i
    → node_id_in_range id i n ≡ false
    → arc n id < arc i id
unfolding node_id_in_range arc
next_nearer i n id hi hn hd other e = ground arith
