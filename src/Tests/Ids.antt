-- ===== src/Tests/Ids.antt =====
-- The theorems on identifiers and on the wire's numbers at concrete inputs.
use fyp_dht.Prelude.{ℕ, ◌≡◌, List, [], ◌∷◌, arith, leb, length}
use fyp_dht.Ident.{IsId, node_id_in_range, get_id}
use fyp_dht.Ident.Arc.{arc, in_range-arc}
use fyp_dht.Ident.Digest.{big_endian, get_id-big_endian}
use fyp_dht.Wire.Header.{len_str_bytes, print_len, parse_len, parse_len-print_len}

-- A range that goes over 0.
in_range-arc_example : node_id_in_range 3 4294967290 7 ≡ leb (arc 4294967290 3) (arc 4294967290 7)
in_range-arc_example = in_range-arc 3 4294967290 7 (omega arith) (omega arith) (omega arith)

abbrev some_digest : List ℕ → List ℕ
some_digest name = 222 ∷ 173 ∷ 190 ∷ 239 ∷ 1 ∷ []

get_id-big_endian_example :
    (get_id some_digest (97 ∷ []) ≡ big_endian (222 ∷ 173 ∷ 190 ∷ 239 ∷ []))
    × IsId (get_id some_digest (97 ∷ []))
get_id-big_endian_example =
    get_id-big_endian some_digest (97 ∷ [])
      (omega arith, (omega arith, (omega arith, (omega arith, (omega arith, tt))))) (omega arith)

parse_len-print_len_example :
    (parse_len (print_len 3735928559) ≡ 3735928559)
    × (length (print_len 3735928559) ≡ len_str_bytes)
parse_len-print_len_example = parse_len-print_len 3735928559 (omega arith)
