-- ===== src/NetWrapper/Numbers.antt =====
-- The number of a handler, as src/net_wrapper.c prints it and reads it.
use fyp_dht.Prelude.{
  ℕ, ◌^◌, ◌≡◌, ◌<◌, inl, inr, refl, ap, sym, ◌∙◌, false, arith, List, [], ◌∷◌, All, ◌==◌, ==_iff,
  Bool-cases, pos,
}
use fyp_dht.Wire.Header.{
  IsUpperHex, hex_digits, read_digits, is_space, hex_digits-IsUpperHex, read_digits-hex_digits,
  skip_zero, unprefixed-upper,
}
use fyp_dht.NetWrapper.{trimmed, strtol16, with_sign, clamped}

read_digits-trimmed : (xs : List ℕ) → read_digits 0 (trimmed xs) ≡ read_digits 0 xs
unfolding trimmed
read_digits-trimmed [] = skip_zero []
read_digits-trimmed (c ∷ xs) = elim (Bool-cases (c == b'0')) [
  | inl zero_digit ↦
      rw zero_digit
        (read_digits-trimmed xs ∙ rw ((==_iff c b'0').0 zero_digit) (sym (skip_zero xs)))
  | inr other ↦ rw other refl
]

abbrev IsNumeral : List ℕ → Type 0
IsNumeral xs = (c : ℕ) × (cs : List ℕ) × (xs ≡ c ∷ cs) × IsUpperHex c × All IsUpperHex cs

trimmed-IsNumeral : (xs : List ℕ) → All IsUpperHex xs → IsNumeral (trimmed xs)
unfolding trimmed
trimmed-IsNumeral [] h = (b'0', [], refl, inl (omega arith, omega arith), tt)
trimmed-IsNumeral (c ∷ xs) h = elim (Bool-cases (c == b'0')) [
  | inl zero_digit ↦ rw zero_digit (trimmed-IsNumeral xs h.1)
  | inr other ↦ rw other (c, xs, refl, h.0, h.1)
]

strtol16-upper :
    (c : ℕ) (cs : List ℕ)
    → IsUpperHex c
    → All IsUpperHex cs
    → strtol16 (c ∷ cs) ≡ clamped false (read_digits 0 (c ∷ cs))
unfolding strtol16 with_sign is_space
strtol16-upper c cs h hs = ground (arith, unprefixed-upper c cs h hs)

small : (n : ℕ) → n < 2 ^ 31 → clamped false n ≡ pos n
unfolding clamped
small n h = ground arith

-- The text that is sent of a handler's number, an int that is not negative, is read as that number.
pub strtol16-trimmed : (n : ℕ) → n < 2 ^ 31 → strtol16 (trimmed (hex_digits 8 n)) ≡ pos n
strtol16-trimmed n h =
    let (c, cs, is, first, others) =
      trimmed-IsNumeral (hex_digits 8 n) (hex_digits-IsUpperHex 8 n) in
    let value : read_digits 0 (c ∷ cs) ≡ n =
      ap (read_digits 0) (sym is)
      ∙ read_digits-trimmed (hex_digits 8 n)
      ∙ read_digits-hex_digits 8 0 n (omega arith)
      ∙ omega arith in
    ap strtol16 is ∙ strtol16-upper c cs first others ∙ ap (clamped false) value ∙ small n h
