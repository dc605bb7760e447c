-- ===== src/Wire/Header.antt =====
-- The header of a message, `%c%08X` of src/proto.h: how it is printed and how it is read.
use fyp_dht.Prelude.{
  ℕ, zero, suc, ◌+◌, ◌-◌, ◌*◌, ◌/◌, ◌%◌, ◌^◌, ◌<◌, ◌≤◌, ◌≡◌, ◌⊎◌, inl, inr, refl, ap, ◌∙◌, Bool,
  true, false, List, [], ◌∷◌, ◌++◌, length, ◌&&◌, ◌||◌, ltb, leb, ◌==◌, if◌then◌else◌,
  length-append, sym, arith, All, Bool-cases, ==_iff,
}
use native.Mathlib.Nat.{pow-suc}

abbrev pub len_str_bytes : ℕ
len_str_bytes = 8

-- An upper-case hexadecimal digit, as printf writes it.
unfoldable pub hex_digit : ℕ → ℕ
hex_digit d = if ltb d 10 then d + b'0' else d + b'A' - 10

unfoldable pub hex_digits : ℕ → ℕ → List ℕ
hex_digits zero n = []
hex_digits (suc w) n = hex_digits w (n / 16) ++ (hex_digit (n % 16) ∷ [])

-- printf's `%08X` of a uint32_t.
abbrev pub print_len : ℕ → List ℕ
print_len n = hex_digits len_str_bytes n

-- isspace in the C locale.
unfoldable pub is_space : ℕ → Bool
is_space c = c == 32 || leb 9 c && leb c 13

unfoldable pub is_hex : ℕ → Bool
is_hex c = leb b'0' c && leb c b'9' || leb b'A' c && leb c b'F' || leb b'a' c && leb c b'f'

unfoldable pub hex_value : ℕ → ℕ
hex_value c = if leb c b'9' then c - b'0' else if leb c b'F' then c - b'A' + 10 else c - b'a' + 10

-- strtoul with base 16 on a string, which ends at its first byte 0 or where the list does: white
-- space, a sign, an optional 0x, and digits up to the first byte that is none.
unfoldable pub read_digits : ℕ → List ℕ → ℕ
read_digits acc [] = acc
read_digits acc (c ∷ cs) = if is_hex c then read_digits (acc * 16 + hex_value c) cs else acc

unfoldable pub starts_hex : List ℕ → Bool
starts_hex [] = false
starts_hex (c ∷ cs) = is_hex c

unfoldable pub after_zero : List ℕ → ℕ
after_zero [] = 0
after_zero (x ∷ cs) =
    if (x == b'x' || x == b'X') && starts_hex cs then read_digits 0 cs else read_digits 0 (x ∷ cs)

unfoldable pub unprefixed : List ℕ → ℕ
unprefixed [] = 0
unprefixed (c ∷ cs) = if c == b'0' then after_zero cs else read_digits 0 (c ∷ cs)

unfoldable pub signed : List ℕ → ℕ
signed [] = 0
signed (c ∷ cs) =
    if c == b'-'
    then (2 ^ 64 - unprefixed cs) % 2 ^ 64
    else if c == b'+'
    then unprefixed cs
    else unprefixed (c ∷ cs)

unfoldable pub strtoul16 : List ℕ → ℕ
strtoul16 [] = 0
strtoul16 (c ∷ cs) = if is_space c then strtoul16 cs else signed (c ∷ cs)

-- `msg->len = (uint32_t) strtoul(buf, &endptr, 16)`.
unfoldable pub parse_len : List ℕ → ℕ
parse_len buf = strtoul16 buf % 2 ^ 32

abbrev pub IsUpperHex : ℕ → Type 0
IsUpperHex c = ((b'0' ≤ c) × (c ≤ b'9')) ⊎ ((b'A' ≤ c) × (c ≤ b'F'))

hex_digit_lem :
    (d : ℕ)
    → d < 16
    → IsUpperHex (hex_digit d) × (is_hex (hex_digit d) ≡ true) × (hex_value (hex_digit d) ≡ d)
unfolding hex_digit is_hex hex_value
hex_digit_lem d h = ground arith

All-snoc :
    (xs : List ℕ) (c : ℕ) → All IsUpperHex xs → IsUpperHex c → All IsUpperHex (xs ++ (c ∷ []))
All-snoc [] c h k = (k, tt)
All-snoc (x ∷ xs) c h k = (h.0, All-snoc xs c h.1 k)

pub hex_digits-IsUpperHex : (w n : ℕ) → All IsUpperHex (hex_digits w n)
unfolding hex_digits
hex_digits-IsUpperHex zero n = tt
hex_digits-IsUpperHex (suc w) n =
    All-snoc _ _ (hex_digits-IsUpperHex w (n / 16)) (hex_digit_lem (n % 16) (omega arith)).0

pub length-hex_digits : (w n : ℕ) → length (hex_digits w n) ≡ w
unfolding hex_digits
length-hex_digits zero n = refl
length-hex_digits (suc w) n = omega (
  arith,
  length-append (hex_digits w (n / 16)) (hex_digit (n % 16) ∷ []),
  length-hex_digits w (n / 16),
)

read_digits-append :
    (acc : ℕ) (xs : List ℕ) (c : ℕ)
    → All IsUpperHex xs
    → read_digits acc (xs ++ (c ∷ [])) ≡ read_digits (read_digits acc xs) (c ∷ [])
unfolding read_digits is_hex
read_digits-append acc [] c h = refl
read_digits-append acc (x ∷ xs) c h =
    ground (arith, read_digits-append (acc * 16 + hex_value x) xs c h.1)

last_digit : (v d : ℕ) → d < 16 → read_digits v (hex_digit d ∷ []) ≡ v * 16 + d
unfolding read_digits
last_digit v d h = let (upper, hex, value) = hex_digit_lem d h in rw hex (rw value refl)

pub read_digits-hex_digits :
    (w acc n : ℕ) → n < 16 ^ w → read_digits acc (hex_digits w n) ≡ acc * 16 ^ w + n
unfolding hex_digits
read_digits-hex_digits zero acc n h = unfold read_digits in omega arith
read_digits-hex_digits (suc w) acc n h =
    read_digits-append acc (hex_digits w (n / 16)) _ (hex_digits-IsUpperHex w (n / 16))
    ∙ rw (read_digits-hex_digits w acc (n / 16) (omega (arith, pow-suc 16 w))) (
        last_digit (acc * 16 ^ w + n / 16) (n % 16) (omega arith)
        ∙ omega (arith, ap (λ (t : ℕ). acc * t) (pow-suc 16 w)))

after_zero-upper : (xs : List ℕ) → All IsUpperHex xs → after_zero xs ≡ read_digits 0 xs
unfolding after_zero
after_zero-upper [] h = unfold read_digits in refl
after_zero-upper (x ∷ xs) h = ground arith

pub skip_zero : (xs : List ℕ) → read_digits 0 (b'0' ∷ xs) ≡ read_digits 0 xs
unfolding read_digits is_hex hex_value
skip_zero xs = refl

pub unprefixed-upper :
    (c : ℕ) (xs : List ℕ)
    → IsUpperHex c
    → All IsUpperHex xs
    → unprefixed (c ∷ xs) ≡ read_digits 0 (c ∷ xs)
unfolding unprefixed
unprefixed-upper c xs h k = elim (Bool-cases (c == b'0')) [
  | inl zero_digit ↦
      rw zero_digit (after_zero-upper xs k ∙ rw ((==_iff c b'0').0 zero_digit) (sym (skip_zero xs)))
  | inr other ↦ rw other
]

-- A string of upper-case digits has no space, no sign and no prefix before its digits.
strtoul16-upper : (xs : List ℕ) → All IsUpperHex xs → strtoul16 xs ≡ read_digits 0 xs
unfolding strtoul16 signed is_space
strtoul16-upper [] h = unfold read_digits in refl
strtoul16-upper (c ∷ xs) h = ground (arith, unprefixed-upper c xs h.0 h.1)

-- What is printed of a length is eight bytes, and it is read back as the same length.
pub parse_len-print_len :
    (n : ℕ) → n < 2 ^ 32 → (parse_len (print_len n) ≡ n) × (length (print_len n) ≡ len_str_bytes)
unfolding parse_len
parse_len-print_len n h = (
  rw
      (
        strtoul16-upper (print_len n) (hex_digits-IsUpperHex len_str_bytes n),
        read_digits-hex_digits len_str_bytes 0 n h,
      )
      (omega arith),
  length-hex_digits len_str_bytes n,
)
