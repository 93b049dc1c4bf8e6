-- ===== src/Nip5a/Base36.antt =====
-- internal/nip5a/label.go, lines 30 to 74: the base36 codec of 32-byte values and `IsValidD`.
-- `big.Int` is ℕ. Regular expressions are tests on length and on characters; a character outside
-- ASCII matches none of their classes, so bytes serve for runes.
pub mod RoundTrip
use nostrhost_nsite.Prelude.{
  ℕ, ◌+◌, ◌-◌, ◌^◌, Bool, true, false, not, ◌&&◌, ◌||◌, List, [], ◌∷◌, ◌++◌, map, Option, none,
  some, ◌==◌, leb, ltb, if◌then◌else◌, length, replicate, all, Bytes, codes, has_suffix,
}
use nostrhost_nsite.Digits.{value_from, fixed, shortest}
use nostrhost_nsite.Hex.{encode_to_string, decode_string}

abbrev pub label_max_len : ℕ
label_max_len = 63

-- `[0-9a-z]`
unfoldable pub is_b36 : ℕ → Bool
is_b36 c = (leb b'0' c && leb c b'9') || (leb b'a' c && leb c b'z')

-- `[a-z0-9-]`
unfoldable pub is_d_char : ℕ → Bool
unfolding is_b36
is_d_char c = is_b36 c || c == b'-'

-- `^[0-9a-z]{50}$`
unfoldable pub re_b36_fifty : Bytes → Bool
re_b36_fifty s = length s == 50 && all is_b36 s

-- `^[a-z0-9-]{1,13}$`
unfoldable pub re_d : Bytes → Bool
re_d s = leb 1 (length s) && (leb (length s) 13 && all is_d_char s)

-- a digit of `n.Text(36)`
unfoldable pub b36_char : ℕ → ℕ
b36_char d = if ltb d 10 then b'0' + d else 87 + d

-- a digit read by `SetString(s, 36)`, which takes both cases
unfoldable pub digit_value : ℕ → Option ℕ
digit_value c =
    if leb b'0' c && leb c b'9'
    then some (c - b'0')
    else if leb b'a' c && leb c b'z'
    then some (c - 87)
    else if leb b'A' c && leb c b'Z'
    then some (c - 55)
    else none

unfoldable pub parse_digits : Bytes → Option (List ℕ)
parse_digits [] = some []
parse_digits (c ∷ s) = elim (digit_value c) [
  | none ↦ none
  | some d ↦ elim (parse_digits s) [ none ↦ none | some ds ↦ some (d ∷ ds) ]
]

-- `new(big.Int).SetBytes(b)`
abbrev pub set_bytes : Bytes → ℕ
set_bytes b = value_from 256 0 b

-- `n.Text(36)`
unfoldable pub text36 : ℕ → Bytes
text36 n = if n == 0 then codes "0" else map b36_char (shortest 36 n n [])

-- `new(big.Int).SetString(s, 36)`; a sign never gets here, `reB36Fifty` has refused it.
unfoldable pub set_string36 : Bytes → Option ℕ
set_string36 [] = none
set_string36 (c ∷ s) = elim (parse_digits (c ∷ s)) [
  | none ↦ none
  | some ds ↦ some (value_from 36 0 ds)
]

abbrev pad_fifty : Bytes → Option Bytes
pad_fifty s = if ltb 50 (length s) then none else some (replicate (50 - length s) b'0' ++ s)

unfoldable pub base36_encode32 : Bytes → Option Bytes
base36_encode32 hex32 = elim (decode_string hex32) [
  | none ↦ none
  | some b ↦ if length b == 32 then pad_fifty (text36 (set_bytes b)) else none
]

-- `n.BitLen() > 256` is `2 ^ 256 <= n`; `FillBytes` writes the 32 digits in base 256.
unfoldable pub base36_decode50 : Bytes → Option Bytes
base36_decode50 s =
    if re_b36_fifty s
    then elim (set_string36 s) [
      | none ↦ none
      | some n ↦ if leb (2 ^ 256) n then none else some (encode_to_string (fixed 256 32 n))
    ]
    else none

unfoldable pub is_valid_d : Bytes → Bool
is_valid_d d = re_d d && not (has_suffix d (codes "-"))
