-- ===== src/Nip5a/Base36/RoundTrip.antt =====
-- The base36 codec of internal/nip5a/label.go undone by its inverse, both ways round.
use mathlib.Core.List.{map-append}
use nostrhost_nsite.Prelude.{
  ℕ, zero, suc, ◌-◌, ◌*◌, ◌^◌, ◌≤◌, ◌<◌, ◌≡◌, refl, sym, ap, true, ◌&&◌, List, [], ◌∷◌, ◌++◌, map,
  some, inl, inr, arith, Bool-cases, and_split, ◌==◌, leb, if◌then◌else◌, length, replicate, all,
  All, Bytes,
}
use nostrhost_nsite.Digits.{
  value_from, fixed, fixed_zero, shortest-fixed, value-fixed, fixed-value, value-lt, length-fixed,
  first_digit-le, fixed_digits,
}
use nostrhost_nsite.Hex.{encode_to_string, decode_string, decode_bytes, decode-encode}
use nostrhost_nsite.Nip5a.Base36.{
  is_b36, re_b36_fifty, b36_char, digit_value, parse_digits, set_bytes, text36, set_string36,
  base36_encode32, base36_decode50,
}

b36_char-is_b36 : (d : ℕ) → d < 36 → is_b36 (b36_char d) ≡ true
unfolding is_b36 b36_char
b36_char-is_b36 d h = ground arith

digit_value-b36_char : (d : ℕ) → d < 36 → digit_value (b36_char d) ≡ some d
unfolding digit_value b36_char
digit_value-b36_char d h = ground arith

b36_char-digit_value :
    (c : ℕ) → is_b36 c ≡ true → (d : ℕ) × (digit_value c ≡ some d) × (b36_char d ≡ c) × (d < 36)
unfolding digit_value b36_char is_b36
b36_char-digit_value c h = (
  if leb b'0' c && leb c b'9' then c - b'0' else c - 87,
  ground arith,
  ground arith,
  ground arith,
)

length-map_b36 : (ds : List ℕ) → length (map b36_char ds) ≡ length ds
length-map_b36 [] = refl
length-map_b36 (d ∷ ds) = ap suc (length-map_b36 ds)

map_b36-all : (ds : List ℕ) → All (λ d. d < 36) ds → all is_b36 (map b36_char ds) ≡ true
map_b36-all [] _ = refl
map_b36-all (d ∷ ds) (h, hs) = rw (b36_char-is_b36 d h) (map_b36-all ds hs)

parse_digits-map : (ds : List ℕ) → All (λ d. d < 36) ds → parse_digits (map b36_char ds) ≡ some ds
unfolding parse_digits
parse_digits-map [] _ = refl
parse_digits-map (d ∷ ds) (h, hs) = ground (arith, digit_value-b36_char d h, parse_digits-map ds hs)

map-parse_digits :
    (s : Bytes)
    → all is_b36 s ≡ true
    → (ds : List ℕ) × (parse_digits s ≡ some ds) × (map b36_char ds ≡ s) × All (λ d. d < 36) ds
unfolding parse_digits
map-parse_digits [] _ = ([], refl, refl, tt)
map-parse_digits (c ∷ s) h =
    let (hc, hs) = and_split (is_b36 c) (all is_b36 s) h in
    let (d, e, back, small) = b36_char-digit_value c hc in
    let (ds, es, backs, smalls) = map-parse_digits s hs in
    (d ∷ ds, ground arith, rw (back, backs), (small, smalls))

map-replicate_zero : (k : ℕ) → map b36_char (replicate k 0) ≡ replicate k b'0'
unfolding b36_char
map-replicate_zero zero = refl
map-replicate_zero (suc k) = ap (λ t. b'0' ∷ t) (map-replicate_zero k)

-- The fifty digits, padded, whatever the value.
pad_text36 :
    (n : ℕ)
    → n < 36 ^ 50
    → (length (text36 n) ≤ 50)
      × (replicate (50 - length (text36 n)) b'0' ++ text36 n ≡ map b36_char (fixed 36 50 n))
unfolding text36
pad_text36 n lt = elim (Bool-cases (n == 0)) [
  | inl e ↦
      let n_zero : n ≡ 0 = ground arith in
      (
        rw (e, if◌then◌else◌) (omega arith),
        rw (e, if◌then◌else◌, n_zero, fixed_zero 36 (omega arith) 50) (sym (map-replicate_zero 50)),
      )
  | inr e ↦
      let (short, padded) = shortest-fixed 36 (omega arith) 50 n n (omega arith) lt in
      rw (e, if◌then◌else◌, length-map_b36) (short, rw (← padded, map-append, map-replicate_zero))
]

set_bytes-lt : (b : Bytes) → All (λ x. x < 256) b → length b ≡ 32 → set_bytes b < 2 ^ 256
set_bytes-lt b small len =
    let lt : set_bytes b < 256 ^ length b = value-lt 256 (omega arith) b small in rw len at lt

-- The digits that stand for a 32-byte value.
pub encode32_digits :
    (h b : Bytes)
    → decode_string h ≡ some b
    → length b ≡ 32
    → base36_encode32 h ≡ some (map b36_char (fixed 36 50 (set_bytes b)))
unfolding base36_encode32
encode32_digits h b e len =
    let lt = set_bytes-lt b (decode_bytes h b e).1 len in
    let (short, padded) = pad_text36 (set_bytes b) (omega arith) in
    rw (e, base36_encode32) (rw len (ground (arith, short, padded)))

set_string36-map :
    (ds : List ℕ)
    → length ds ≡ 50
    → All (λ d. d < 36) ds
    → set_string36 (map b36_char ds) ≡ some (value_from 36 0 ds)
unfolding set_string36
set_string36-map [] len _ = absurd (omega arith)
set_string36-map (d ∷ ds) len small = rw (parse_digits-map (d ∷ ds) small, set_string36)

re_b36_fifty-map :
    (ds : List ℕ) → length ds ≡ 50 → All (λ d. d < 36) ds → re_b36_fifty (map b36_char ds) ≡ true
unfolding re_b36_fifty
re_b36_fifty-map ds len small = rw (length-map_b36, len) (map_b36-all ds small)

pub decode50_digits :
    (ds : List ℕ)
    → length ds ≡ 50
    → All (λ d. d < 36) ds
    → value_from 36 0 ds < 2 ^ 256
    → base36_decode50 (map b36_char ds)
      ≡ some (encode_to_string (fixed 256 32 (value_from 36 0 ds)))
unfolding base36_decode50
decode50_digits ds len small lt =
    rw (re_b36_fifty-map ds len small, if◌then◌else◌, set_string36-map ds len small)
      (ground (arith, lt))

-- Every 32-byte value, given as hexadecimal text in either case, has a numeral of fifty base36
-- digits, and decoding that numeral gives the lower-case hexadecimal text of the same bytes.
pub decode50-encode32 :
    (h b : Bytes)
    → decode_string h ≡ some b
    → length b ≡ 32
    → (s : Bytes) × (base36_encode32 h ≡ some s) × (base36_decode50 s ≡ some (encode_to_string b))
decode50-encode32 h b e len =
    let small = (decode_bytes h b e).1 in
    let lt = set_bytes-lt b small len in
    let n = set_bytes b in
    let value : value_from 36 0 (fixed 36 50 n) ≡ n =
      value-fixed 36 (omega arith) 50 n (omega arith) in
    let back : fixed 256 32 n ≡ b = rw len at (fixed-value 256 (omega arith) b small) in
    let decoded : base36_decode50 (map b36_char (fixed 36 50 n))
        ≡ some (encode_to_string (fixed 256 32 (value_from 36 0 (fixed 36 50 n)))) =
      decode50_digits (fixed 36 50 n) (length-fixed 36 (omega arith) 50 n)
        (fixed_digits 36 (omega arith) 50 n) (rw value lt) in
    (map b36_char (fixed 36 50 n), encode32_digits h b e len, rw (value, back) at decoded)

decode50_inversion :
    (s h : Bytes)
    → base36_decode50 s ≡ some h
    → (ds : List ℕ) × (length ds ≡ 50)
      × All (λ d. d < 36) ds
      × (map b36_char ds ≡ s)
      × (value_from 36 0 ds < 2 ^ 256)
      × (encode_to_string (fixed 256 32 (value_from 36 0 ds)) ≡ h)
unfolding base36_decode50 re_b36_fifty
decode50_inversion s h e =
    let matched : re_b36_fifty s ≡ true = ground arith in
    let (len, chars) = and_split (length s == 50) (all is_b36 s) matched in
    let (ds, parsed, back, small) = map-parse_digits s chars in
    let len_ds : length ds ≡ 50 =
      ground (arith, length-map_b36 ds, ap (λ (t : Bytes). length t) back) in
    let read : set_string36 s ≡ some (value_from 36 0 ds) =
      rw (← back) (set_string36-map ds len_ds small) in
    (ds, len_ds, small, back, ground arith, ground arith)

-- What is decoded is 64 hexadecimal digits that encode to the numeral again.
pub encode32-decode50 :
    (s h : Bytes)
    → base36_decode50 s ≡ some h
    → (b : Bytes) × (decode_string h ≡ some b)
      × (length b ≡ 32)
      × (encode_to_string b ≡ h)
      × (base36_encode32 h ≡ some s)
encode32-decode50 s h e =
    let (ds, len, small, back, lt, same) = decode50_inversion s h e in
    let n = value_from 36 0 ds in
    let b = fixed 256 32 n in
    let bytes : All (λ x. x < 256) b = fixed_digits 256 (omega arith) 32 n in
    let len_b : length b ≡ 32 = length-fixed 256 (omega arith) 32 n in
    let decoded : decode_string h ≡ some b = rw (← same) (decode-encode b bytes) in
    let n_again : set_bytes b ≡ n = value-fixed 256 (omega arith) 32 n (omega arith) in
    let digits_again : fixed 36 50 n ≡ ds = rw len at (fixed-value 36 (omega arith) ds small) in
    let encoded : base36_encode32 h ≡ some (map b36_char (fixed 36 50 (set_bytes b))) =
      encode32_digits h b decoded len_b in
    (b, decoded, len_b, same, rw (n_again, digits_again, back) at encoded)

numeral_first :
    (ds : List ℕ)
    → length ds ≡ 50
    → value_from 36 0 ds < 2 ^ 256
    → (c : ℕ) × (t : Bytes) × (map b36_char ds ≡ c ∷ t) × (c ≤ b'6')
unfolding b36_char
numeral_first [] len lt = absurd (omega arith)
numeral_first (d ∷ ds) len lt =
    let weight : d * 36 ^ length ds ≤ value_from 36 0 (d ∷ ds) =
      first_digit-le 36 (omega arith) d ds in
    let rest : length ds ≡ 49 = omega arith in
    let at_49 : d * 36 ^ 49 ≤ value_from 36 0 (d ∷ ds) = rw rest at weight in
    let small : d ≤ 6 = omega arith in (b36_char d, map b36_char ds, refl, ground arith)

-- The numeral of a 32-byte value matches `reB36Fifty`, is decoded to its bytes, and begins with a
-- digit up to 6, since seven times 36 ^ 49 exceeds 2 ^ 256.
pub encode32_numeral :
    (h b : Bytes)
    → decode_string h ≡ some b
    → length b ≡ 32
    → (c : ℕ) × (t : Bytes) × (base36_encode32 h ≡ some (c ∷ t))
      × (re_b36_fifty (c ∷ t) ≡ true)
      × (base36_decode50 (c ∷ t) ≡ some (encode_to_string b))
      × (c ≤ b'6')
encode32_numeral h b e len =
    let lt = set_bytes-lt b (decode_bytes h b e).1 len in
    let ds = fixed 36 50 (set_bytes b) in
    let value : value_from 36 0 ds ≡ set_bytes b =
      value-fixed 36 (omega arith) 50 (set_bytes b) (omega arith) in
    let len_ds = length-fixed 36 (omega arith) 50 (set_bytes b) in
    let (c, t, same, small) = numeral_first ds len_ds (rw value lt) in
    let (s, encoded, decoded) = decode50-encode32 h b e len in
    let digits : base36_encode32 h ≡ some (map b36_char ds) = encode32_digits h b e len in
    let s_is : s ≡ c ∷ t = cc (encoded, digits, same) in
    (
      c,
      t,
      rw (← s_is) encoded,
      rw same at (re_b36_fifty-map ds len_ds (fixed_digits 36 (omega arith) 50 (set_bytes b))),
      rw (← s_is) decoded,
      small,
    )
