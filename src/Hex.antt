-- ===== src/Hex.antt =====
-- Package `encoding/hex` as the program calls it: EncodeToString and DecodeString, with the tests
-- that internal/nip5a, internal/npk and internal/blossomsrv make on hex digests.
use nostrhost_nsite.Prelude.{
  ℕ, ◌+◌, ◌-◌, ◌*◌, ◌/◌, ◌%◌, ◌<◌, ◌≡◌, refl, Bool, true, ◌&&◌, ◌||◌, [], ◌∷◌, Option, none, some,
  arith, leb, ltb, if◌then◌else◌, length, All, all, Bytes, and_split,
}

-- `fromHexChar`
unfoldable pub from_hex_char : ℕ → Option ℕ
from_hex_char c =
    if leb b'0' c && leb c b'9'
    then some (c - b'0')
    else if leb b'a' c && leb c b'f'
    then some (c - 87)
    else if leb b'A' c && leb c b'F'
    then some (c - 55)
    else none

-- `"0123456789abcdef"[d]`
unfoldable pub hex_char : ℕ → ℕ
hex_char d = if ltb d 10 then b'0' + d else 87 + d

unfoldable pub encode_to_string : Bytes → Bytes
unfolding hex_char
encode_to_string [] = []
encode_to_string (b ∷ bs) = hex_char (b / 16) ∷ hex_char (b % 16) ∷ encode_to_string bs

abbrev join_pair : Option ℕ → Option ℕ → Option Bytes → Option Bytes
join_pair (some x) (some y) (some bs) = some ((x * 16 + y) ∷ bs)
join_pair (some x) (some y) none = none
join_pair (some x) none rest = none
join_pair none y rest = none

-- `none` is the error of an odd length or of a character that is no hex digit.
unfoldable pub decode_string : Bytes → Option Bytes
unfolding from_hex_char
decode_string [] = some []
decode_string (a ∷ []) = none
decode_string (a ∷ b ∷ s) = join_pair (from_hex_char a) (from_hex_char b) (decode_string s)

-- One character of the class `[0-9a-f]`.
unfoldable pub is_lower_hex : ℕ → Bool
is_lower_hex c = (leb b'0' c && leb c b'9') || (leb b'a' c && leb c b'f')

from_hex_char-hex_char : (d : ℕ) → d < 16 → from_hex_char (hex_char d) ≡ some d
unfolding from_hex_char hex_char
from_hex_char-hex_char d h = ground arith

hex_char-is_lower_hex : (d : ℕ) → d < 16 → is_lower_hex (hex_char d) ≡ true
unfolding is_lower_hex hex_char
hex_char-is_lower_hex d h = ground arith

pub from_hex_char-lt : (c : ℕ) {d : ℕ} → from_hex_char c ≡ some d → d < 16
unfolding from_hex_char
from_hex_char-lt c h = ground arith

hex_char-from_hex_char :
    (c : ℕ) → is_lower_hex c ≡ true → (d : ℕ) × (from_hex_char c ≡ some d) × (hex_char d ≡ c)
unfolding from_hex_char is_lower_hex hex_char
hex_char-from_hex_char c h =
    (if leb b'0' c && leb c b'9' then c - b'0' else c - 87, ground arith, ground arith)

pub decode-encode :
    (bs : Bytes) → All (λ b. b < 256) bs → decode_string (encode_to_string bs) ≡ some bs
unfolding encode_to_string decode_string
decode-encode [] _ = refl
decode-encode (b ∷ bs) (h, hs) =
    ground
      (arith, from_hex_char-hex_char (b / 16), from_hex_char-hex_char (b % 16), decode-encode bs hs)

pub length-encode : (bs : Bytes) → length (encode_to_string bs) ≡ 2 * length bs
unfolding encode_to_string
length-encode [] = omega arith
length-encode (b ∷ bs) = omega (arith, length-encode bs)

pub encode_lower :
    (bs : Bytes) → All (λ b. b < 256) bs → all is_lower_hex (encode_to_string bs) ≡ true
unfolding encode_to_string
encode_lower [] _ = refl
encode_lower (b ∷ bs) (h, hs) =
    ground
      (arith, hex_char-is_lower_hex (b / 16), hex_char-is_lower_hex (b % 16), encode_lower bs hs)

join_pair-some :
    (x y : Option ℕ) (r : Option Bytes) {bs : Bytes}
    → join_pair x y r ≡ some bs
    → (d : ℕ) × (e : ℕ) × (t : Bytes) × (x ≡ some d)
      × (y ≡ some e)
      × (r ≡ some t)
      × ((d * 16 + e) ∷ t ≡ bs)
join_pair-some (some x) (some y) (some t) h = (x, y, t, refl, refl, refl, cc)
join_pair-some (some x) (some y) none h = cc
join_pair-some (some x) none r h = cc
join_pair-some none y r h = cc

-- What a successful decoding returns: half as many bytes, each below 256.
pub decode_bytes :
    (s : Bytes) (bs : Bytes)
    → decode_string s ≡ some bs
    → (length s ≡ 2 * length bs) × All (λ b. b < 256) bs
unfolding decode_string
decode_bytes [] bs h = ground arith
decode_bytes (a ∷ []) bs h = cc
decode_bytes (a ∷ b ∷ s) bs h =
    let (d, e, t, ed, ee, et, same) = join_pair-some _ _ _ h in
    let rest = decode_bytes s t et in
    rw (← same)
      (omega (arith, rest.0), (omega (arith, from_hex_char-lt a ed, from_hex_char-lt b ee), rest.1))

encode_pair :
    (a b : ℕ) (s : Bytes) (bs : Bytes)
    → is_lower_hex a ≡ true
    → is_lower_hex b ≡ true
    → decode_string s ≡ some bs
    → encode_to_string bs ≡ s
    → (cs : Bytes) × (decode_string (a ∷ b ∷ s) ≡ some cs) × (encode_to_string cs ≡ a ∷ b ∷ s)
unfolding decode_string encode_to_string
encode_pair a b s bs ha hb e f =
    let (x, ex, fx) = hex_char-from_hex_char a ha in
    let (y, ey, fy) = hex_char-from_hex_char b hb in
    let hi : (x * 16 + y) / 16 ≡ x = omega (arith, from_hex_char-lt a ex, from_hex_char-lt b ey) in
    let lo : (x * 16 + y) % 16 ≡ y = omega (arith, from_hex_char-lt b ey) in
    ((x * 16 + y) ∷ bs, rw (ex, ey, e), rw (hi, lo, fx, fy, f))

-- Lower-case text of even length is decoded, and encoding gives it back.
pub encode-decode :
    (n : ℕ) (s : Bytes)
    → length s ≡ 2 * n
    → all is_lower_hex s ≡ true
    → (bs : Bytes) × (decode_string s ≡ some bs) × (encode_to_string bs ≡ s)
encode-decode n [] h l = ([], unfold decode_string in refl, unfold encode_to_string in refl)
encode-decode n (a ∷ []) h l = absurd (omega arith)
encode-decode n (a ∷ b ∷ s) h l =
    let (la, l') = and_split (is_lower_hex a) (all is_lower_hex (b ∷ s)) l in
    let (lb, ls) = and_split (is_lower_hex b) (all is_lower_hex s) l' in
    let (bs, e, f) = encode-decode (n - 1) s (omega arith) ls in encode_pair a b s bs la lb e f
