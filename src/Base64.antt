-- ===== src/Base64.antt =====
-- `base64.RawURLEncoding.DecodeString` of the standard library, and the trimming of padding before
-- it in internal/blossomsrv/server.go, `decodeURLBase64`.
use mathlib.Core.List.{reverse}
use nostrhost_nsite.Prelude.{
  ℕ, ◌+◌, ◌-◌, ◌*◌, ◌/◌, ◌%◌, ◌≡◌, refl, true, false, ◌&&◌, ◌||◌, List, [], ◌∷◌, Option, none, some,
  ◌==◌, leb, if◌then◌else◌, Bytes, codes, filter, not,
}

-- the value of a character of the URL alphabet
sextet : ℕ → Option ℕ
sextet c =
    if leb b'A' c && leb c b'Z'
    then some (c - 65)
    else if leb b'a' c && leb c b'z'
    then some (c - 71)
    else if leb b'0' c && leb c b'9'
    then some (c + 4)
    else if c == b'-'
    then some 62
    else if c == b'_'
    then some 63
    else none

sextets : Bytes → Option (List ℕ)
sextets [] = some []
sextets (c ∷ s) = elim (sextet c) [
  | none ↦ none
  | some x ↦ elim (sextets s) [ none ↦ none | some xs ↦ some (x ∷ xs) ]
]

-- Four characters make three bytes; two or three left over make one or two, one is an error.
bytes_of : List ℕ → Option Bytes
bytes_of [] = some []
bytes_of (a ∷ []) = none
bytes_of (a ∷ b ∷ []) = some ((a * 4 + b / 16) ∷ [])
bytes_of (a ∷ b ∷ c ∷ []) = some ((a * 4 + b / 16) ∷ (b % 16 * 16 + c / 4) ∷ [])
bytes_of (a ∷ b ∷ c ∷ d ∷ s) = elim (bytes_of s) [
  | none ↦ none
  | some bs ↦ some ((a * 4 + b / 16) ∷ (b % 16 * 16 + c / 4) ∷ (c % 4 * 64 + d) ∷ bs)
]

-- The decoder passes over line breaks.
unfoldable pub raw_url_decode : Bytes → Option Bytes
unfolding sextets bytes_of sextet
raw_url_decode s = elim (sextets (filter (λ c. not (c == 10 || c == 13)) s)) [
  | none ↦ none
  | some xs ↦ bytes_of xs
]

drop_while_pad : Bytes → Bytes
drop_while_pad [] = []
drop_while_pad (c ∷ s) = elim (c == b'=') [ true ↦ drop_while_pad s | false ↦ c ∷ s ]

-- `strings.TrimRight(s, "=")`
trim_right_pad : Bytes → Bytes
trim_right_pad s = reverse (drop_while_pad (reverse s))

unfoldable pub decode_url_base64 : Bytes → Option Bytes
unfolding raw_url_decode trim_right_pad drop_while_pad
decode_url_base64 s = raw_url_decode (trim_right_pad s)

decoded : decode_url_base64 (codes "aGk_LQ==") ≡ some (codes "hi?-")
unfolding decode_url_base64
decoded = refl
