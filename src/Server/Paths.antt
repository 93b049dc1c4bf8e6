-- ===== src/Server/Paths.antt =====
-- internal/server/server.go, lines 520 to 588: `normalisePath`, `lastSegment` and `contentTypeFor`.
pub mod Segments
pub mod Safety
use nostrhost_nsite.Prelude.{
  ℕ, includes, ◌+◌, ◌*◌, Bool, true, false, not, ◌&&◌, ◌||◌, List, [], ◌∷◌, ◌++◌, Option, none,
  some, ◌==◌, ltb, if◌then◌else◌, any, Bytes, codes, has_prefix, has_suffix, trim_suffix, contains,
  after_last, split_on,
}
use nostrhost_nsite.Hex.{from_hex_char}

abbrev pub cons_some : ℕ → Option Bytes → Option Bytes
cons_some c none = none
cons_some c (some s) = some (c ∷ s)

abbrev pub cons_hex : Option ℕ → Option ℕ → Option Bytes → Option Bytes
cons_hex (some x) (some y) (some s) = some ((x * 16 + y) ∷ s)
cons_hex (some x) (some y) none = none
cons_hex (some x) none rest = none
cons_hex none y rest = none

-- `url.PathUnescape`: `none` is the error of a percent sign without two hex digits after it.
unfoldable pub path_unescape : Bytes → Option Bytes
path_unescape [] = some []
path_unescape (c ∷ []) = if c == b'%' then none else some (c ∷ [])
path_unescape (c ∷ d ∷ []) = if c == b'%' then none else cons_some c (path_unescape (d ∷ []))
path_unescape (c ∷ d ∷ e ∷ s) = elim (c == b'%') [
  | true ↦ cons_hex (from_hex_char d) (from_hex_char e) (path_unescape s)
  | false ↦ cons_some c (path_unescape (d ∷ e ∷ s))
]

-- `strings.Join(strings.Split(s, "//"), "/")`: the pairs that `Split` finds do not overlap.
unfoldable pub collapse : Bytes → Bytes
collapse [] = []
collapse (c ∷ []) = c ∷ []
collapse (c ∷ d ∷ s) = elim (c == b'/' && d == b'/') [
  | true ↦ b'/' ∷ collapse s
  | false ↦ c ∷ collapse (d ∷ s)
]

-- `r < 0x20 || r == 0x7F`
abbrev pub is_control : ℕ → Bool
is_control r = ltb r 32 || r == 127

abbrev pub is_bad_segment : Bytes → Bool
is_bad_segment seg = includes seg (codes "..") || contains b'\\' seg || any is_control seg

unfoldable pub last_segment : Bytes → Bytes
last_segment p = after_last b'/' p

abbrev pub index_html : Bytes
index_html = codes "index.html"

abbrev pub with_index : Bytes → Bytes
with_index decoded =
    if has_suffix decoded (codes "/") || not (contains b'.' (last_segment decoded))
    then trim_suffix decoded (codes "/") ++ b'/' ∷ index_html
    else decoded

abbrev pub normalise_decoded : Bytes → Option Bytes
normalise_decoded decoded =
    if contains b'%' decoded
    then none
    else if not (has_prefix decoded (codes "/"))
    then none
    else if any is_bad_segment (split_on b'/' (collapse decoded))
    then none
    else some (with_index (collapse decoded))

-- `none` is a path that is refused.
unfoldable pub normalise_path : Bytes → Option Bytes
normalise_path p = elim (path_unescape p) [ none ↦ none | some decoded ↦ normalise_decoded decoded ]
