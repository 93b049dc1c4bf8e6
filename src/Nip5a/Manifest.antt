-- ===== src/Nip5a/Manifest.antt =====
-- internal/nip5a/manifest.go: the rules of one manifest event and `Validate`. An error is its text.
-- The digest sha256, the checks of an event and package nip19 are parameters.
pub mod Aggregate
use nostrhost_nsite.Prelude.{
  ℕ, Bool, true, false, not, ◌&&◌, ◌||◌, List, [], ◌∷◌, ◌++◌, Option, ◌==◌, leb, ltb, if◌then◌else◌,
  length, take, drop, all, any, filter, map, Bytes, codes, beq, has_prefix, member, contains,
  after_last, split_on,
}
use nostrhost_nsite.Hex.{is_lower_hex, encode_to_string}
use nostrhost_nsite.Nostr.{tag_is, has_value, value_of}
use nostrhost_nsite.Nip5a.Label.{SiteType}

abbrev pub kind_root : ℕ
kind_root = 15128

abbrev pub kind_named : ℕ
kind_named = 35128

abbrev pub kind_snapshot : ℕ
kind_snapshot = 5128

-- `Path`
pub record SitePath : Type 0 where
  pub path : Bytes
  pub hash : Bytes

-- A map of the keys is their list; 0 for `max_paths` stands for 5000.
pub record Options : Type 0 where
  pub forbidden_pubkeys : List Bytes
  pub max_paths : ℕ

pub record Verdict : Type 0 where
  pub valid : Bool
  pub errors : List Bytes
  pub site_type : Option SiteType
  pub pubkey : Bytes
  pub event_id : Bytes
  pub d : Bytes
  pub paths : List SitePath
  pub aggregate_hash : Bytes
  pub label : Bytes

-- `^[0-9a-f]{64}$`
unfoldable pub is_sha256_hex : Bytes → Bool
is_sha256_hex s = length s == 64 && all is_lower_hex s

-- `[A-Za-z0-9_-]`
abbrev is_ref_char : ℕ → Bool
is_ref_char c =
    (leb b'A' c && leb c b'Z')
    || (leb b'a' c && leb c b'z')
    || (leb b'0' c && leb c b'9')
    || c == b'_'
    || c == b'-'

-- the part `:[A-Za-z0-9_-]*$`
abbrev ref_identifier : Bytes → Bool
ref_identifier [] = false
ref_identifier (c ∷ s) = c == b':' && all is_ref_char s

-- the part `:[0-9a-f]{64}:[A-Za-z0-9_-]*$`
abbrev ref_pubkey : Bytes → Bool
ref_pubkey [] = false
ref_pubkey (c ∷ s) = c == b':' && (is_sha256_hex (take 64 s) && ref_identifier (drop 64 s))

-- the part `\d*:[0-9a-f]{64}:[A-Za-z0-9_-]*$`
unfoldable pub ref_kind : Bytes → Bool
ref_kind [] = false
ref_kind (c ∷ s) =
    let rest = ref_kind s in if leb b'0' c && leb c b'9' then rest else ref_pubkey (c ∷ s)

-- `^\d+:[0-9a-f]{64}:[A-Za-z0-9_-]*$`
unfoldable pub re_ref : Bytes → Bool
re_ref [] = false
re_ref (c ∷ s) = (leb b'0' c && leb c b'9') && ref_kind s

-- `p.Hash+" "+p.Path+"\n"`
abbrev pub path_line : SitePath → Bytes
path_line p = p.hash ++ codes " " ++ p.path ++ codes "\n"

-- `a <= b` on strings
unfoldable pub bytes_le : Bytes → Bytes → Bool
bytes_le [] b = true
bytes_le (x ∷ a) [] = false
bytes_le (x ∷ a) (y ∷ b) = ltb x y || (x == y && bytes_le a b)

unfoldable pub insert_line : Bytes → List Bytes → List Bytes
insert_line x [] = x ∷ []
insert_line x (y ∷ ys) =
    let rest = insert_line x ys in if bytes_le x y then x ∷ y ∷ ys else y ∷ rest

-- `sort.Strings`
unfoldable pub sort_strings : List Bytes → List Bytes
sort_strings [] = []
sort_strings (x ∷ xs) = insert_line x (sort_strings xs)

-- `strings.Join(lines, "")`
unfoldable pub join_lines : List Bytes → Bytes
join_lines [] = []
join_lines (x ∷ xs) = x ++ join_lines xs

unfoldable pub aggregate_hash : (Bytes → Bytes) → List SitePath → Bytes
aggregate_hash sha256 paths =
    encode_to_string (sha256 (join_lines (sort_strings (map path_line paths))))

unfoldable pub tag_values : List (List Bytes) → Bytes → List Bytes
tag_values tags name = map value_of (filter (has_value name) tags)

unfoldable pub filter_tags : List (List Bytes) → Bytes → List (List Bytes)
filter_tags tags name = filter (tag_is name) tags

unfoldable pub has_path_extension : Bytes → Bool
has_path_extension path =
    let last = after_last b'/' path in
    contains b'.' last && (not (beq last (codes ".")) && not (has_prefix last (codes "..")))

-- `r < 0x20 || r == 0x7F || r == '\\'`, where a rune beyond ASCII is bytes from 128 on
abbrev pub is_bad_char : ℕ → Bool
is_bad_char r = ltb r 32 || r == 127 || r == b'\\'

unfoldable pub bad_path_chars : Bytes → Bool
bad_path_chars path = any is_bad_char path || any (λ seg. beq seg (codes "..")) (split_on b'/' path)

-- `if c { errors = append(errors, e) }`
abbrev pub error_if : Bool → Bytes → List Bytes
error_if c e = if c then e ∷ [] else []

unfoldable pub dedupe_from : List Bytes → List Bytes → List Bytes
dedupe_from seen [] = []
dedupe_from seen (e ∷ es) =
    let rest = dedupe_from (e ∷ seen) es in if member e seen then rest else e ∷ rest

unfoldable pub dedupe : List Bytes → List Bytes
dedupe errors = dedupe_from [] errors
