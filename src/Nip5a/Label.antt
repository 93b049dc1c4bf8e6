-- ===== src/Nip5a/Label.antt =====
-- internal/nip5a/label.go, lines 20 to 36 and 76 to 137: site types, the labels of sites and
-- `DecodeLabel`. Package nip19 of go-nostr is the parameter `Nip19`.
pub mod Codec
use nostrhost_nsite.Prelude.{
  ℕ, Bool, true, false, not, ◌&&◌, List, [], ◌∷◌, ◌++◌, Option, none, some, ◌==◌, leb,
  if◌then◌else◌, length, take, drop, all, Bytes, codes, beq, has_prefix, has_suffix,
}
use nostrhost_nsite.Nip5a.Base36.{is_b36, is_d_char, re_b36_fifty, base36_encode32, base36_decode50}

pub data SiteType : Type 0 where
  root named snapshot : SiteType

-- The value of `nip19.Decode`, an `any`: a string for an npub.
pub data Nip19Value : Type 0 where
  text : Bytes → Nip19Value
  other : Nip19Value

-- `nip19.Decode` and `nip19.EncodePublicKey`; `none` is an error.
pub record Nip19 : Type 0 where
  pub decode : Bytes → Option (Bytes × Nip19Value)
  pub encode_public_key : Bytes → Option Bytes

-- What `DecodeLabel` returns when its `ok` is true.
pub record Site : Type 0 where
  pub site_type : SiteType
  pub hex_id : Bytes
  pub d : Bytes

pub npub : Nip19 → Bytes → Option Bytes
npub nip19 pubkey_hex = nip19.encode_public_key pubkey_hex

pub root_label : Bytes → Bytes
root_label npub_text = npub_text

unfoldable pub named_label : Bytes → Bytes → Option Bytes
named_label pubkey_hex d = elim (base36_encode32 pubkey_hex) [
  | none ↦ none
  | some b36 ↦ some (b36 ++ d)
]

unfoldable pub snapshot_label : Bytes → Option Bytes
snapshot_label event_id_hex = elim (base36_encode32 event_id_hex) [
  | none ↦ none
  | some b36 ↦ some (b'v' ∷ b36)
]

unfoldable pub canonical_site_url : Bytes → Bytes → Bytes
canonical_site_url label gateway_domain = label ++ codes "." ++ gateway_domain

-- `^[0-9a-z]{50}[a-z0-9-]{1,13}$`
unfoldable pub re_named : Bytes → Bool
re_named s =
    (leb 51 (length s) && leb (length s) 63)
    && (all is_b36 (take 50 s) && all is_d_char (drop 50 s))

-- `label[0] == 'v'`, asked of a label of length 51
abbrev starts_with_v : Bytes → Bool
starts_with_v [] = false
starts_with_v (c ∷ s) = c == b'v'

-- `prefix == "npub"`, `v` is a string and has length 64
abbrev root_site : Option (Bytes × Nip19Value) → Option Site
root_site none = none
root_site (some (prefix, other)) = none
root_site (some (prefix, text pk)) =
    if beq prefix (codes "npub") && length pk == 64
    then some (record { site_type = root; hex_id = pk; d = [] })
    else none

abbrev snapshot_site : Option Bytes → Option Site
snapshot_site none = none
snapshot_site (some id) = some (record { site_type = snapshot; hex_id = id; d = [] })

abbrev named_site : Option Bytes → Bytes → Option Site
named_site none d = none
named_site (some pk) d = some (record { site_type = named; hex_id = pk; d = d })

unfoldable pub decode_label : Nip19 → Bytes → Option Site
decode_label nip19 label =
    if has_prefix label (codes "npub1")
    then root_site (nip19.decode label)
    else if length label == 51 && (starts_with_v label && re_b36_fifty (drop 1 label))
    then snapshot_site (base36_decode50 (drop 1 label))
    else if re_named label && not (has_suffix label (codes "-"))
    then named_site (base36_decode50 (take 50 label)) (drop 50 label)
    else none
