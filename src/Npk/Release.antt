-- ===== src/Npk/Release.antt =====
-- internal/npk/npk.go, lines 32 to 167, and catalogue.go: releases, from relays and from the local
-- catalogue. The relay pool is a parameter: what it delivers for a filter, a nil event as `none`.
pub mod Newest
pub mod Tags
pub mod Parsed
pub mod Sources
use nostrhost_nsite.Prelude.{
  ℕ, Bool, true, false, not, ◌&&◌, ◌||◌, List, [], ◌∷◌, Option, none, some, ◌==◌, leb,
  if◌then◌else◌, length, all, any, map, Bytes, codes, beq, member, ascii_lower,
}
use nostrhost_nsite.Nostr.{Event, Filter, Pool, has_value, value_of}

-- `KindRelease`
abbrev pub kind_release : ℕ
kind_release = 9900

abbrev pub kind_revocation : ℕ
kind_revocation = 9901

-- `NameRoot`
abbrev pub name_root : Bytes
name_root = codes "root"

-- The type `Release`.
pub record Release : Type 0 where
  pub publisher : Bytes
  pub name : Bytes
  pub version : Bytes
  pub sha256 : Bytes
  pub event_id : Bytes

-- A rune beyond ASCII is bytes from 128 on.
abbrev pub is_hex_char : ℕ → Bool
is_hex_char r =
    (leb b'0' r && leb r b'9') || (leb b'a' r && leb r b'f') || (leb b'A' r && leb r b'F')

unfoldable pub is_hex : Bytes → Bool
is_hex s = all is_hex_char s

unfoldable pub is_sha256 : Bytes → Bool
is_sha256 s = if not (length s == 64) then false else is_hex s

unfoldable pub release_name : List (List Bytes) → Bytes
release_name [] = []
release_name (t ∷ ts) =
    let rest = release_name ts in if has_value (codes "name") t then value_of t else rest

-- One round of the loop of `parseRelease`, for a tag of length 2 or more.
abbrev pub read_pair : Bytes → Bytes → Release → Release
read_pair name value rel =
    if beq name (codes "name")
    then record rel { name = value }
    else if beq name (codes "version")
    then record rel { version = value }
    else if beq name (codes "x") && (length value == 64 && is_hex value)
    then record rel { sha256 = map ascii_lower value }
    else rel

abbrev pub read_tag : List Bytes → Release → Release
read_tag [] rel = rel
read_tag (name ∷ []) rel = rel
read_tag (name ∷ value ∷ t) rel = read_pair name value rel

unfoldable pub read_tags : List (List Bytes) → Release → Release
read_tags [] rel = rel
read_tags (t ∷ ts) rel = read_tags ts (read_tag t rel)

abbrev pub is_complete : Release → Bool
is_complete rel = not (beq rel.name [] || beq rel.version [] || not (is_sha256 rel.sha256))

-- `&Release{Publisher: event.PubKey, EventID: event.ID}`
abbrev pub start_release : Event → Release
start_release event = record {
  publisher = event.pubkey;
  name = [];
  version = [];
  sha256 = [];
  event_id = event.id;
}

unfoldable pub parse_release : Event → Option Release
parse_release event =
    let rel = read_tags event.tags (start_release event) in
    if not (event.kind == kind_release) then none else if is_complete rel then some rel else none

-- `best != nil && hit.CreatedAt <= best.CreatedAt`
abbrev pub is_older : Event → Option Event → Bool
is_older e none = false
is_older e (some best) = leb e.created_at best.created_at

-- The loop of `NewestRelease`.
unfoldable pub newest_named : Bytes → List (Option Event) → Option Event → Option Event
newest_named name [] best = best
newest_named name (none ∷ hits) best = newest_named name hits best
newest_named name (some e ∷ hits) best = newest_named name hits (
    if not (beq (release_name e.tags) name) then best else if is_older e best then best else some e)

-- A tag `e` that names the event.
abbrev pub revokes : Bytes → List Bytes → Bool
revokes id t = has_value (codes "e") t && beq (value_of t) id

-- The loop of `isRevoked`, which gives no error.
unfoldable pub is_revoked : Bytes → List (Option Event) → Bool
is_revoked id [] = false
is_revoked id (none ∷ hits) = is_revoked id hits
is_revoked id (some e ∷ hits) = any (revokes id) e.tags || is_revoked id hits

abbrev pub author_filter : ℕ → Bytes → Filter
author_filter kind author = record {
  kinds = kind ∷ [];
  authors = author ∷ [];
  ids = [];
  d_values = [];
}

abbrev pub unless_revoked : Bool → Option Release → Option Release
unless_revoked revoked none = none
unless_revoked revoked (some rel) = if revoked then none else some rel

abbrev pub release_of : Pool → List Bytes → Bytes → Option Event → Option Release
release_of pool relays publisher none = none
release_of pool relays publisher (some best) =
    unless_revoked (is_revoked best.id (pool relays (author_filter kind_revocation publisher)))
      (parse_release best)

unfoldable pub newest_release : Pool → List Bytes → Bytes → Bytes → Option Release
newest_release pool relays publisher name =
    if length relays == 0
    then none
    else release_of pool relays publisher
        (newest_named name (pool relays (author_filter kind_release publisher)) none)

-- The type `Catalogue`.
pub record Catalogue : Type 0 where
  pub created_at : ℕ
  pub releases : List Event
  pub revocations : List Event

abbrev pub add_revoked : List (List Bytes) → List Bytes → List Bytes
add_revoked [] revoked = revoked
add_revoked (t ∷ ts) revoked =
    add_revoked ts (if has_value (codes "e") t then value_of t ∷ revoked else revoked)

-- The first loop of `Newest`: the ids that the publisher has revoked.
unfoldable pub revoked_ids : Bytes → List Event → List Bytes → List Bytes
revoked_ids publisher [] revoked = revoked
revoked_ids publisher (rev ∷ revs) revoked = revoked_ids publisher revs (
    if not (rev.kind == kind_revocation) || not (beq rev.pubkey publisher)
    then revoked
    else add_revoked rev.tags revoked)

-- The second loop of `Newest`.
unfoldable pub newest_listed : Bytes → Bytes → List Event → Option Event → Option Event
newest_listed publisher name [] best = best
newest_listed publisher name (ev ∷ evs) best = newest_listed publisher name evs (
    if not (ev.kind == kind_release)
      || not (beq ev.pubkey publisher)
      || not (beq (release_name ev.tags) name)
    then best
    else if is_older ev best
    then best
    else some ev)

abbrev pub listed_release : List Bytes → Option Event → Option Release
listed_release revoked none = none
listed_release revoked (some best) = unless_revoked (member best.id revoked) (parse_release best)

unfoldable pub newest : Catalogue → Bytes → Bytes → Option Release
newest c publisher name =
    listed_release (revoked_ids publisher c.revocations [])
      (newest_listed publisher name c.releases none)
