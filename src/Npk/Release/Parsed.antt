-- ===== src/Npk/Release/Parsed.antt =====
-- What a release that `parseRelease` of internal/npk/npk.go returns is worth.
use nostrhost_nsite.Prelude.{
  ◌≡◌, ◌≢◌, refl, ap, ◌⊎◌, inl, inr, true, List, [], ◌∷◌, some, arith, length, all, map, Bytes,
  ascii_lower, codes, eq→beq,
}
use nostrhost_nsite.Hex.{is_lower_hex}
use nostrhost_nsite.Nostr.{Event}
use nostrhost_nsite.Npk.Release.{
  kind_release, Release, is_hex_char, is_hex, is_sha256, read_pair, read_tag, read_tags,
  is_complete, start_release, parse_release,
}
use nostrhost_nsite.Npk.Release.Tags.{IsTagged, as_it_is, in_lower_case, IsFrom, read_tags-IsFrom}

lower_hex : (s : Bytes) → all is_hex_char s ≡ true → all is_lower_hex (map ascii_lower s) ≡ true
unfolding is_lower_hex
lower_hex [] h = refl
lower_hex (c ∷ s) h = ground (arith, lower_hex s)

length-lower : (s : Bytes) → length (map ascii_lower s) ≡ length s
length-lower [] = refl
length-lower (c ∷ s) = omega (arith, length-lower s)

-- What the reading of tags keeps: author and id, and a digest in lower case if there is one.
abbrev IsRead : Event → Release → Type 0
IsRead e rel =
    (rel.publisher ≡ e.pubkey)
    × (rel.event_id ≡ e.id)
    × ((rel.sha256 ≡ []) ⊎ (all is_lower_hex rel.sha256 ≡ true))

read_pair-IsRead :
    (e : Event) (name value : Bytes) (rel : Release)
    → IsRead e rel
    → IsRead e (read_pair name value rel)
unfolding is_hex
read_pair-IsRead e name value rel h = ground (arith, lower_hex value)

read_tag-IsRead :
    (e : Event) (t : List Bytes) (rel : Release) → IsRead e rel → IsRead e (read_tag t rel)
read_tag-IsRead e [] rel h = h
read_tag-IsRead e (name ∷ []) rel h = h
read_tag-IsRead e (name ∷ value ∷ t) rel h = read_pair-IsRead e name value rel h

read_tags-IsRead :
    (e : Event) (ts : List (List Bytes)) (rel : Release)
    → IsRead e rel
    → IsRead e (read_tags ts rel)
unfolding read_tags
read_tags-IsRead e [] rel h = h
read_tags-IsRead e (t ∷ ts) rel h = read_tags-IsRead e ts _ (read_tag-IsRead e t rel h)

-- The release stands for the event: it has the event's author and id, a name and a version, neither
-- empty, and a digest of 64 lower-case hexadecimal digits, each from a tag of the event.
pub record IsReleaseOf (e : Event) (rel : Release) : Type 0 where
  pub is_release : e.kind ≡ kind_release
  pub same_author : rel.publisher ≡ e.pubkey
  pub same_id : rel.event_id ≡ e.id
  pub has_name : rel.name ≢ []
  pub name_tag : IsTagged (codes "name") as_it_is rel.name e.tags
  pub has_version : rel.version ≢ []
  pub version_tag : IsTagged (codes "version") as_it_is rel.version e.tags
  pub digest_length : length rel.sha256 ≡ 64
  pub digest_lower : all is_lower_hex rel.sha256 ≡ true
  pub digest_tag : IsTagged (codes "x") in_lower_case rel.sha256 e.tags

-- A text that is not empty is no longer the one it started as.
unless_empty {ℓ} : {P : Type ℓ} (s : Bytes) → s ≢ [] → (s ≡ []) ⊎ P → P
unless_empty s h (inl empty) = absurd (h empty)
unless_empty s h (inr p) = p

complete-IsReleaseOf :
    (e : Event) (rel : Release)
    → e.kind ≡ kind_release
    → IsRead e rel
    → IsFrom e.tags (start_release e) rel
    → is_complete rel ≡ true
    → IsReleaseOf e rel
unfolding is_sha256
complete-IsReleaseOf e rel k (author, id, digest) from_tags h =
    let named : rel.name ≢ [] = λ empty. ground (arith, eq→beq rel.name [] empty) in
    let versioned : rel.version ≢ [] = λ empty. ground (arith, eq→beq rel.version [] empty) in
    let len : length rel.sha256 ≡ 64 = ground arith in
    let digested : rel.sha256 ≢ [] = λ empty. ground (arith, ap length empty) in
    record {
      is_release = k;
      same_author = author;
      same_id = id;
      has_name = named;
      name_tag = unless_empty rel.name named from_tags.name;
      has_version = versioned;
      version_tag = unless_empty rel.version versioned from_tags.version;
      digest_length = len;
      digest_lower = unless_empty rel.sha256 digested digest;
      digest_tag = unless_empty rel.sha256 digested from_tags.digest;
    }

parse_release-some :
    (e : Event) (rel : Release)
    → parse_release e ≡ some rel
    → (e.kind ≡ kind_release)
      × (read_tags e.tags (start_release e) ≡ rel)
      × (is_complete rel ≡ true)
unfolding parse_release
parse_release-some e rel h = ground arith

pub parse_release-IsReleaseOf :
    (e : Event) (rel : Release) → parse_release e ≡ some rel → IsReleaseOf e rel
parse_release-IsReleaseOf e rel h =
    let (k, same, complete) = parse_release-some e rel h in
    let read = read_tags-IsRead e e.tags (start_release e) (refl, refl, inl refl) in
    let tags = read_tags-IsFrom e.tags (start_release e) in
    complete-IsReleaseOf e rel k (rw same at read) (rw same at tags) complete
