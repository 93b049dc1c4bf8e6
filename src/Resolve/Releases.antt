-- ===== src/Resolve/Releases.antt =====
-- Releases in the resolver of internal/resolve/resolve.go.
use mathlib.Core.Path.{subst}
use nostrhost_nsite.Prelude.{
  ℕ, ◌≡◌, refl, inl, inr, Bool, true, List, ◌++◌, Option, none, some, arith, length, all, Bytes,
  codes, Bool-cases, Option-cases, none_ne_some,
}
use nostrhost_nsite.Hex.{is_lower_hex}
use nostrhost_nsite.Nostr.{Event, Checks, Pool}
use nostrhost_nsite.Nip5a.Label.{Nip19}
use nostrhost_nsite.Cache.ManifestCache.{ManifestCache, negative}
use nostrhost_nsite.Npk.Release.{Release, newest_release, Catalogue}
use nostrhost_nsite.Npk.Release.Sources.{newest_release_sound, newest_sound}
use nostrhost_nsite.Npk.Release.Parsed.{IsReleaseOf}
use nostrhost_nsite.Resolve.{
  Cached, event_entry, release_entry, Resolver, Clock, Found, failed, absent, found,
  is_valid_manifest, release_key, listed, first_release, keep_release, answer_release, release,
}
use nostrhost_nsite.Resolve.Entries.{get-some}
use nostrhost_nsite.Resolve.Sound.{IsEntry, IsSound, put_negative-IsSound, put-IsSound, get-IsSound}

-- The artifact of the release is named by 64 lower-case hexadecimal digits.
abbrev pub HasDigest : Release → Type 0
HasDigest rel = (length rel.sha256 ≡ 64) × (all is_lower_hex rel.sha256 ≡ true)

-- No release, or one that names its artifact.
abbrev pub NamesArtifact : Found Release → Type 0
NamesArtifact failed = Unit
NamesArtifact absent = Unit
NamesArtifact (found rel) = HasDigest rel

found-NamesArtifact :
    (res : Found Release) → ((rel : Release) → res ≡ found rel → HasDigest rel) → NamesArtifact res
found-NamesArtifact failed h = tt
found-NamesArtifact absent h = tt
found-NamesArtifact (found rel) h = h rel refl

IsReleaseOf-HasDigest : (e : Event) (rel : Release) → IsReleaseOf e rel → HasDigest rel
IsReleaseOf-HasDigest e rel h = (h.digest_length, h.digest_lower)

newest_release-HasDigest :
    (pool : Pool) (relays : List Bytes) (publisher name : Bytes) (rel : Release)
    → newest_release pool relays publisher name ≡ some rel
    → HasDigest rel
newest_release-HasDigest pool relays publisher name rel h =
    let (e, _, complete, _) = newest_release_sound pool relays publisher name rel h in
    IsReleaseOf-HasDigest e rel complete

listed-HasDigest :
    (c : Option Catalogue) (publisher name : Bytes) (rel : Release)
    → listed c publisher name ≡ some rel
    → HasDigest rel
listed-HasDigest none publisher name rel h = absurd (none_ne_some h)
listed-HasDigest (some c) publisher name rel h =
    let (e, complete) = newest_sound c publisher name rel h in IsReleaseOf-HasDigest e rel complete

found_inj : {A : Type 0} {a b : A} → found a ≡ found b → a ≡ b
found_inj h = ground arith

first_release-HasDigest :
    (pool : Pool) (r : Resolver) (publisher name : Bytes) (rel : Release)
    → first_release
        (listed r.catalogue publisher name)
        (newest_release pool r.relays publisher name)
      ≡ some rel
    → HasDigest rel
first_release-HasDigest pool r publisher name rel h =
    elim (Option-cases (listed r.catalogue publisher name)) [
      | inl e ↦ newest_release-HasDigest pool r.relays publisher name rel (ground arith)
      | inr (x, e) ↦
          let same : x ≡ rel = ground arith in
          subst HasDigest same (listed-HasDigest r.catalogue publisher name x e)
    ]

module _ (sha256 : Bytes → Bytes) (checks : Checks) (nip19 : Nip19) (pool : Pool)
    (r : Resolver) where
  abbrev valid_here : Event → Bool
  valid_here = is_valid_manifest sha256 checks nip19 pool r

  abbrev IsGood : ManifestCache Cached × Found Release → Type 0
  IsGood res = IsSound valid_here res.0 × ((rel : Release) → res.1 ≡ found rel → HasDigest rel)

  absent-IsGood : (m : ManifestCache Cached) → IsSound valid_here m → IsGood (m, absent)
  absent-IsGood m v = (v, λ rel h. absurd (ground arith))

  keep_release-IsGood :
      (now : ℕ) (publisher name : Bytes) (o : Option Release) (m : ManifestCache Cached)
      → ((rel : Release) → o ≡ some rel → HasDigest rel)
      → IsSound valid_here m
      → IsGood (keep_release now (release_key publisher name) o m)
  keep_release-IsGood now publisher name none m digest v =
      absent-IsGood _ (put_negative-IsSound sha256 checks nip19 pool r now _ m v)
  keep_release-IsGood now publisher name (some rel) m digest v =
      let has = digest rel refl in
      (
        put-IsSound sha256 checks nip19 pool r now (release_key publisher name) (release_entry rel)
            m ((publisher ++ (codes ":" ++ name), refl), has.0, has.1) v,
        λ x h. subst HasDigest (found_inj h) has,
      )

  answer_release-IsGood :
      (clock : Clock) (publisher name : Bytes) (o : Option Cached) (m : ManifestCache Cached)
      → ((c : Cached) → o ≡ some c → IsEntry valid_here (release_key publisher name) c)
      → IsSound valid_here m
      → IsGood (answer_release pool r clock publisher name o m)
  answer_release-IsGood clock publisher name (some (event_entry e)) m entry v = absent-IsGood m v
  answer_release-IsGood clock publisher name (some (release_entry rel)) m entry v =
      let (_, len, lower) = entry (release_entry rel) refl in
      (v, λ x h. subst HasDigest (found_inj h) (len, lower))
  answer_release-IsGood clock publisher name none m entry v =
      elim (Bool-cases (negative clock.at_negative (release_key publisher name) m)) [
        | inl y ↦ rw y (absent-IsGood m v)
        | inr n ↦ rw n (
            keep_release-IsGood clock.at_put publisher name _ m
              (first_release-HasDigest pool r publisher name) v)
      ]

  release-IsGood :
      (clock : Clock) (publisher name : Bytes) (m : ManifestCache Cached)
      → IsSound valid_here m
      → IsGood (release pool r clock publisher name m)
  unfolding release
  release-IsGood clock publisher name m v =
      let key = release_key publisher name in
      answer_release-IsGood clock publisher name _ _
        (λ c h.
          let (en, at_key, same) = get-some clock.at_get key m c h in
          subst (IsEntry valid_here key) same (v.entries key en at_key))
        (get-IsSound sha256 checks nip19 pool r clock.at_get key m v)

  -- `Release` keeps the resolver's cache sound, whatever it answers, and a release that it returns,
  -- from the cache, the catalogue or the relays, names its artifact by 64 lower-case hexadecimal
  -- digits.
  pub release_found :
      (clock : Clock) (publisher name : Bytes) (m : ManifestCache Cached)
      → IsSound valid_here m
      → IsSound valid_here (release pool r clock publisher name m).0
        × NamesArtifact (release pool r clock publisher name m).1
  release_found clock publisher name m v =
      let (kept, digest) = release-IsGood clock publisher name m v in
      (kept, found-NamesArtifact (release pool r clock publisher name m).1 digest)
