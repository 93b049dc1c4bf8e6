-- ===== src/Resolve/Sound.antt =====
-- What the resolver of internal/resolve/resolve.go returns and keeps: valid manifests of the site
-- asked for, and complete releases.
use mathlib.Core.Path.{subst}
use nostrhost_nsite.Prelude.{
  ℕ, ◌≡◌, refl, ◌⊎◌, inl, inr, Bool, true, false, ◌&&◌, List, [], ◌∷◌, ◌++◌, Option, none, some,
  arith, if◌then◌else◌, length, all, All, Bytes, codes, member, some_inj, none_ne_some, Bool-cases,
  Option-cases,
}
use nostrhost_nsite.Hex.{is_lower_hex}
use nostrhost_nsite.Nostr.{Event, Checks, Filter, Pool}
use nostrhost_nsite.Nip5a.Label.{SiteType, Nip19}
use nostrhost_nsite.Cache.ManifestCache.{ManifestCache, get, negative, put, put_negative}
use nostrhost_nsite.Cache.ManifestCache.Views.{
  IsExclusive, put-IsExclusive, put_negative-IsExclusive, get-IsExclusive,
}
use nostrhost_nsite.Npk.Release.{is_older}
use nostrhost_nsite.Npk.Release.Newest.{present}
use nostrhost_nsite.Resolve.{
  Cached, event_entry, release_entry, Resolver, Clock, Found, absent, found, key_and_filter,
  newest_event, is_valid_manifest, keep_event, answer_event, manifest,
}
use nostrhost_nsite.Resolve.Entries.{
  get-some, AllEntries, put-AllEntries, put_negative-AllEntries, get-AllEntries,
}
use nostrhost_nsite.Resolve.Keys.{matches, IsOf, key_and_filter-IsOf, key_and_filter-same}

-- What holds of all events delivered holds of the newest.
step_cases :
    (c d : Bool) (best : Option Event) (x b : Event)
    → (if c then best else if d then best else some x) ≡ some b
    → (best ≡ some b) ⊎ (x ≡ b)
step_cases true d best x b h = inl h
step_cases false true best x b h = inl h
step_cases false false best x b h = inr (some_inj h)

newest_event-All :
    (P : Event → Type 0) (dedupe : Bool) (hits : List (Option Event)) (seen : List Bytes)
    (best : Option Event) (e : Event)
    → All P (present hits)
    → ((b : Event) → best ≡ some b → P b)
    → newest_event dedupe seen hits best ≡ some e
    → P e
unfolding newest_event
newest_event-All P dedupe [] seen best e h k same = k e same
newest_event-All P dedupe (none ∷ hits) seen best e h k same =
    newest_event-All P dedupe hits seen best e h k same
newest_event-All P dedupe (some x ∷ hits) seen best e (px, h) k same =
    newest_event-All P dedupe hits (if dedupe then x.id ∷ seen else seen)
      (if dedupe && member x.id seen then best else if is_older x best then best else some x) e h
      (λ b kept. elim (step_cases (dedupe && member x.id seen) (is_older x best) best x b kept) [
        | inl same_best ↦ k b same_best
        | inr is_x ↦ subst P is_x px
      ])
      same

-- What an entry of the resolver's cache stands for: a valid manifest of the site of its key, or a
-- release whose artifact is named by a digest.
module _ (valid : Event → Bool) where
  abbrev pub IsEntry : Bytes → Cached → Type 0
  IsEntry key (event_entry ev) =
      (valid ev ≡ true)
      × ((t : SiteType) × (pubkey : Bytes) × (d : Bytes) × (id : Bytes) × (flt : Filter)
          × (key_and_filter t pubkey d id ≡ some (key, flt))
          × (length pubkey ≡ 64)
          × IsOf t pubkey d id ev)
  IsEntry key (release_entry rel) =
      ((rest : Bytes) × (key ≡ codes "release:" ++ rest))
      × (length rel.sha256 ≡ 64)
      × (all is_lower_hex rel.sha256 ≡ true)

  -- The cache of a resolver: every entry stands for its key.
  pub record IsSound (m : ManifestCache Cached) : Type 0 where
    pub exclusive : IsExclusive m
    pub entries : AllEntries IsEntry m

module _ (sha256 : Bytes → Bytes) (checks : Checks) (nip19 : Nip19) (pool : Pool)
    (r : Resolver) where
  abbrev valid_here : Event → Bool
  valid_here = is_valid_manifest sha256 checks nip19 pool r

  -- The cache is sound, and an event that is returned is a valid manifest of the site.
  abbrev IsGood : SiteType → Bytes → Bytes → Bytes → ManifestCache Cached × Found Event → Type 0
  IsGood t pubkey d id res =
      IsSound valid_here res.0
      × ((ev : Event) → res.1 ≡ found ev → (valid_here ev ≡ true) × IsOf t pubkey d id ev)

  pub put_negative-IsSound :
      (now : ℕ) (key : Bytes) (m : ManifestCache Cached)
      → IsSound valid_here m
      → IsSound valid_here (put_negative now key m)
  put_negative-IsSound now key m v = record {
    exclusive = put_negative-IsExclusive now key m v.exclusive;
    entries = put_negative-AllEntries (IsEntry valid_here) now key m v.exclusive v.entries;
  }

  pub put-IsSound :
      (now : ℕ) (key : Bytes) (c : Cached) (m : ManifestCache Cached)
      → IsEntry valid_here key c
      → IsSound valid_here m
      → IsSound valid_here (put now key c m)
  put-IsSound now key c m entry v = record {
    exclusive = put-IsExclusive now key c m v.exclusive;
    entries = put-AllEntries (IsEntry valid_here) now key c m entry v.entries;
  }

  pub get-IsSound :
      (now : ℕ) (key : Bytes) (m : ManifestCache Cached)
      → IsSound valid_here m
      → IsSound valid_here (get now key m).0
  get-IsSound now key m v = record {
    exclusive = get-IsExclusive now key m v.exclusive;
    entries = get-AllEntries (IsEntry valid_here) now key m v.exclusive v.entries;
  }

  absent-IsGood :
      (t : SiteType) (pubkey d id : Bytes) (m : ManifestCache Cached)
      → IsSound valid_here m
      → IsGood t pubkey d id (m, absent)
  absent-IsGood t pubkey d id m v = (v, λ ev h. absurd (ground arith))

  keep_event-IsGood :
      (now : ℕ) (t : SiteType) (pubkey d id key : Bytes) (flt : Filter) (o : Option Event)
      (m : ManifestCache Cached)
      → length pubkey ≡ 64
      → key_and_filter t pubkey d id ≡ some (key, flt)
      → ((e : Event) → o ≡ some e → matches flt e ≡ true)
      → IsSound valid_here m
      → IsGood t pubkey d id (keep_event sha256 checks nip19 pool r now key o m)
  keep_event-IsGood now t pubkey d id key flt none m len kf match v =
      absent-IsGood t pubkey d id _ (put_negative-IsSound now key m v)
  keep_event-IsGood now t pubkey d id key flt (some e) m len kf match v =
      elim (Bool-cases (valid_here e)) [
        | inr bad ↦ rw bad (absent-IsGood t pubkey d id _ (put_negative-IsSound now key m v))
        | inl good ↦
            let of_site = key_and_filter-IsOf t pubkey d id key flt e kf (match e refl) in
            let entry : IsEntry valid_here key (event_entry e) =
              (good, (t, pubkey, d, id, flt, kf, len, of_site)) in
            rw good (
              put-IsSound now key (event_entry e) m entry v,
              λ ev h.
                  let same : e ≡ ev = ground arith in
                  subst (λ x. (valid_here x ≡ true) × IsOf t pubkey d id x) same (good, of_site),
            )
      ]

  answer_event-IsGood :
      (clock : Clock) (t : SiteType) (pubkey d id key : Bytes) (flt : Filter) (o : Option Cached)
      (m : ManifestCache Cached)
      → length pubkey ≡ 64
      → key_and_filter t pubkey d id ≡ some (key, flt)
      → All (λ e. matches flt e ≡ true) (present (pool r.relays flt))
      → ((c : Cached) → o ≡ some c → IsEntry valid_here key c)
      → IsSound valid_here m
      → IsGood t pubkey d id (answer_event sha256 checks nip19 pool r clock key flt o m)
  answer_event-IsGood clock t pubkey d id key flt (some (release_entry rel)) m len kf honest entry
        v =
      absent-IsGood t pubkey d id m v
  answer_event-IsGood clock t pubkey d id key flt (some (event_entry e)) m len kf honest entry v =
      let (good, (t', pubkey', d', id', flt', kf', len', of_site)) = entry (event_entry e) refl in
      let here =
        key_and_filter-same t t' pubkey d id pubkey' d' id' key flt flt' e len len' kf kf'
          of_site in
      (
        v,
        λ ev h.
            let same : e ≡ ev = ground arith in
            subst (λ x. (valid_here x ≡ true) × IsOf t pubkey d id x) same (good, here),
      )
  answer_event-IsGood clock t pubkey d id key flt none m len kf honest entry v =
      elim (Bool-cases (negative clock.at_negative key m)) [
        | inl y ↦ rw y (absent-IsGood t pubkey d id m v)
        | inr n ↦ rw n (
            keep_event-IsGood clock.at_put t pubkey d id key flt _ m len kf
              (λ e h.
                newest_event-All (λ x. matches flt x ≡ true) true (pool r.relays flt) [] none e
                  honest (λ b k. absurd (none_ne_some k)) h)
              v)
      ]

  manifest-IsGood :
      (clock : Clock) (t : SiteType) (pubkey d id : Bytes) (m : ManifestCache Cached)
      → length pubkey ≡ 64
      → ((flt : Filter) → All (λ e. matches flt e ≡ true) (present (pool r.relays flt)))
      → IsSound valid_here m
      → IsGood t pubkey d id (manifest sha256 checks nip19 pool r clock t pubkey d id m)
  unfolding manifest
  manifest-IsGood clock t pubkey d id m len honest v =
      elim (Option-cases (key_and_filter t pubkey d id)) [
        | inl e ↦ rw e (v, λ ev h. absurd (ground arith))
        | inr (kf, e) ↦ rw e (
            answer_event-IsGood clock t pubkey d id kf.0 kf.1 _ _ len e (honest kf.1)
              (λ c h.
                let (en, at_key, same) = get-some clock.at_get kf.0 m c h in
                subst (IsEntry valid_here kf.0) same (v.entries kf.0 en at_key))
              (get-IsSound clock.at_get kf.0 m v))
      ]

  -- `Manifest` keeps the cache sound: every entry is a valid manifest of the site of its key, or a
  -- release with a digest, if the relays deliver only what matches the filter they were given.
  pub manifest-IsSound :
      (clock : Clock) (t : SiteType) (pubkey d id : Bytes) (m : ManifestCache Cached)
      → length pubkey ≡ 64
      → ((flt : Filter) → All (λ e. matches flt e ≡ true) (present (pool r.relays flt)))
      → IsSound valid_here m
      → IsSound valid_here (manifest sha256 checks nip19 pool r clock t pubkey d id m).0
  manifest-IsSound clock t pubkey d id m len honest v =
      (manifest-IsGood clock t pubkey d id m len honest v).0

  -- What `Manifest` returns, from the cache or from the relays, is a valid manifest of the site asked
  -- for, if the cache is sound and the relays deliver only what matches their filter.
  pub manifest-found :
      (clock : Clock) (t : SiteType) (pubkey d id : Bytes) (m : ManifestCache Cached) (ev : Event)
      → length pubkey ≡ 64
      → ((flt : Filter) → All (λ e. matches flt e ≡ true) (present (pool r.relays flt)))
      → IsSound valid_here m
      → (manifest sha256 checks nip19 pool r clock t pubkey d id m).1 ≡ found ev
      → (is_valid_manifest sha256 checks nip19 pool r ev ≡ true) × IsOf t pubkey d id ev
  manifest-found clock t pubkey d id m ev len honest v h =
      (manifest-IsGood clock t pubkey d id m len honest v).1 ev h
