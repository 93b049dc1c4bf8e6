-- ===== src/Resolve.antt =====
-- internal/resolve/resolve.go: manifests, releases and server lists, from the cache or the relays.
-- The manifest cache is the state; what the relays deliver, the clock, sha256, the checks of an event
-- and package nip19 are parameters.
pub mod Keys
pub mod Entries
pub mod Sound
pub mod Releases
use nostrhost_nsite.Prelude.{
  ℕ, Bool, true, false, not, ◌&&◌, ◌||◌, List, [], ◌∷◌, ◌++◌, Option, none, some, if◌then◌else◌,
  map, filter, Bytes, codes, beq, member,
}
use nostrhost_nsite.Nostr.{Event, Checks, Filter, Pool, has_value, value_of}
use nostrhost_nsite.Nip5a.Label.{SiteType, root, named, snapshot, Nip19}
use nostrhost_nsite.Nip5a.Manifest.{kind_root, kind_named, kind_snapshot, Options, Verdict}
use nostrhost_nsite.Nip5a.Validate.{validate}
use nostrhost_nsite.Cache.ManifestCache.{ManifestCache, get, negative, put, put_negative}
use nostrhost_nsite.Npk.Release.{Release, Catalogue, newest, newest_release, is_older}

-- What the cache holds, an `any`.
pub data Cached : Type 0 where
  event_entry : Event → Cached
  release_entry : Release → Cached

-- `Resolver`, less its cache; a map of keys is their list.
pub record Resolver : Type 0 where
  pub relays : List Bytes
  pub forbidden : List Bytes
  pub max_paths : ℕ
  pub catalogue : Option Catalogue

-- The clock's answers in one call, where `Get`, `Negative`, and `Put` or `PutNegative` ask.
pub record Clock : Type 0 where
  pub at_get : ℕ
  pub at_negative : ℕ
  pub at_put : ℕ

-- An error, nil without an error, or a value.
pub data Found (A : Type 0) : Type 0 where
  failed : Found A
  absent : Found A
  found : A → Found A

unfoldable pub key_and_filter : SiteType → Bytes → Bytes → Bytes → Option (Bytes × Filter)
key_and_filter root pubkey d id = some (
  codes "root:" ++ pubkey,
  record { kinds = kind_root ∷ []; authors = pubkey ∷ []; ids = []; d_values = [] },
)
key_and_filter named pubkey d id =
    if beq d []
    then none
    else some (
      codes "named:" ++ (pubkey ++ (codes ":" ++ d)),
      record { kinds = kind_named ∷ []; authors = pubkey ∷ []; ids = []; d_values = d ∷ [] },
    )
key_and_filter snapshot pubkey d id =
    if beq id []
    then none
    else some (
      codes "snap:" ++ id,
      record { kinds = kind_snapshot ∷ []; authors = []; ids = id ∷ []; d_values = [] },
    )

-- The loop of `newestEvent` over what the pool delivers.
unfoldable pub newest_event : Bool → List Bytes → List (Option Event) → Option Event → Option Event
newest_event dedupe seen [] best = best
newest_event dedupe seen (none ∷ hits) best = newest_event dedupe seen hits best
newest_event dedupe seen (some e ∷ hits) best =
    newest_event dedupe (if dedupe then e.id ∷ seen else seen) hits
      (if dedupe && member e.id seen then best else if is_older e best then best else some e)

abbrev pub servers_of : Option Event → List Bytes
servers_of none = []
servers_of (some best) = map value_of (filter (has_value (codes "server")) best.tags)

unfoldable pub blossom_servers : Pool → Resolver → Bytes → List Bytes
blossom_servers pool r pubkey = servers_of (
    newest_event false []
      (pool r.relays
        (record { kinds = 10063 ∷ []; authors = pubkey ∷ []; ids = []; d_values = [] }))
      none)

abbrev pub cached_event : Cached → Found Event
cached_event (event_entry ev) = found ev
cached_event (release_entry rel) = absent

abbrev pub cached_release : Cached → Found Release
cached_release (event_entry ev) = absent
cached_release (release_entry rel) = found rel

abbrev pub options_of : Resolver → Options
options_of r = record { forbidden_pubkeys = r.forbidden; max_paths = r.max_paths }

module _ (sha256 : Bytes → Bytes) (checks : Checks) (nip19 : Nip19) (pool : Pool)
    (r : Resolver) where
  abbrev pub is_valid_manifest : Event → Bool
  is_valid_manifest ev = (validate sha256 (options_of r) checks nip19 ev).valid

  abbrev pub keep_event :
      ℕ → Bytes → Option Event → ManifestCache Cached → ManifestCache Cached × Found Event
  keep_event now key none m = (put_negative now key m, absent)
  keep_event now key (some best) m =
      if not (is_valid_manifest best)
      then (put_negative now key m, absent)
      else (put now key (event_entry best) m, found best)

  abbrev pub answer_event :
      Clock
      → Bytes
      → Filter
      → Option Cached
      → ManifestCache Cached
      → ManifestCache Cached × Found Event
  answer_event clock key flt (some cached) m = (m, cached_event cached)
  answer_event clock key flt none m =
      if negative clock.at_negative key m
      then (m, absent)
      else keep_event clock.at_put key (newest_event true [] (pool r.relays flt) none) m

  abbrev pub manifest_at :
      Clock → Option (Bytes × Filter) → ManifestCache Cached → ManifestCache Cached × Found Event
  manifest_at clock none m = (m, failed)
  manifest_at clock (some (key, flt)) m =
      let got = get clock.at_get key m in answer_event clock key flt got.1 got.0

  -- `Manifest`
  unfoldable pub manifest :
      Clock
      → SiteType
      → Bytes
      → Bytes
      → Bytes
      → ManifestCache Cached
      → ManifestCache Cached × Found Event
  manifest clock site_type pubkey d id m =
      manifest_at clock (key_and_filter site_type pubkey d id) m

abbrev pub release_key : Bytes → Bytes → Bytes
release_key publisher name = codes "release:" ++ (publisher ++ (codes ":" ++ name))

abbrev pub listed : Option Catalogue → Bytes → Bytes → Option Release
listed none publisher name = none
listed (some c) publisher name = newest c publisher name

abbrev pub keep_release :
    ℕ → Bytes → Option Release → ManifestCache Cached → ManifestCache Cached × Found Release
keep_release now key none m = (put_negative now key m, absent)
keep_release now key (some rel) m = (put now key (release_entry rel) m, found rel)

-- The catalogue's release, or else the relays'; `NewestRelease` gives no error.
abbrev pub first_release : Option Release → Option Release → Option Release
first_release (some rel) relayed = some rel
first_release none relayed = relayed

abbrev pub answer_release :
    Pool
    → Resolver
    → Clock
    → Bytes
    → Bytes
    → Option Cached
    → ManifestCache Cached
    → ManifestCache Cached × Found Release
answer_release pool r clock publisher name (some cached) m = (m, cached_release cached)
answer_release pool r clock publisher name none m =
    if negative clock.at_negative (release_key publisher name) m
    then (m, absent)
    else keep_release clock.at_put (release_key publisher name)
        (first_release (listed r.catalogue publisher name)
          (newest_release pool r.relays publisher name))
        m

-- `Release`
unfoldable pub release :
    Pool
    → Resolver
    → Clock
    → Bytes
    → Bytes
    → ManifestCache Cached
    → ManifestCache Cached × Found Release
release pool r clock publisher name m =
    let got = get clock.at_get (release_key publisher name) m in
    answer_release pool r clock publisher name got.1 got.0
