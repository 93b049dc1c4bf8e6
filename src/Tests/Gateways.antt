-- ===== src/Tests/Gateways.antt =====
-- Tests of the resolver of internal/resolve and of the gateway that cmd/nostrhost-nsite puts together.
use nostrhost_nsite.Prelude.{
  ℕ, ◌≡◌, ◌≢◌, refl, inl, inr, Bool, true, List, [], ◌∷◌, none, some, arith, if◌then◌else◌, All,
  Bytes, codes, beq, member, has_prefix, has_suffix, contains, after_last, split_on, Bool-cases,
  none_ne_some,
}
use nostrhost_nsite.Hex.{is_lower_hex, encode_to_string, hex_char}
use nostrhost_nsite.Assoc.{lookup, insert, delete}
use nostrhost_nsite.Http.{Request}
use nostrhost_nsite.Nostr.{Event, Filter, Pool}
use nostrhost_nsite.Nip5a.Base36.{is_valid_d, re_d, is_d_char}
use nostrhost_nsite.Nip5a.Label.{named, Site}
use nostrhost_nsite.Nip5a.Manifest.{
  tag_values, filter_tags, has_path_extension, bad_path_chars, is_sha256_hex, dedupe, dedupe_from,
}
use nostrhost_nsite.Nip5a.Validate.{
  validate, full_verdict, rule_errors, kind_errors, d_errors, check_path, scan_paths,
  x_count_errors, x_errors, ref_errors, a_errors,
}
use nostrhost_nsite.Cache.ManifestCache.{ManifestCache, get, negative, put}
use nostrhost_nsite.Npk.Release.Newest.{present}
use nostrhost_nsite.Resolve.{
  Cached, Resolver, Clock, found, manifest, release, newest_event, key_and_filter,
  is_valid_manifest,
}
use nostrhost_nsite.Resolve.Keys.{matches, IsOf}
use nostrhost_nsite.Resolve.Sound.{IsSound, manifest-found}
use nostrhost_nsite.Resolve.Releases.{NamesArtifact, release_found}
use nostrhost_nsite.Server.Handlers.{fetched, State, Backends, path_map, server_hints}
use nostrhost_nsite.Server.Serving.{choose_servers, serve_site}
use nostrhost_nsite.Server.Available.{IsDelivered, serve_site-IsDelivered}
use nostrhost_nsite.Gateway.{World, Io, Outside}
use nostrhost_nsite.Gateway.Laws.{IsSoundWorld}
use nostrhost_nsite.Blossom.Fetch.{Fetcher}
use nostrhost_nsite.Tests.Fixtures.{no_nip19, toy_sha256, trusting, two_sha}
use nostrhost_nsite.Npk.Release.{
  newest_release, newest_named, release_name, is_revoked, parse_release, read_tags, is_sha256,
  is_hex,
}
use nostrhost_nsite.Tests.Releases.{two_events, blog_release}
use nostrhost_nsite.Tests.Manifests.{blog}
use nostrhost_nsite.Tests.Fetches.{two_client}
use nostrhost_nsite.Tests.Servers.{
  plain_unicode, one_key, toy_backends, toy_fetch, toy_fetch_law, start,
}

-- relays that hold one manifest
abbrev pub blog_pool : Pool
blog_pool relays flt = if matches flt blog then some blog ∷ [] else []

pub blog_pool_honest :
    (relays : List Bytes) (flt : Filter)
    → All (λ e. matches flt e ≡ true) (present (blog_pool relays flt))
blog_pool_honest relays flt = elim (Bool-cases (matches flt blog)) [
  | inl y ↦ rw y (y, tt)
  | inr n ↦ rw n tt
]

abbrev pub resolver : Resolver
resolver = record {
  relays = codes "wss://r.net" ∷ [];
  forbidden = [];
  max_paths = 0;
  catalogue = none;
}

abbrev pub clock : Clock
clock = record { at_get = 5; at_negative = 5; at_put = 5 }

abbrev pub empty_cache : ManifestCache Cached
empty_cache = record { ttl = 60; neg_ttl = 10; items = []; negated = [] }

empty_cache-IsSound : (valid : Event → Bool) → IsSound valid empty_cache
unfolding lookup
empty_cache-IsSound valid = record {
  exclusive = record { items_once = tt; negated_once = tt; apart = λ k. inl refl };
  entries = λ k en h. absurd (none_ne_some h);
}

blog_found :
    (manifest toy_sha256 trusting no_nip19 blog_pool resolver clock named two_sha
      (codes "blog")
      []
      empty_cache).1
    ≡ found blog
unfolding manifest key_and_filter get negative newest_event lookup delete put validate full_verdict
    rule_errors kind_errors d_errors check_path scan_paths x_count_errors x_errors ref_errors
    a_errors tag_values filter_tags has_path_extension bad_path_chars is_sha256_hex dedupe
    dedupe_from is_valid_d re_d is_lower_hex is_d_char beq member has_prefix has_suffix contains
    after_last split_on
blog_found = refl

manifest-found_example :
    (is_valid_manifest toy_sha256 trusting no_nip19 blog_pool resolver blog ≡ true)
    × IsOf named two_sha (codes "blog") [] blog
manifest-found_example =
    manifest-found toy_sha256 trusting no_nip19 blog_pool resolver clock named two_sha
      (codes "blog") [] empty_cache blog refl (blog_pool_honest resolver.relays)
      (empty_cache-IsSound _) blog_found

blog_release_found :
    (release two_events resolver clock two_sha (codes "blog") empty_cache).1 ≡ found blog_release
unfolding release get negative lookup delete put newest_release newest_named release_name is_revoked
    parse_release read_tags is_sha256 is_hex beq
blog_release_found = refl

release_found_example :
    IsSound
      (is_valid_manifest toy_sha256 trusting no_nip19 two_events resolver)
      (release two_events resolver clock two_sha (codes "blog") empty_cache).0
    × NamesArtifact (release two_events resolver clock two_sha (codes "blog") empty_cache).1
release_found_example =
    release_found toy_sha256 trusting no_nip19 two_events resolver clock two_sha (codes "blog")
      empty_cache (empty_cache-IsSound _)

-- a visitor of a root site
abbrev pub npub_ask : Request
npub_ask = record {
  host = codes "npub1x.ex.org";
  path = codes "/";
  domain = [];
  if_none_match = [];
}

abbrev pub surroundings : Outside
surroundings = record {
  sha256 = toy_sha256;
  checks = trusting;
  nip19 = one_key;
  pool = blog_pool;
  client = two_client;
  quote = λ s. s;
}

abbrev pub io : Io
io = record {
  clock = clock;
  open_ok = true;
  opened_at = 5;
  read_cut = none;
  put = record {
    create_ok = true;
    body = none;
    sync_ok = true;
    close_ok = true;
    rename_ok = true;
    remove_ok = λ k. true;
    ranged = λ m. [];
    now = 5;
  };
}

abbrev pub first_world : World
first_world = record {
  mcache = empty_cache;
  blobs = record { quota = 100; used = 0; sizes = []; last_use = []; disk = [] };
}

abbrev pub first_state : State World
first_state = record { world = first_world; metrics = start.metrics }

pub first_world-IsSoundWorld :
    (r : Resolver) (f : Fetcher) → IsSoundWorld surroundings r f first_world
unfolding lookup
first_world-IsSoundWorld r f = record {
  manifests = empty_cache-IsSound _;
  blobs = record { disk_once = tt; named_by_digest = λ k body h. absurd (none_ne_some h) };
}

-- a backend with a manifest, and one server that has its blob
abbrev blog_backends : Backends ℕ
blog_backends = record toy_backends { manifest = λ t k d w. (w, some blog) }

index_at : lookup (codes "/index.html") (path_map blog.tags []) ≡ some two_sha
unfolding lookup path_map insert beq
index_at = refl

two_fetched : toy_fetch two_sha ≡ fetched (1 ∷ 2 ∷ [])
unfolding beq
two_fetched = refl

b_net_listed :
    member (codes "https://b.net") (choose_servers plain_unicode blog_backends blog 0).1 ≡ true
unfolding choose_servers server_hints member beq
b_net_listed = refl

empty_ne_two : encode_to_string (toy_sha256 []) ≢ two_sha
unfolding encode_to_string hex_char
empty_ne_two h = ground arith

abbrev blog_site : Site
blog_site = record { site_type = named; hex_id = two_sha; d = codes "blog" }

serve_site-IsDelivered_example :
    IsDelivered toy_sha256 plain_unicode blog_backends npub_ask two_sha 200
      (serve_site plain_unicode blog_backends npub_ask blog_site (codes "/index.html") start).1
serve_site-IsDelivered_example =
    serve_site-IsDelivered toy_sha256 plain_unicode blog_backends npub_ask blog_site
      (codes "/index.html") two_sha blog start refl refl refl index_at
      (record {
        server = codes "https://b.net";
        fetcher = refl;
        not_cached = refl;
        is_listed = b_net_listed;
        delivers = λ w. (1 ∷ 2 ∷ [], two_fetched);
        verifies = toy_fetch_law;
        not_empty = empty_ne_two;
      })
