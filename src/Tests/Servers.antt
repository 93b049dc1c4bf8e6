-- ===== src/Tests/Servers.antt =====
-- Tests of the handlers of internal/server/server.go.
use nostrhost_nsite.Prelude.{
  includes, ℕ, ◌≡◌, ◌↔◌, ◌⊎◌, if◌then◌else◌, beq→eq, refl, inr, true, false, [], ◌∷◌, Option, none,
  some, arith, Bytes, codes, beq, member, has_prefix, has_suffix, trim_suffix, contains, after_last,
  before_last, split_on,
}
use nostrhost_nsite.Assoc.{lookup, insert}
use nostrhost_nsite.Hex.{from_hex_char, encode_to_string, hex_char}
use nostrhost_nsite.Http.{Request}
use nostrhost_nsite.Nostr.{Event}
use nostrhost_nsite.Nip5a.Label.{Nip19, Site, text, root, decode_label, canonical_site_url}
use nostrhost_nsite.Server.Hosts.{
  Unicode, Server, Config, apply, add_custom, to_lower, trim_space, trim_left, trim_right,
  strip_port, host_name, is_apex, parse_host, allowlisted,
}
use nostrhost_nsite.Server.Paths.{normalise_path, path_unescape, collapse, last_segment}
use nostrhost_nsite.Server.Paths.Safety.{IsSafe, normalise_path-IsSafe}
use nostrhost_nsite.Server.Handlers.{
  FetchResult, failed, fetched, Backends, State, reject, serve_apex,
}
use nostrhost_nsite.Server.Serving.{
  handle_public, has_author, asked_host, handle_tls_ask, serve_blob,
}
use nostrhost_nsite.Server.Gate.{
  IsServed, handle_public_gate, handle_public_unlisted, handle_tls_ask_iff,
  parse_host-canonical_site_url,
}
use nostrhost_nsite.Server.Verified.{IsVerified, serve_blob-IsVerified}
use nostrhost_nsite.Tests.Fixtures.{toy_sha256, two_sha, three_sha}

-- tables of Unicode that change nothing
abbrev pub plain_unicode : Unicode
plain_unicode = record { lower = λ s. s; trim = λ s. s }

-- a package nip19 that decodes every label to one key
abbrev pub one_key : Nip19
one_key = record { decode = λ l. some (codes "npub", text two_sha); encode_public_key = λ k. none }

abbrev pub hosted : Config
hosted = record {
  domain = codes "ex.org";
  mode = codes "hosted";
  sites = record { pubkey = two_sha; kind = 15128; d = [] } ∷ [];
  custom_domains = record { fqdn = codes "Other.net."; pubkey = three_sha; d = [] } ∷ [];
}

-- a backend whose one blob is the text of length 2
abbrev pub toy_fetch : Bytes → FetchResult
toy_fetch sha = if beq sha two_sha then fetched (1 ∷ 2 ∷ []) else failed (codes "hash")

abbrev toy_open : Bytes → Option Bytes
toy_open sha = if beq sha two_sha then some (1 ∷ 2 ∷ []) else none

abbrev pub toy_backends : Backends ℕ
toy_backends = record {
  has_resolver = true;
  has_fetcher = true;
  has_blobs = true;
  has_npk = false;
  manifest = λ t k d w. (w, none);
  release = λ k n w. (w, none);
  blossom_servers = λ k w. (w, codes "https://b.net" ∷ []);
  fetch = λ server sha w. (w, toy_fetch sha);
  blob_has = λ sha w. false;
  blob_open = λ sha w. (w, toy_open sha);
  blob_put = λ sha body w. w;
  npk_has = λ sha w. false;
  npk_open = λ sha path w. (w, none);
  npk_unpack = λ sha body w. (w, false);
}

abbrev pub start : State ℕ
start = record {
  world = 0;
  metrics = record {
    req_apex = 0;
    req_site = 0;
    req_other = 0;
    cache_hits = 0;
    fetch_failures = [];
    bytes_served = [];
  };
}

abbrev pub ask : Request
ask = record {
  host = codes "OTHER.net:443";
  path = codes "/a%2Ejs";
  domain = [];
  if_none_match = [];
}

abbrev note : Event
note = record { id = three_sha; pubkey = two_sha; created_at = 7; kind = 15128; tags = [] }

note_normal : normalise_path (codes "/a//b%2E/") ≡ some (codes "/a/b./index.html")
unfolding normalise_path path_unescape from_hex_char collapse includes has_prefix has_suffix beq
    contains split_on last_segment after_last trim_suffix
note_normal = refl

-- One pass leaves two slashes of three.
three_slashes : collapse (codes "/a///b.js") ≡ codes "/a//b.js"
unfolding collapse
three_slashes = refl

normalise_path-IsSafe_example : IsSafe (codes "/a/b./index.html")
normalise_path-IsSafe_example =
    normalise_path-IsSafe (codes "/a//b%2E/") (codes "/a/b./index.html") note_normal

ask_host :
    parse_host plain_unicode one_key (apply plain_unicode hosted) ask.host
    ≡ some (codes "other.net", record { site_type = root; hex_id = three_sha; d = [] })
unfolding parse_host host_name strip_port before_last to_lower trim_space trim_left trim_right
    contains beq has_suffix lookup insert apply add_custom trim_suffix
ask_host = refl

not_apex : is_apex plain_unicode (apply plain_unicode hosted) ask.host ≡ false
unfolding is_apex host_name strip_port before_last to_lower trim_space trim_left trim_right contains
    beq apply
not_apex = refl

hosted_mode : beq hosted.mode (codes "open") ≡ false
unfolding beq
hosted_mode = refl

three_unlisted : member three_sha (two_sha ∷ []) ≡ false
unfolding member beq
three_unlisted = refl

handle_public_unlisted_example :
    handle_public plain_unicode toy_backends one_key (apply plain_unicode hosted) ask start
    ≡ reject start
handle_public_unlisted_example =
    handle_public_unlisted plain_unicode toy_backends one_key hosted ask start (codes "other.net")
      (record { site_type = root; hex_id = three_sha; d = [] }) hosted_mode not_apex ask_host
      (inr three_unlisted)

handle_public_gate_example :
    (handle_public plain_unicode toy_backends one_key (apply plain_unicode hosted) ask start
      ≡ reject start)
    ⊎ ((is_apex plain_unicode (apply plain_unicode hosted) ask.host ≡ true)
        × ((handle_public plain_unicode toy_backends one_key
              (apply plain_unicode hosted)
              ask
              start).1
            ≡ serve_apex))
    ⊎ IsServed plain_unicode toy_backends one_key (apply plain_unicode hosted) ask start
handle_public_gate_example =
    handle_public_gate plain_unicode toy_backends one_key (apply plain_unicode hosted) ask start

handle_tls_ask_iff_example :
    ((handle_tls_ask plain_unicode one_key (apply plain_unicode hosted) ask).status ≡ 200) ↔ (
      (is_apex plain_unicode (apply plain_unicode hosted) (asked_host ask) ≡ true)
      ⊎ ((label : Bytes) × (site : Site) × (parse_host plain_unicode one_key
              (apply plain_unicode hosted)
              (asked_host ask)
            ≡ some (label, site))
          × (has_author site.site_type ≡ true)
          × (allowlisted (apply plain_unicode hosted) site.site_type site.hex_id ≡ true)))
handle_tls_ask_iff_example =
    handle_tls_ask_iff plain_unicode one_key (apply plain_unicode hosted) ask

npub_label :
    decode_label one_key (codes "npub1x")
    ≡ some (record { site_type = root; hex_id = two_sha; d = [] })
unfolding decode_label has_prefix beq
npub_label = refl

npub_host :
    host_name plain_unicode (canonical_site_url (codes "npub1x") (codes "ex.org"))
    ≡ canonical_site_url (codes "npub1x") (codes "ex.org")
unfolding canonical_site_url host_name strip_port before_last to_lower trim_space trim_left
    trim_right contains
npub_host = refl

abbrev pub gateway : Server
gateway = record { cfg = hosted; allow = two_sha ∷ []; custom = [] }

parse_host-canonical_site_url_example :
    parse_host plain_unicode one_key gateway (canonical_site_url (codes "npub1x") (codes "ex.org"))
    ≡ some (codes "npub1x", record { site_type = root; hex_id = two_sha; d = [] })
parse_host-canonical_site_url_example =
    parse_host-canonical_site_url plain_unicode one_key gateway (codes "npub1x")
      (record { site_type = root; hex_id = two_sha; d = [] }) npub_label (omega arith) (omega arith)
      npub_host

two_digest : encode_to_string (toy_sha256 (1 ∷ 2 ∷ [])) ≡ two_sha
unfolding encode_to_string hex_char
two_digest = refl

pub toy_fetch_law :
    (server sha : Bytes) (w : ℕ) (body : Bytes)
    → toy_fetch sha ≡ fetched body
    → encode_to_string (toy_sha256 body) ≡ sha
toy_fetch_law server sha w body h = ground (arith, two_digest, beq→eq sha two_sha)

toy_open_law :
    (sha : Bytes) (w : ℕ) (body : Bytes)
    → toy_open sha ≡ some body
    → encode_to_string (toy_sha256 body) ≡ sha
toy_open_law sha w body h = ground (arith, two_digest, beq→eq sha two_sha)

serve_blob-IsVerified_example :
    IsVerified toy_sha256 two_sha 200
      (serve_blob plain_unicode toy_backends ask note two_sha (codes "/a.js") 200 start).1
serve_blob-IsVerified_example =
    serve_blob-IsVerified toy_sha256 plain_unicode toy_backends ask note two_sha (codes "/a.js") 200
      start toy_fetch_law toy_open_law
