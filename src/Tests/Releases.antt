-- ===== src/Tests/Releases.antt =====
-- Tests of the releases of internal/npk.
use nostrhost_nsite.Prelude.{
  ℕ, ◌≡◌, ◌≢◌, refl, false, List, [], ◌∷◌, Option, none, some, ◌==◌, arith, if◌then◌else◌, any,
  filter, Bytes, codes, beq,
}
use nostrhost_nsite.Nostr.{Event, Pool}
use nostrhost_nsite.Npk.Release.{
  kind_release, kind_revocation, Release, Catalogue, author_filter, is_hex, is_sha256, release_name,
  read_tags, parse_release, newest_named, is_revoked, newest_release, newest,
}
use nostrhost_nsite.Npk.Release.Newest.{present, IsLatest, is_named}
use nostrhost_nsite.Npk.Release.Parsed.{IsReleaseOf}
use nostrhost_nsite.Npk.Release.Sources.{is_by, newest_release_sound, newest-newest_release}
use nostrhost_nsite.Tests.Fixtures.{two_sha, three_sha}

abbrev release_event : Event
release_event = record {
  id = codes "e1";
  pubkey = two_sha;
  created_at = 7;
  kind = 9900;
  tags =
      (codes "name" ∷ codes "blog" ∷ [])
      ∷ (codes "version" ∷ codes "1.0" ∷ [])
      ∷ (codes "x" ∷ three_sha ∷ [])
      ∷ [];
}

abbrev revocation_event : Event
revocation_event = record {
  id = codes "e2";
  pubkey = two_sha;
  created_at = 8;
  kind = 9901;
  tags = (codes "e" ∷ codes "e0" ∷ []) ∷ [];
}

-- relays with one release and one revocation, of another release
abbrev of_kinds : List ℕ → List (Option Event)
of_kinds kinds =
    if any (λ k. k == 9900) kinds
    then none ∷ some release_event ∷ []
    else some revocation_event ∷ []

abbrev pub two_events : Pool
two_events relays flt = of_kinds flt.kinds

abbrev pub one_relay : List Bytes
one_relay = codes "wss://r.net" ∷ []

abbrev pub blog_release : Release
blog_release = record {
  publisher = two_sha;
  name = codes "blog";
  version = codes "1.0";
  sha256 = three_sha;
  event_id = codes "e1";
}

pub newest_blog : newest_release two_events one_relay two_sha (codes "blog") ≡ some blog_release
unfolding newest_release newest_named release_name is_revoked parse_release read_tags is_sha256
    is_hex beq
newest_blog = refl

newest_release_sound_example :
    (e : Event) × IsLatest
      (is_named (codes "blog"))
      (present (two_events one_relay (author_filter kind_release two_sha)))
      (some e)
    × IsReleaseOf e blog_release
    × (is_revoked e.id (two_events one_relay (author_filter kind_revocation two_sha)) ≡ false)
newest_release_sound_example =
    newest_release_sound two_events one_relay two_sha (codes "blog") blog_release newest_blog

abbrev catalogue : Catalogue
catalogue = record {
  created_at = 9;
  releases = release_event ∷ [];
  revocations = revocation_event ∷ [];
}

same_releases :
    present (two_events one_relay (author_filter kind_release two_sha))
    ≡ filter (is_by kind_release two_sha) catalogue.releases
unfolding beq
same_releases = refl

same_revocations :
    present (two_events one_relay (author_filter kind_revocation two_sha))
    ≡ filter (is_by kind_revocation two_sha) catalogue.revocations
unfolding beq
same_revocations = refl

one_relay_ne_nil : one_relay ≢ []
one_relay_ne_nil h = ground arith

newest-newest_release_example :
    newest catalogue two_sha (codes "blog")
    ≡ newest_release two_events one_relay two_sha (codes "blog")
newest-newest_release_example =
    newest-newest_release two_events one_relay catalogue two_sha (codes "blog") one_relay_ne_nil
      same_releases same_revocations
