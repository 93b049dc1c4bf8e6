-- ===== src/Gateway.antt =====
-- cmd/nostrhost-nsite/main.go, lines 157 to 210: the backends that `applyBackends` installs, over the
-- manifest cache and the blob cache; the bundle store is left out, as it is by default.
pub mod Keys
pub mod Laws
pub mod Wiring
pub mod Loaded
use nostrhost_nsite.Prelude.{
  ℕ, Bool, true, false, List, [], ◌∷◌, ◌++◌, Option, none, some, take, Bytes, codes,
}
use nostrhost_nsite.Nostr.{Event, Checks, Pool}
use nostrhost_nsite.Nip5a.Label.{SiteType, Nip19}
use nostrhost_nsite.Cache.ManifestCache.{ManifestCache}
use nostrhost_nsite.Cache.BlobStore.{BlobStore, PutIo, put, has, open_blob}
use nostrhost_nsite.Blossom.Fetch.{Fetcher, Client, Fetched, err, ok, fetch}
use nostrhost_nsite.Blossom.Classify.{error_of, error_text, classify_fetch_error}
use nostrhost_nsite.Npk.Release.{Release}
use nostrhost_nsite.Resolve.{
  Cached, Resolver, Clock, Found, failed, absent, found, manifest, release, blossom_servers,
}
use nostrhost_nsite.Server.Handlers.{FetchResult, Backends}
use nostrhost_nsite.Server.Handlers as Handlers

-- What the backends keep between requests.
pub record World : Type 0 where
  pub mcache : ManifestCache Cached
  pub blobs : BlobStore

-- What the clock and the file system answer in one request.
pub record Io : Type 0 where
  pub clock : Clock
  pub open_ok : Bool
  pub opened_at : ℕ
  -- how many bytes of a cached file `io.ReadAll` reads before it fails, `none` if it reads them all
  pub read_cut : Option ℕ
  pub put : PutIo

-- `buf, _ := io.ReadAll(rc)`: what came before an error.
abbrev pub read_all : Option ℕ → Option Bytes → Option Bytes
read_all cut none = none
read_all none (some body) = some body
read_all (some n) (some body) = some (take n body)

-- An error and nil are one for the handlers.
abbrev pub or_none : {A : Type 0} → Found A → Option A
or_none failed = none
or_none absent = none
or_none (found a) = some a

abbrev pub sha_of : Option Release → Option Bytes
sha_of none = none
sha_of (some rel) = some rel.sha256

-- What surrounds the gateway.
pub record Outside : Type 0 where
  pub sha256 : Bytes → Bytes
  pub checks : Checks
  pub nip19 : Nip19
  pub pool : Pool
  pub client : Client
  pub quote : Bytes → Bytes

module _ (out : Outside) (r : Resolver) (f : Fetcher) where
  abbrev fetch_result : Bytes → Bytes → Fetched → FetchResult
  fetch_result server sha (ok body) = Handlers.fetched body
  fetch_result server sha (err e) = Handlers.failed (
      classify_fetch_error (
        some (
          error_of out.client server sha (error_text out.sha256 out.quote f out.client server sha)
            e)))

  unfoldable pub backends : Io → Backends World
  backends io = record {
    has_resolver = true;
    has_fetcher = true;
    has_blobs = true;
    has_npk = false;
    manifest = λ t pubkey d w.
        let res =
          manifest out.sha256 out.checks out.nip19 out.pool r io.clock t pubkey d [] w.mcache in
        (record w { mcache = res.0 }, or_none res.1);
    release = λ publisher name w.
        let res = release out.pool r io.clock publisher name w.mcache in
        (record w { mcache = res.0 }, sha_of (or_none res.1));
    blossom_servers = λ pubkey w. (w, blossom_servers out.pool r pubkey);
    fetch = λ server sha w. (w, fetch_result server sha (fetch out.sha256 f out.client server sha));
    blob_has = λ sha w. has sha w.blobs;
    blob_open = λ sha w.
        let res = open_blob io.open_ok io.opened_at sha w.blobs in
        (record w { blobs = res.0 }, read_all io.read_cut res.1);
    blob_put = λ sha body w. record w {
      blobs = (put out.sha256 (record (io.put) { body = some body }) sha w.blobs).0;
    };
    npk_has = λ sha w. false;
    npk_open = λ sha path w. (w, none);
    npk_unpack = λ sha body w. (w, false);
  }
