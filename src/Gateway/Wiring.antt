-- ===== src/Gateway/Wiring.antt =====
-- cmd/nostrhost-nsite/main.go: what the command makes of its settings when it starts and at each
-- SIGHUP. Listeners, directories, the catalogue file and the environment answer through `Io`.
pub mod Sites
pub mod Reloads
use nostrhost_nsite.Prelude.{
  ℕ, ◌*◌, ◌%◌, ◌^◌, Bool, true, false, not, ◌&&◌, List, [], ◌∷◌, ◌++◌, Option, none, some,
  if◌then◌else◌, Bytes, beq,
}
use nostrhost_nsite.Npk.Release.{Catalogue}
use nostrhost_nsite.Resolve.{Resolver}
use nostrhost_nsite.Blossom.Dial.{Options}
use nostrhost_nsite.Blossomsrv.Store.{File, SweepIo, new_server, sweep}
use nostrhost_nsite.Blossomsrv.Store as Store
use nostrhost_nsite.Server.Hosts.{Unicode, apply, reload}
use nostrhost_nsite.Server.Hosts as Hosts
use nostrhost_nsite.Config.Settings.{Settings, handlers_part}

-- The local Blossom server, on its listener.
pub record Running : Type 0 where
  pub listen : Bytes
  pub store : Store.Server

-- What the command keeps: the handlers' part, and what the backends are made with.
pub record Process : Type 0 where
  pub server : Hosts.Server
  pub resolver : Resolver
  pub options : Options
  pub manifest_ttl : ℕ
  pub negative_ttl : ℕ
  pub cache_quota : ℕ
  pub has_npk : Bool
  pub local : Option Running

-- The command exits, or goes on.
pub data Outcome (A : Type 0) : Type 0 where
  exits : Outcome A
  goes_on : A → Outcome A

pub record Io : Type 0 where
  pub unicode : Unicode
  pub allow_loopback : Bool
  pub catalogue : Bytes → Option Catalogue
  pub caches_ok : Bool
  pub bundles_ok : Bool
  pub listen_ok : Bool
  pub dir_ok : Bool
  pub info_ok : Bytes → Bool
  pub files : List (Bytes × File)
  pub sweep_io : SweepIo

-- `time.Duration(n) * time.Second`
abbrev pub seconds : ℕ → ℕ
seconds n = (n * 1000000000) % 2 ^ 64

-- `localBlossomAddrs`
unfoldable pub local_blossom_addrs : Settings → List Bytes
local_blossom_addrs c = if not c.blossom.local.enabled then [] else c.blossom.local.listen ∷ []

abbrev pub catalogue_of : Io → Settings → Option Catalogue
catalogue_of io c = if beq c.npk.catalogue_path [] then none else io.catalogue c.npk.catalogue_path

abbrev pub resolver_of : Io → Settings → Resolver
resolver_of io c = record {
  relays = c.relays.lookup ++ c.relays.extra;
  forbidden = [];
  max_paths = c.limits.max_paths_per_manifest;
  catalogue = catalogue_of io c;
}

abbrev pub fetch_options : Io → Settings → Options
fetch_options io c = record {
  allow_http = c.blossom.allow_http;
  allow_loopback = io.allow_loopback;
  allow_loopback_addrs = local_blossom_addrs c;
  max_bytes = c.limits.max_blob_bytes;
  timeout = seconds c.limits.fetch_timeout_seconds;
  max_redirects = c.limits.max_redirects;
}

-- `applyBackends`: the stores open, or the command exits.
unfoldable pub apply_backends : Io → Settings → Process → Outcome Process
apply_backends io c p =
    if not io.caches_ok
    then exits
    else if c.npk.enabled && not io.bundles_ok
    then exits
    else goes_on (record p {
      resolver = resolver_of io c;
      options = fetch_options io c;
      manifest_ttl = seconds c.relays.manifest_ttl_seconds;
      negative_ttl = seconds c.relays.negative_ttl_seconds;
      cache_quota = c.limits.cache_quota_bytes;
      has_npk = c.npk.enabled;
    })

abbrev swept : Io → Bytes → Option Store.Server → Outcome (Option Running)
swept io listen none = exits
swept io listen (some s) =
    goes_on (some (record { listen = listen; store = (sweep io.sweep_io s).0 }))

-- `startBlossom`
unfoldable pub start_blossom : Io → Settings → Outcome (Option Running)
start_blossom io c =
    let l = c.blossom.local in
    if not l.enabled
    then goes_on none
    else if not io.listen_ok
    then exits
    else swept io l.listen (
        new_server l.data_dir io.dir_ok io.info_ok l.quota_bytes l.max_blob_bytes
          ((l.retention_days * 86400000000000) % 2 ^ 64) l.allow_pubkeys io.files)

-- `reloadBlossom`: an enabled server that runs is left as it is.
unfoldable pub reload_blossom : Io → Option Running → Settings → Outcome (Option Running)
reload_blossom io none c = if c.blossom.local.enabled then start_blossom io c else goes_on none
reload_blossom io (some cur) c =
    if c.blossom.local.enabled then goes_on (some cur) else goes_on none

abbrev pub with_local : Process → Outcome (Option Running) → Outcome Process
with_local p exits = exits
with_local p (goes_on l) = goes_on (record p { local = l })

abbrev pub then_start : Io → Settings → Outcome Process → Outcome Process
then_start io c exits = exits
then_start io c (goes_on p) = with_local p (start_blossom io c)

abbrev pub then_reload : Io → Settings → Outcome Process → Outcome Process
then_reload io c exits = exits
then_reload io c (goes_on p) = with_local p (reload_blossom io p.local c)

-- `main` up to the loop over signals.
unfoldable pub start : Io → Settings → Outcome Process
start io c = then_start io c (
    apply_backends io c (record {
      server = apply io.unicode (handlers_part c);
      resolver = resolver_of io c;
      options = fetch_options io c;
      manifest_ttl = 0;
      negative_ttl = 0;
      cache_quota = 0;
      has_npk = false;
      local = none;
    }))

-- One SIGHUP; `none` when `config.Load` fails.
unfoldable pub hup : Io → Option Settings → Process → Outcome Process
hup io none p = goes_on p
hup io (some c) p =
    then_reload io c
      (apply_backends io c (record p { server = reload io.unicode (handlers_part c) p.server }))
