-- ===== src/Tests/Reloads.antt =====
-- Tests of the start and the reloads of cmd/nostrhost-nsite/main.go.
use nostrhost_nsite.Prelude.{◌≡◌, refl, true, false, [], ◌∷◌, none, some, codes, beq}
use nostrhost_nsite.Int64.{leb64}
use nostrhost_nsite.Blossomsrv.Store.{new_server, scan, sweep}
use nostrhost_nsite.Server.Hosts.{apply, reload, add_custom}
use nostrhost_nsite.Config.Settings.{Settings, BlossomLocal, defaults, handlers_part}
use nostrhost_nsite.Gateway.Wiring.{
  Process, goes_on, Io, resolver_of, fetch_options, apply_backends, start_blossom, reload_blossom,
  start, hup,
}
use nostrhost_nsite.Gateway.Wiring.Reloads.{started, reloaded, IsWired, Reaches-IsWired}
use nostrhost_nsite.Tests.Fixtures.{two_sha}
use nostrhost_nsite.Tests.Servers.{plain_unicode}

abbrev pub willing : Io
willing = record {
  unicode = plain_unicode;
  allow_loopback = false;
  catalogue = λ path. none;
  caches_ok = true;
  bundles_ok = true;
  listen_ok = true;
  dir_ok = true;
  info_ok = λ k. true;
  files = [];
  sweep_io = record { now = 5; read_dir_ok = true; info_ok = λ k. true; remove_ok = λ k. true };
}

abbrev local_of : BlossomLocal
local_of = record {
  enabled = true;
  listen = codes "127.0.0.1:8197";
  data_dir = codes "/b";
  quota_bytes = 10;
  max_blob_bytes = 4;
  retention_days = 0;
  allow_pubkeys = [];
}

abbrev with_local_server : Settings
with_local_server = record defaults {
  blossom = record { fallback_servers = []; allow_http = false; local = local_of };
}

-- The same with a site, at another address.
abbrev moved : Settings
moved = record defaults {
  sites = record { pubkey = two_sha; kind = 15128; d = [] } ∷ [];
  blossom = record {
    fallback_servers = [];
    allow_http = false;
    local = record local_of { listen = codes "127.0.0.1:9000" };
  };
}

abbrev first : Process
first = record {
  server = record { cfg = handlers_part with_local_server; allow = []; custom = [] };
  resolver = resolver_of willing with_local_server;
  options = fetch_options willing with_local_server;
  manifest_ttl = 300000000000;
  negative_ttl = 60000000000;
  cache_quota = with_local_server.limits.cache_quota_bytes;
  has_npk = false;
  local = some (record {
    listen = codes "127.0.0.1:8197";
    store = record { quota = 10; max_blob = 4; retain = 0; allow = []; used = 0; files = [] };
  });
}

abbrev second : Process
second = record {
  server = record { cfg = handlers_part moved; allow = two_sha ∷ []; custom = [] };
  resolver = resolver_of willing moved;
  options = fetch_options willing moved;
  manifest_ttl = 300000000000;
  negative_ttl = 60000000000;
  cache_quota = moved.limits.cache_quota_bytes;
  has_npk = false;
  local = first.local;
}

first_started : start willing with_local_server ≡ goes_on first
unfolding start apply add_custom apply_backends start_blossom new_server scan sweep leb64 beq
    defaults
first_started = refl

-- The server stays at its first address, and the fetcher may reach the second only.
second_reloaded : hup willing (some moved) first ≡ goes_on second
unfolding hup reload apply add_custom apply_backends reload_blossom beq defaults
second_reloaded = refl

Reaches-IsWired_example : IsWired plain_unicode moved second
Reaches-IsWired_example = Reaches-IsWired plain_unicode moved second (
    reloaded willing with_local_server moved first second refl
      (started willing with_local_server first refl first_started) second_reloaded)
