-- ===== src/Config/Settings.antt =====
-- internal/config/config.go, lines 21 to 162: the settings and their defaults. An int is its 64 bits.
use nostrhost_nsite.Prelude.{ℕ, Bool, false, List, [], ◌∷◌, Bytes, codes}
use nostrhost_nsite.Server.Hosts.{ConfigSite, CustomDomain}
use nostrhost_nsite.Server.Hosts as Hosts

pub record Npk : Type 0 where
  pub enabled : Bool
  pub cache_path : Bytes
  pub release_ttl : ℕ
  pub catalogue_path : Bytes

pub record Relays : Type 0 where
  pub lookup : List Bytes
  pub extra : List Bytes
  pub manifest_ttl_seconds : ℕ
  pub negative_ttl_seconds : ℕ

pub record BlossomLocal : Type 0 where
  pub enabled : Bool
  pub listen : Bytes
  pub data_dir : Bytes
  pub quota_bytes : ℕ
  pub max_blob_bytes : ℕ
  pub retention_days : ℕ
  pub allow_pubkeys : List Bytes

pub record Blossom : Type 0 where
  pub fallback_servers : List Bytes
  pub allow_http : Bool
  pub local : BlossomLocal

pub record Limits : Type 0 where
  pub max_blob_bytes : ℕ
  pub fetch_timeout_seconds : ℕ
  pub fetch_concurrency : ℕ
  pub max_redirects : ℕ
  pub cache_quota_bytes : ℕ
  pub max_paths_per_manifest : ℕ
  pub requests_per_second : ℕ
  pub requests_burst : ℕ

-- `Config`
pub record Settings : Type 0 where
  pub domain : Bytes
  pub mode : Bytes
  pub public_listen : Bytes
  pub internal_listen : Bytes
  pub cache_path : Bytes
  pub relays : Relays
  pub blossom : Blossom
  pub npk : Npk
  pub limits : Limits
  pub sites : List ConfigSite
  pub custom_domains : List CustomDomain

-- The part that the handlers read.
abbrev pub handlers_part : Settings → Hosts.Config
handlers_part c = record {
  domain = c.domain;
  mode = c.mode;
  sites = c.sites;
  custom_domains = c.custom_domains;
}

abbrev pub max_allowed_blob_bytes : ℕ
max_allowed_blob_bytes = 134217728

unfoldable pub defaults : Settings
defaults = record {
  domain = codes "sites.example.org";
  mode = codes "hosted";
  public_listen = codes "127.0.0.1:8195";
  internal_listen = codes "127.0.0.1:8196";
  cache_path = codes "/var/cache/nostrhost-nsite";
  relays = record {
    lookup = codes "wss://purplepag.es" ∷ codes "wss://user.kindpag.es" ∷ [];
    extra = [];
    manifest_ttl_seconds = 300;
    negative_ttl_seconds = 60;
  };
  blossom = record {
    fallback_servers = [];
    allow_http = false;
    local = record {
      enabled = false;
      listen = codes "127.0.0.1:8197";
      data_dir = codes "/var/lib/nostrhost-nsite/blossom";
      quota_bytes = 1073741824;
      max_blob_bytes = 33554432;
      retention_days = 30;
      allow_pubkeys = [];
    };
  };
  npk = record {
    enabled = false;
    cache_path = codes "/var/cache/nostrhost-nsite/npk";
    release_ttl = 300;
    catalogue_path = [];
  };
  limits = record {
    max_blob_bytes = 33554432;
    fetch_timeout_seconds = 20;
    fetch_concurrency = 8;
    max_redirects = 3;
    cache_quota_bytes = 2147483648;
    max_paths_per_manifest = 5000;
    requests_per_second = 50;
    requests_burst = 200;
  };
  sites = [];
  custom_domains = [];
}
