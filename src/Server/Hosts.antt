-- ===== src/Server/Hosts.antt =====
-- internal/server/server.go, lines 42 to 49, 80 to 123 and 157 to 224: the configuration that the
-- server works from, and which site a host name asks for. A map of keys is their list.
use nostrhost_nsite.Prelude.{
  ℕ, ascii_lower, ◌-◌, Bool, true, false, not, ◌&&◌, ◌||◌, List, [], ◌∷◌, ◌++◌, Option, none, some,
  ◌==◌, leb, ltb, if◌then◌else◌, length, take, all, map, Bytes, codes, beq, has_suffix, trim_suffix,
  member, before_last,
}
use nostrhost_nsite.Assoc.{lookup, insert}
use nostrhost_nsite.Nip5a.Base36.{label_max_len}
use nostrhost_nsite.Nip5a.Label.{SiteType, root, named, snapshot, Nip19, Site, decode_label}

-- `strings.ToLower` and `strings.TrimSpace` of a string that is not ASCII, by the tables of Unicode.
pub record Unicode : Type 0 where
  pub lower : Bytes → Bytes
  pub trim : Bytes → Bytes

pub record ConfigSite : Type 0 where
  pub pubkey : Bytes
  pub kind : ℕ
  pub d : Bytes

pub record CustomDomain : Type 0 where
  pub fqdn : Bytes
  pub pubkey : Bytes
  pub d : Bytes

-- The part of `config.Config` that the handlers read.
pub record Config : Type 0 where
  pub domain : Bytes
  pub mode : Bytes
  pub sites : List ConfigSite
  pub custom_domains : List CustomDomain

pub record Server : Type 0 where
  pub cfg : Config
  pub allow : List Bytes
  pub custom : List (Bytes × Site)

abbrev is_ascii : ℕ → Bool
is_ascii c = ltb c 128

abbrev is_space : ℕ → Bool
is_space c = c == 32 || (leb 9 c && leb c 13)

unfoldable pub trim_left : Bytes → Bytes
trim_left [] = []
trim_left (c ∷ s) = let rest = trim_left s in if is_space c then rest else c ∷ s

-- Drops the spaces at the end.
unfoldable pub trim_right : Bytes → Bytes
trim_right [] = []
trim_right (c ∷ s) = let rest = trim_right s in if all is_space (c ∷ s) then [] else c ∷ rest

unfoldable pub to_lower : Unicode → Bytes → Bytes
to_lower unicode s = if all is_ascii s then map ascii_lower s else unicode.lower s

unfoldable pub trim_space : Unicode → Bytes → Bytes
trim_space unicode s = if all is_ascii s then trim_right (trim_left s) else unicode.trim s

-- Without a colon, all of `host`, as `before_last` gives it.
unfoldable pub strip_port : Bytes → Bytes
strip_port host = before_last b':' host

abbrev pub custom_site : CustomDomain → Site
custom_site cd = record {
  site_type = if beq cd.d [] then root else named;
  hex_id = cd.pubkey;
  d = cd.d;
}

module _ (unicode : Unicode) where
  -- The loop over `cfg.CustomDomains`: a later entry replaces an earlier one of the same name.
  unfoldable pub add_custom : List CustomDomain → List (Bytes × Site) → List (Bytes × Site)
  add_custom [] custom = custom
  add_custom (cd ∷ cds) custom =
      add_custom cds
        (insert (to_lower unicode (trim_suffix cd.fqdn (codes "."))) (custom_site cd) custom)

  -- `apply`, which `New` and `Reload` call
  unfoldable pub apply : Config → Server
  apply cfg = record {
    cfg = cfg;
    allow = map (λ (site : ConfigSite). site.pubkey) cfg.sites;
    custom = add_custom cfg.custom_domains [];
  }

  -- `Reload` replaces all that `apply` sets.
  unfoldable pub reload : Config → Server → Server
  reload cfg s = apply cfg

  -- The host name without port, spaces and capitals.
  unfoldable pub host_name : Bytes → Bytes
  host_name host = strip_port (to_lower unicode (trim_space unicode host))

  unfoldable pub is_apex : Server → Bytes → Bool
  is_apex s host = beq (host_name host) s.cfg.domain

  abbrev pub labelled : Bytes → Option Site → Option (Bytes × Site)
  labelled label none = none
  labelled label (some site) = some (label, site)

  -- The label and the site; `none` for a host that is no site.
  unfoldable pub parse_host : Nip19 → Server → Bytes → Option (Bytes × Site)
  parse_host nip19 s raw_host =
      let host = host_name raw_host in
      let suffix = codes "." ++ s.cfg.domain in
      let label = take (length host - length suffix) host in
      if beq host s.cfg.domain
      then none
      else if not (has_suffix host suffix)
      then labelled host (lookup host s.custom)
      else if length label == 0 || ltb label_max_len (length label)
      then none
      else labelled label (decode_label nip19 label)

unfoldable pub allowlisted : Server → SiteType → Bytes → Bool
allowlisted s site_type pubkey = if beq s.cfg.mode (codes "open") then true else elim site_type [
  | root ↦ member pubkey s.allow
  | named ↦ member pubkey s.allow
  | snapshot ↦ false
]
