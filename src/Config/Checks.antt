-- ===== src/Config/Checks.antt =====
-- internal/config/config.go, lines 164 to 401: `Validate` and `Load`. Reading the file is TOML, a
-- library; `url.Parse` and `net.ParseIP` are parameters.
use nostrhost_nsite.Prelude.{
  ℕ, ◌/◌, Bool, true, false, not, ◌&&◌, ◌||◌, List, [], ◌∷◌, ◌++◌, Option, none, some, ◌==◌, leb,
  if◌then◌else◌, length, drop, all, map, Bytes, codes, beq, has_prefix, has_suffix, trim_suffix,
  split_on, member, ascii_lower,
}
use nostrhost_nsite.Int64.{leb64, ltb64}
use nostrhost_nsite.Netaddr.{
  split_host_port, byte_at, is_loopback, is_private, is_link_local_unicast, is_link_local_multicast,
  is_multicast, is_unspecified,
}
use nostrhost_nsite.Server.Hosts.{Unicode, ConfigSite, CustomDomain, to_lower}
use nostrhost_nsite.Config.Settings.{Npk, BlossomLocal, Settings, max_allowed_blob_bytes, defaults}

-- What `url.Parse` gives: the scheme, `u.Host` and `u.Hostname()`.
pub record Url : Type 0 where
  pub scheme : Bytes
  pub host : Bytes
  pub hostname : Bytes

pub record Net : Type 0 where
  pub parse_url : Bytes → Option Url
  pub parse_ip : Bytes → Option Bytes
  pub unicode : Unicode

pub data ConfigError : Type 0 where
  no_domain bad_domain bad_mode bad_public_listen bad_internal_listen no_relays : ConfigError
  bad_relay bad_blossom_server : Bytes → ConfigError
  bad_local_listen not_loopback no_data_dir local_blob_too_large : ConfigError
  bad_allowed_pubkey bad_site_pubkey : Bytes → ConfigError
  no_npk_cache bad_release_ttl catalogue_not_json catalogue_not_absolute : ConfigError
  blob_too_large blob_not_positive quota_not_positive paths_not_positive no_cache_path : ConfigError
  no_fqdn : ConfigError
  bad_fqdn overlaps_domain parent_of_domain duplicate_fqdn bad_custom_pubkey : Bytes → ConfigError

-- An early return.
abbrev pub refuse : Bool → ConfigError → Option ConfigError → Option ConfigError
refuse bad e rest = if bad then some e else rest

abbrev pub then_check : Option ConfigError → Option ConfigError → Option ConfigError
then_check none rest = rest
then_check (some e) rest = some e

-- The letters beyond ASCII that fold to one of a to z: U+017F and U+212A.
unfoldable pub fold_runes : Bytes → Bytes
fold_runes [] = []
fold_runes (c ∷ s) =
    let rest = fold_runes s in
    if c == 197 && has_prefix s (191 ∷ [])
    then b's' ∷ drop 1 rest
    else if c == 226 && has_prefix s (132 ∷ 170 ∷ [])
    then b'k' ∷ drop 2 rest
    else ascii_lower c ∷ rest

abbrev is_alnum : ℕ → Bool
is_alnum c = (leb b'0' c && leb c b'9') || (leb b'a' c && leb c b'z')

abbrev first_is_alnum : Bytes → Bool
first_is_alnum [] = false
first_is_alnum (c ∷ s) = is_alnum c

-- `[a-z0-9]([a-z0-9-]{0,61}[a-z0-9])?`
abbrev is_label : Bytes → Bool
is_label s =
    leb (length s) 63
    && (first_is_alnum s
        && (not (has_suffix s (codes "-")) && all (λ c. is_alnum c || c == b'-') s))

abbrev are_labels : List Bytes → Bool
are_labels [] = false
are_labels (first ∷ rest) = is_label (fold_runes first) && all is_label rest

-- `hostnameRe.MatchString`
unfoldable pub is_hostname : Bytes → Bool
is_hostname s = are_labels (split_on b'.' s)

abbrev has_port : Option (Bytes × Bytes) → Bool
has_port none = false
has_port (some hp) = true

unfoldable pub valid_listen : Bytes → Bool
valid_listen s = not (beq s []) && has_port (split_host_port s)

abbrev url_in : List Bytes → Option Url → Bool
url_in schemes none = false
url_in schemes (some u) = member u.scheme schemes && not (beq u.host [])

-- `isLoopbackHost` of an address that parses, or does not
abbrev loopback_ip : Option Bytes → Bool
loopback_ip none = false
loopback_ip (some ip) = is_loopback ip

abbrev private_ip : Option Bytes → Bool
private_ip none = false
private_ip (some ip) =
    is_loopback ip
    || is_private ip
    || is_link_local_unicast ip
    || is_link_local_multicast ip
    || is_unspecified ip
    || is_multicast ip
    || (length ip == 16 && byte_at 0 ip / 2 == 126)

-- The host of `SplitHostPort`.
abbrev host_of : Option (Bytes × Bytes) → Bytes
host_of none = []
host_of (some (host, port)) = host

abbrev hostname_of : Option Url → Bytes
hostname_of none = []
hostname_of (some u) = u.hostname

-- The error of the first element that fails a test.
abbrev first_bad : (Bytes → Bool) → (Bytes → ConfigError) → List Bytes → Option ConfigError
first_bad ok error [] = none
first_bad ok error (x ∷ xs) =
    let rest = first_bad ok error xs in if ok x then rest else some (error x)

module _ (net : Net) where
  -- `validateURL` with `requireHost` gives no error.
  unfoldable pub valid_url : Bytes → List Bytes → Bool
  valid_url raw schemes = url_in schemes (net.parse_url raw)

  unfoldable pub is_loopback_host : Bytes → Bool
  is_loopback_host host =
      if beq host []
      then false
      else if beq (fold_runes host) (codes "localhost")
          || has_suffix (to_lower net.unicode host) (codes ".localhost")
      then true
      else loopback_ip (net.parse_ip host)

  unfoldable pub forbidden_host : Bytes → Bool
  forbidden_host host =
      let lower = to_lower net.unicode host in
      if beq host []
      then true
      else if beq lower (codes "localhost") || has_suffix lower (codes ".localhost")
      then true
      else private_ip (net.parse_ip host)

  -- `validateRelayURL` gives no error.
  unfoldable pub valid_relay : Bool → Bytes → Bool
  valid_relay allow_loopback raw =
      valid_url raw (codes "ws" ∷ codes "wss" ∷ [])
      && (allow_loopback || not (forbidden_host (hostname_of (net.parse_url raw))))

  -- `validateBlossomURL` gives no error.
  unfoldable pub valid_blossom : Bool → Bytes → Bool
  valid_blossom allow_http raw =
      valid_url raw (if allow_http then codes "https" ∷ codes "http" ∷ [] else codes "https" ∷ [])

  abbrev pub check_names : Settings → Option ConfigError
  check_names c = refuse (beq c.domain []) no_domain (
      refuse (not (is_hostname c.domain)) bad_domain (
        refuse (not (beq c.mode (codes "hosted") || beq c.mode (codes "open"))) bad_mode (
          refuse (not (valid_listen c.public_listen)) bad_public_listen
            (refuse (not (valid_listen c.internal_listen)) bad_internal_listen none))))

  abbrev pub check_relays : Bool → Settings → Option ConfigError
  check_relays allow_loopback c =
      let all = c.relays.lookup ++ c.relays.extra in
      refuse (length all == 0) no_relays (
        then_check (first_bad (valid_relay allow_loopback) bad_relay all) (
          first_bad (valid_blossom c.blossom.allow_http) bad_blossom_server
            c.blossom.fallback_servers))

  abbrev pub check_local : BlossomLocal → Option ConfigError
  check_local l =
      if not l.enabled
      then none
      else refuse (not (valid_listen l.listen)) bad_local_listen (
          refuse (not (is_loopback_host (host_of (split_host_port l.listen)))) not_loopback (
            refuse (beq l.data_dir []) no_data_dir (
              refuse (ltb64 max_allowed_blob_bytes l.max_blob_bytes) local_blob_too_large
                (first_bad (λ k. length k == 64) bad_allowed_pubkey l.allow_pubkeys))))

  abbrev pub check_npk : Npk → Option ConfigError
  check_npk n =
      then_check
        (if not n.enabled
          then none
          else refuse (beq n.cache_path []) no_npk_cache
              (refuse (leb64 n.release_ttl 0) bad_release_ttl none))
        (if beq n.catalogue_path []
          then none
          else refuse (not (has_suffix n.catalogue_path (codes ".json"))) catalogue_not_json
              (refuse (not (has_prefix n.catalogue_path (codes "/"))) catalogue_not_absolute none))

  abbrev pub check_limits : Settings → Option ConfigError
  check_limits c = refuse (ltb64 max_allowed_blob_bytes c.limits.max_blob_bytes) blob_too_large (
      refuse (leb64 c.limits.max_blob_bytes 0) blob_not_positive (
        refuse (leb64 c.limits.cache_quota_bytes 0) quota_not_positive (
          refuse (leb64 c.limits.max_paths_per_manifest 0) paths_not_positive (
            refuse (beq c.cache_path []) no_cache_path (
              first_bad (λ k. length k == 64) bad_site_pubkey
                (map (λ (site : ConfigSite). site.pubkey) c.sites))))))

  -- `strings.ToLower(strings.TrimSuffix(cd.FQDN, "."))`
  abbrev pub custom_name : CustomDomain → Bytes
  custom_name cd = to_lower net.unicode (trim_suffix cd.fqdn (codes "."))

  abbrev pub check_custom :
      Bytes → List Bytes → CustomDomain → Option ConfigError → Option ConfigError
  check_custom domain seen cd rest =
      let fqdn = custom_name cd in
      refuse (beq cd.fqdn []) no_fqdn (
        refuse (not (is_hostname fqdn)) (bad_fqdn cd.fqdn) (
          refuse (beq fqdn domain || has_suffix fqdn (codes "." ++ domain))
            (overlaps_domain cd.fqdn)
            (refuse (has_suffix domain (codes "." ++ fqdn)) (parent_of_domain cd.fqdn) (
              refuse (member fqdn seen) (duplicate_fqdn cd.fqdn)
                (refuse (not (length cd.pubkey == 64)) (bad_custom_pubkey cd.fqdn) rest)))))

  -- The loop over the custom domains.
  unfoldable pub check_customs : Bytes → List CustomDomain → List Bytes → Option ConfigError
  check_customs domain [] seen = none
  check_customs domain (cd ∷ cds) seen =
      check_custom domain seen cd (check_customs domain cds (custom_name cd ∷ seen))

  -- `Validate`; `none` is no error. `allow_loopback` is set by the environment, for tests.
  unfoldable pub validate : Bool → Settings → Option ConfigError
  validate allow_loopback c = then_check (check_names c) (
      then_check (check_relays allow_loopback c) (
        then_check (check_local c.blossom.local) (
          then_check (check_npk c.npk)
            (then_check (check_limits c) (check_customs c.domain c.custom_domains [])))))

abbrev is_valid : Option ConfigError → Bool
is_valid none = true
is_valid (some e) = false

-- `Load`, where `unmarshal` is what the TOML library makes of a file over the defaults.
unfoldable pub load :
    Net → Bool → (Bytes → Settings → Option Settings) → Option Bytes → Option Settings
load net allow_loopback unmarshal none = none
load net allow_loopback unmarshal (some raw) = elim (unmarshal raw defaults) [
  | none ↦ none
  | some c ↦ if is_valid (validate net allow_loopback c) then some c else none
]
