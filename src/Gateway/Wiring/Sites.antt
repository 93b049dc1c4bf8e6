-- ===== src/Gateway/Wiring/Sites.antt =====
-- The sites and the custom domains that `apply` of internal/server/server.go makes of a configuration.
use nostrhost_nsite.Prelude.{
  ◌≡◌, refl, ◌∙◌, List, [], ◌∷◌, Option, none, some, arith, if◌then◌else◌, any, map, Bytes, codes,
  beq, member, trim_suffix,
}
use nostrhost_nsite.Assoc.{lookup, insert, lookup-insert}
use nostrhost_nsite.Nip5a.Label.{Site}
use nostrhost_nsite.Server.Hosts.{
  Unicode, ConfigSite, CustomDomain, custom_site, to_lower, add_custom, Config, apply,
}

abbrev or_else : Option Site → Option Site → Option Site
or_else none o = o
or_else (some s) o = some s

-- The site of the last entry of that name.
abbrev pub last_named : Unicode → Bytes → List CustomDomain → Option Site
last_named unicode name [] = none
last_named unicode name (cd ∷ cds) = or_else (last_named unicode name cds) (
    if beq (to_lower unicode (trim_suffix cd.fqdn (codes "."))) name
    then some (custom_site cd)
    else none)

-- The server knows the keys of the sites, and the custom domains.
pub record Serves (unicode : Unicode) (cfg : Config) (allow : List Bytes)
    (custom : List (Bytes × Site)) : Type 0 where
  pub keys : (k : Bytes) → member k allow ≡ any (λ (site : ConfigSite). beq site.pubkey k) cfg.sites
  pub names : (name : Bytes) → lookup name custom ≡ last_named unicode name cfg.custom_domains

member-pubkeys :
    (k : Bytes) (sites : List ConfigSite)
    → member k (map (λ (site : ConfigSite). site.pubkey) sites)
      ≡ any (λ (site : ConfigSite). beq site.pubkey k) sites
unfolding member
member-pubkeys k [] = refl
member-pubkeys k (site ∷ sites) = rw (member-pubkeys k sites) refl

lookup-add_custom :
    (unicode : Unicode) (name : Bytes) (cds : List CustomDomain) (custom : List (Bytes × Site))
    → lookup name (add_custom unicode cds custom)
      ≡ or_else (last_named unicode name cds) (lookup name custom)
unfolding add_custom
lookup-add_custom unicode name [] custom = refl
lookup-add_custom unicode name (cd ∷ cds) custom =
    let key = to_lower unicode (trim_suffix cd.fqdn (codes ".")) in
    ground (
      arith,
      lookup-add_custom unicode name cds (insert key (custom_site cd) custom),
      lookup-insert key name (custom_site cd) custom,
    )

or_else-none : (o : Option Site) → or_else o none ≡ o
or_else-none none = refl
or_else-none (some s) = refl

pub apply-Serves :
    (unicode : Unicode) (cfg : Config)
    → Serves unicode cfg (apply unicode cfg).allow (apply unicode cfg).custom
unfolding apply lookup
apply-Serves unicode cfg = record {
  keys = λ k. member-pubkeys k cfg.sites;
  names = λ name. lookup-add_custom unicode name cfg.custom_domains [] ∙ or_else-none _;
}
