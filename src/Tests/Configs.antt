-- ===== src/Tests/Configs.antt =====
-- Tests of the configuration of internal/config/config.go.
use nostrhost_nsite.Prelude.{
  ◌≡◌, refl, true, false, [], ◌∷◌, none, some, codes, beq, has_prefix, has_suffix, trim_suffix,
  contains, after_last, before_last, member, split_on,
}
use nostrhost_nsite.Assoc.{lookup, insert}
use nostrhost_nsite.Int64.{leb64, ltb64}
use nostrhost_nsite.Netaddr.{split_host_port, index_byte}
use nostrhost_nsite.Nip5a.Label.{root}
use nostrhost_nsite.Server.Hosts.{apply, add_custom, to_lower}
use nostrhost_nsite.Config.Settings.{Settings, defaults, handlers_part}
use nostrhost_nsite.Config.Checks.{
  Net, validate, is_hostname, fold_runes, valid_listen, valid_url, valid_relay, valid_blossom,
  forbidden_host, check_customs, overlaps_domain,
}
use nostrhost_nsite.Config.Customs.{IsCustom, validate-IsCustom}
use nostrhost_nsite.Tests.Fixtures.{two_sha}
use nostrhost_nsite.Tests.Servers.{plain_unicode}

-- every URL is a secure web socket of one host, and no host is an address
abbrev pub plain_net : Net
plain_net = record {
  parse_url =
      λ raw. some (record { scheme = codes "wss"; host = codes "r.net"; hostname = codes "r.net" });
  parse_ip = λ host. none;
  unicode = plain_unicode;
}

abbrev pub custom_settings : Settings
custom_settings = record defaults {
  sites = record { pubkey = two_sha; kind = 15128; d = [] } ∷ [];
  custom_domains = record { fqdn = codes "Blog.net."; pubkey = two_sha; d = [] } ∷ [];
}

abbrev overlapping : Settings
overlapping = record defaults {
  custom_domains = record { fqdn = codes "a.sites.example.org"; pubkey = two_sha; d = [] } ∷ [];
}

pub custom_valid : validate plain_net false custom_settings ≡ none
unfolding validate defaults is_hostname fold_runes valid_listen valid_url valid_relay valid_blossom
    forbidden_host check_customs split_host_port index_byte leb64 ltb64 beq has_prefix has_suffix
    trim_suffix contains after_last before_last member split_on to_lower
custom_valid = refl

overlap_refused :
    validate plain_net false overlapping ≡ some (overlaps_domain (codes "a.sites.example.org"))
unfolding validate defaults is_hostname fold_runes valid_listen valid_url valid_relay valid_blossom
    forbidden_host check_customs split_host_port index_byte leb64 ltb64 beq has_prefix has_suffix
    trim_suffix contains after_last before_last member split_on to_lower
overlap_refused = refl

-- The long s folds to an s in the first label, and in no other.
long_s : is_hostname (197 ∷ 191 ∷ codes "ite.Net") ≡ false
unfolding is_hostname fold_runes has_prefix has_suffix split_on beq
long_s = refl

long_s_first : is_hostname (197 ∷ 191 ∷ codes "Ite.net") ≡ true
unfolding is_hostname fold_runes has_prefix has_suffix split_on beq
long_s_first = refl

blog_bound :
    lookup (codes "blog.net") (apply plain_unicode (handlers_part custom_settings)).custom
    ≡ some (record { site_type = root; hex_id = two_sha; d = [] })
unfolding lookup apply add_custom insert to_lower trim_suffix has_suffix beq defaults
blog_bound = refl

validate-IsCustom_example :
    IsCustom custom_settings.domain
      (codes "blog.net")
      (record { site_type = root; hex_id = two_sha; d = [] })
validate-IsCustom_example =
    validate-IsCustom plain_net false custom_settings (codes "blog.net")
      (record { site_type = root; hex_id = two_sha; d = [] }) custom_valid blog_bound
