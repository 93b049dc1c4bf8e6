-- ===== src/Blossom/Dial.antt =====
-- internal/blossom/blob.go, lines 24 to 145: the options of the fetcher, the test of the address that
-- is dialled and the test of a redirect. `net.ParseIP` is a parameter: the 16 bytes of an address.
pub mod Blocks
use nostrhost_nsite.Prelude.{
  ℕ, ◌/◌, Bool, true, false, not, ◌&&◌, ◌||◌, List, [], ◌∷◌, Option, none, some, ◌==◌,
  if◌then◌else◌, length, Bytes, member,
}
use nostrhost_nsite.Int64.{leb64}
use nostrhost_nsite.Netaddr.{
  split_host_port, byte_at, is_loopback, is_private, is_link_local_unicast, is_link_local_multicast,
  is_multicast, is_unspecified,
}
use nostrhost_nsite.Blossom.Fetch.{Fetcher, validate_scheme}

-- `Options`; the numbers are int64, the timeout in nanoseconds.
pub record Options : Type 0 where
  pub allow_http : Bool
  pub allow_loopback : Bool
  pub allow_loopback_addrs : List Bytes
  pub max_bytes : ℕ
  pub timeout : ℕ
  pub max_redirects : ℕ

abbrev or_default : ℕ → ℕ → ℕ
or_default value default = if leb64 value 0 then default else value

-- The options as `New` completes them.
unfoldable pub with_defaults : Options → Options
with_defaults opts = record opts {
  max_bytes = or_default opts.max_bytes 33554432;
  timeout = or_default opts.timeout 20000000000;
  max_redirects = or_default opts.max_redirects 3;
}

-- The part of `New` that `Fetch` reads.
unfoldable pub new_fetcher : Options → Fetcher
new_fetcher opts = record {
  allow_http = opts.allow_http;
  max_bytes = (with_defaults opts).max_bytes;
}

-- `CheckRedirect` of the client that `New` makes, after `via` requests; true for no error.
unfoldable pub check_redirect : Options → Bytes → ℕ → Bool
check_redirect opts scheme via =
    if leb64 (with_defaults opts).max_redirects via
    then false
    else validate_scheme scheme opts.allow_http

unfoldable pub forbidden_ip : Bytes → Bool
forbidden_ip ip =
    is_loopback ip
    || is_private ip
    || is_link_local_unicast ip
    || is_link_local_multicast ip
    || is_multicast ip
    || is_unspecified ip
    || (length ip == 16 && byte_at 0 ip / 2 == 126)

abbrev pub check_ip : Bytes → Bool → List Bytes → Option Bytes → Bool
check_ip addr allow_loopback allow_addrs none = true
check_ip addr allow_loopback allow_addrs (some ip) =
    if allow_loopback && is_loopback ip
    then true
    else if member addr allow_addrs && is_loopback ip
    then true
    else not (forbidden_ip ip)

abbrev pub check_host :
    (Bytes → Option Bytes) → Bytes → Bool → List Bytes → Option (Bytes × Bytes) → Bool
check_host parse_ip addr allow_loopback allow_addrs none = false
check_host parse_ip addr allow_loopback allow_addrs (some (host, port)) =
    check_ip addr allow_loopback allow_addrs (parse_ip host)

-- `checkDialAddr` gives no error.
unfoldable pub check_dial_addr : (Bytes → Option Bytes) → Bytes → Bool → List Bytes → Bool
check_dial_addr parse_ip addr allow_loopback allow_addrs =
    check_host parse_ip addr allow_loopback allow_addrs (split_host_port addr)
