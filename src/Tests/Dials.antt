-- ===== src/Tests/Dials.antt =====
-- Tests of the dial boundary of internal/blossom/blob.go.
use nostrhost_nsite.Prelude.{
  ◌≡◌, ◌↔◌, refl, Bool, true, false, [], ◌∷◌, ◌++◌, Option, none, some, arith, if◌then◌else◌, Bytes,
  codes, beq, contains, after_last, before_last, some_inj, none_ne_some,
}
use mathlib.Core.Path.{subst}
use nostrhost_nsite.Netaddr.{split_host_port, index_byte, v4_prefix}
use nostrhost_nsite.Blossom.Dial.{check_dial_addr, with_defaults, new_fetcher}
use nostrhost_nsite.Blossom.Dial.Blocks.{IsIp, IsDialled, check_dial_addr_iff}
use nostrhost_nsite.Int64.{leb64}

-- a `net.ParseIP` that knows one address
abbrev ten_ip : Bytes
ten_ip = v4_prefix ++ 10 ∷ 0 ∷ 0 ∷ 1 ∷ []

abbrev parse_ten : Bytes → Option Bytes
parse_ten host = if beq host (codes "10.0.0.1") then some ten_ip else none

bracketed_host : split_host_port (codes "[::1]:80") ≡ some (codes "::1", codes "80")
unfolding split_host_port index_byte contains before_last after_last
bracketed_host = refl

many_colons : split_host_port (codes "::1:80") ≡ none
unfolding split_host_port index_byte contains before_last after_last
many_colons = refl

ten_ip-IsIp : IsIp ten_ip
ten_ip-IsIp = (refl, ground arith)

ips_of : (b : Bool) (ip : Bytes) → (if b then some ten_ip else none) ≡ some ip → IsIp ip
ips_of true ip h = subst IsIp (some_inj h) ten_ip-IsIp
ips_of false ip h = absurd (none_ne_some h)

check_dial_addr_iff_example : (check_dial_addr parse_ten (codes "10.0.0.1:443") false [] ≡ true) ↔ (
    (host : Bytes) × (port : Bytes) × (split_host_port (codes "10.0.0.1:443") ≡ some (host, port))
    × IsDialled (codes "10.0.0.1:443") false [] (parse_ten host))
check_dial_addr_iff_example =
    check_dial_addr_iff parse_ten (codes "10.0.0.1:443") false []
      (λ host ip. ips_of (beq host (codes "10.0.0.1")) ip)

no_options :
    new_fetcher (record {
      allow_http = false;
      allow_loopback = false;
      allow_loopback_addrs = [];
      max_bytes = 0;
      timeout = 0;
      max_redirects = 0;
    })
    ≡ record { allow_http = false; max_bytes = 33554432 }
unfolding new_fetcher with_defaults leb64
no_options = refl
