-- ===== src/Blossom/Dial/Blocks.antt =====
-- The addresses that internal/blossom/blob.go refuses to dial, as blocks in the notation of CIDR.
use mathlib.Core.Path.{subst}
use nostrhost_nsite.Prelude.{
  ℕ, ◌-◌, ◌/◌, ◌^◌, ◌≤◌, ◌≡◌, ◌↔◌, ◌⊎◌, refl, sym, ap, ◌∙◌, inl, inr, Bool, true, false, not, ◌&&◌,
  List, [], ◌∷◌, ◌++◌, Option, none, some, ◌==◌, arith, if◌then◌else◌, length, take, drop, any, All,
  All-append_right, length-drop, take-append-drop, Bytes, beq, beq_iff, member, Bool-cases,
  Option-cases, none_ne_some, some_inj,
}
use nostrhost_nsite.Netaddr.{
  split_host_port, v4_prefix, is_v4, byte_at, v6_zero, v6_one, v4_zero, is_loopback, is_private,
  is_link_local_unicast, is_link_local_multicast, is_multicast, is_unspecified,
}
use nostrhost_nsite.Blossom.Dial.{forbidden_ip, check_ip, check_dial_addr}

-- The bytes of a block that count whole, and how many bits of the byte after them count.
pub data Block : Type 0 where
  v4_block v6_block : Bytes → ℕ → ℕ → Block

in_prefix : Bytes → ℕ → ℕ → Bytes → Bool
in_prefix [] bits last ip = byte_at 0 ip / 2 ^ (8 - bits) == last / 2 ^ (8 - bits)
in_prefix (w ∷ whole) bits last [] = false
in_prefix (w ∷ whole) bits last (x ∷ ip) = x == w && in_prefix whole bits last ip

unfoldable pub is_in : Bytes → Block → Bool
unfolding in_prefix
is_in ip (v4_block whole bits last) = is_v4 ip && in_prefix whole bits last (drop 12 ip)
is_in ip (v6_block whole bits last) = in_prefix whole bits last ip

-- 127.0.0.0/8, 10.0.0.0/8, 172.16.0.0/12, 192.168.0.0/16, 169.254.0.0/16, 224.0.0.0/4, 0.0.0.0/32,
-- ::1/128, ::/128, fc00::/7, fe80::/10, ff00::/8
abbrev pub reserved : List Block
reserved =
    v4_block (127 ∷ []) 0 0
    ∷ v4_block (10 ∷ []) 0 0
    ∷ v4_block (172 ∷ []) 4 16
    ∷ v4_block (192 ∷ 168 ∷ []) 0 0
    ∷ v4_block (169 ∷ 254 ∷ []) 0 0
    ∷ v4_block [] 4 224
    ∷ v4_block (0 ∷ 0 ∷ 0 ∷ 0 ∷ []) 0 0
    ∷ v6_block v6_one 0 0
    ∷ v6_block v6_zero 0 0
    ∷ v6_block [] 7 252
    ∷ v6_block (254 ∷ []) 2 128
    ∷ v6_block [] 8 255
    ∷ []

forbidden_v4 :
    (a b c d : ℕ)
    → a ≤ 255
    → b ≤ 255
    → c ≤ 255
    → d ≤ 255
    → forbidden_ip (v4_prefix ++ a ∷ b ∷ c ∷ d ∷ [])
      ≡ any (is_in (v4_prefix ++ a ∷ b ∷ c ∷ d ∷ [])) reserved
unfolding forbidden_ip is_loopback is_private is_link_local_unicast is_link_local_multicast
    is_multicast is_unspecified is_in in_prefix beq
forbidden_v4 a b c d ha hb hc hd = ground arith

in_prefix-beq : (w ip : Bytes) → length ip ≡ length w → in_prefix w 0 0 ip ≡ beq ip w
unfolding in_prefix beq
in_prefix-beq [] [] h = ground arith
in_prefix-beq [] (x ∷ ip) h = absurd (ground arith)
in_prefix-beq (w ∷ ws) [] h = refl
in_prefix-beq (w ∷ ws) (x ∷ ip) h = ap (λ b. (x == w) && b) (in_prefix-beq ws ip (ground arith))

v4_zero-is_v4 : is_v4 v4_zero ≡ true
unfolding beq
v4_zero-is_v4 = refl

not_v4_zero : (ip : Bytes) → is_v4 ip ≡ false → beq ip v4_zero ≡ false
not_v4_zero ip n = elim (Bool-cases (beq ip v4_zero)) [
  | inr other ↦ other
  | inl same ↦
      let is_zero : ip ≡ v4_zero = (beq_iff ip v4_zero).0 same in
      absurd (ground (arith, n, ap is_v4 is_zero, v4_zero-is_v4))
]

forbidden_v6 :
    (x y : ℕ) (rest : Bytes)
    → x ≤ 255
    → y ≤ 255
    → length (x ∷ y ∷ rest) ≡ 16
    → is_v4 (x ∷ y ∷ rest) ≡ false
    → forbidden_ip (x ∷ y ∷ rest) ≡ any (is_in (x ∷ y ∷ rest)) reserved
unfolding forbidden_ip is_loopback is_private is_link_local_unicast is_link_local_multicast
    is_multicast is_unspecified is_in
forbidden_v6 x y rest hx hy len n =
    let ip = x ∷ y ∷ rest in
    let one = in_prefix-beq v6_one ip len in
    let nil = in_prefix-beq v6_zero ip len in
    let four = not_v4_zero ip n in rw (n, one, nil, four) (ground arith)

-- 16 bytes, as `net.ParseIP` gives them.
abbrev pub IsIp : Bytes → Type 0
IsIp ip = (length ip ≡ 16) × All (λ x. x ≤ 255) ip

v4_split : (ip : Bytes) → is_v4 ip ≡ true → ip ≡ v4_prefix ++ drop 12 ip
v4_split ip h =
    sym (take-append-drop 12 ip) ∙ ap (λ p. p ++ drop 12 ip) ((beq_iff (take 12 ip) v4_prefix).0 h)

forbidden_rest :
    (rest : Bytes)
    → length rest ≡ 4
    → All (λ x. x ≤ 255) rest
    → forbidden_ip (v4_prefix ++ rest) ≡ any (is_in (v4_prefix ++ rest)) reserved
forbidden_rest (a ∷ b ∷ c ∷ d ∷ []) len (ha, (hb, (hc, (hd, _)))) = forbidden_v4 a b c d ha hb hc hd
forbidden_rest [] len h = absurd (omega arith)
forbidden_rest (a ∷ []) len h = absurd (omega arith)
forbidden_rest (a ∷ b ∷ []) len h = absurd (omega arith)
forbidden_rest (a ∷ b ∷ c ∷ []) len h = absurd (omega arith)
forbidden_rest (a ∷ b ∷ c ∷ d ∷ e ∷ rest) len h = absurd (omega arith)

forbidden_long :
    (ip : Bytes) → IsIp ip → is_v4 ip ≡ false → forbidden_ip ip ≡ any (is_in ip) reserved
forbidden_long [] (len, h) n = absurd (omega arith)
forbidden_long (x ∷ []) (len, h) n = absurd (omega arith)
forbidden_long (x ∷ y ∷ rest) (len, (hx, (hy, _))) n = forbidden_v6 x y rest hx hy len n

-- An address is forbidden exactly when one of the reserved blocks holds it.
pub forbidden_ip-any : (ip : Bytes) → IsIp ip → forbidden_ip ip ≡ any (is_in ip) reserved
forbidden_ip-any ip (len, h) = elim (Bool-cases (is_v4 ip)) [
  | inr n ↦ forbidden_long ip (len, h) n
  | inl y ↦
      let split = v4_split ip y in
      let short : length (drop 12 ip) ≡ 4 = length-drop 12 ip ∙ ap (λ n. n - 12) len in
      let bytes : All (λ x. x ≤ 255) (drop 12 ip) =
        All-append_right (λ x. x ≤ 255) v4_prefix (drop 12 ip)
          (subst (All (λ x. x ≤ 255)) split h) in
      subst (λ p. forbidden_ip p ≡ any (is_in p) reserved) (sym split)
        (forbidden_rest (drop 12 ip) short bytes)
]

-- What may be dialled of an address that is an IP address.
abbrev pub IsAllowed : Bytes → Bool → List Bytes → Bytes → Type 0
IsAllowed addr allow_loopback allow_addrs ip =
    ((is_loopback ip ≡ true) × ((allow_loopback ≡ true) ⊎ (member addr allow_addrs ≡ true)))
    ⊎ (any (is_in ip) reserved ≡ false)

allowed_cases :
    (allow loopback listed forbidden : Bool)
    → ((if allow && loopback then true else if listed && loopback then true else not forbidden)
        ≡ true)
      ↔ (((loopback ≡ true) × ((allow ≡ true) ⊎ (listed ≡ true))) ⊎ (forbidden ≡ false))
allowed_cases allow loopback listed forbidden = ground arith

check_ip_iff :
    (addr : Bytes) (allow_loopback : Bool) (allow_addrs : List Bytes) (ip : Bytes)
    → IsIp ip
    → (check_ip addr allow_loopback allow_addrs (some ip) ≡ true)
      ↔ IsAllowed addr allow_loopback allow_addrs ip
check_ip_iff addr allow_loopback allow_addrs ip v =
    subst
      (λ (f : Bool). (check_ip addr allow_loopback allow_addrs (some ip) ≡ true) ↔ (
        ((is_loopback ip ≡ true) × ((allow_loopback ≡ true) ⊎ (member addr allow_addrs ≡ true)))
        ⊎ (f ≡ false)))
      (forbidden_ip-any ip v)
      (allowed_cases allow_loopback (is_loopback ip) (member addr allow_addrs) (forbidden_ip ip))

-- What may be dialled: no IP address, or one that is allowed.
abbrev pub IsDialled : Bytes → Bool → List Bytes → Option Bytes → Type 0
IsDialled addr allow_loopback allow_addrs none = Unit
IsDialled addr allow_loopback allow_addrs (some ip) = IsAllowed addr allow_loopback allow_addrs ip

check_option_iff :
    (addr : Bytes) (allow_loopback : Bool) (allow_addrs : List Bytes) (o : Option Bytes)
    → ((ip : Bytes) → o ≡ some ip → IsIp ip)
    → (check_ip addr allow_loopback allow_addrs o ≡ true)
      ↔ IsDialled addr allow_loopback allow_addrs o
check_option_iff addr allow_loopback allow_addrs none ips = (λ h. tt, λ h. refl)
check_option_iff addr allow_loopback allow_addrs (some ip) ips =
    check_ip_iff addr allow_loopback allow_addrs ip (ips ip refl)

-- An address is dialled exactly when it is a host with a port, and the host is no IP address, or a
-- loopback address where these are allowed or this very address is listed, or an address that none of
-- the reserved blocks holds.
pub check_dial_addr_iff :
    (parse_ip : Bytes → Option Bytes) (addr : Bytes) (allow_loopback : Bool)
    (allow_addrs : List Bytes)
    → ((host ip : Bytes) → parse_ip host ≡ some ip → IsIp ip)
    → (check_dial_addr parse_ip addr allow_loopback allow_addrs ≡ true) ↔ (
        (host : Bytes) × (port : Bytes) × (split_host_port addr ≡ some (host, port))
        × IsDialled addr allow_loopback allow_addrs (parse_ip host))
unfolding check_dial_addr
check_dial_addr_iff parse_ip addr allow_loopback allow_addrs ips =
    elim (Option-cases (split_host_port addr)) [
      | inl e ↦
          (λ h. absurd (ground (arith, e)), λ (host, port, f, _). absurd (none_ne_some (sym e ∙ f)))
      | inr ((host, port), e) ↦
          let rest = check_option_iff addr allow_loopback allow_addrs (parse_ip host) (ips host) in
          (
            λ h. (host, port, e, rest.0 (rw e at h)),
            λ (host', port', f, d).
                let same : host' ≡ host = ap (λ (p : Bytes × Bytes). p.0) (some_inj (sym f ∙ e)) in
                rw e (
                  rest.1
                    (subst (λ x. IsDialled addr allow_loopback allow_addrs (parse_ip x)) same d)),
          )
    ]
