-- ===== src/Netaddr.antt =====
-- Package `net` as internal/blossom/blob.go calls it: SplitHostPort and the classes of an IP address.
-- An address is the 16 bytes that ParseIP returns, an IPv4 one below ::ffff:0:0/96.
use nostrhost_nsite.Prelude.{
  ℕ, zero, suc, ◌+◌, ◌/◌, ◌%◌, Bool, false, not, ◌&&◌, ◌||◌, [], ◌∷◌, ◌++◌, Option, none, some,
  ◌==◌, if◌then◌else◌, length, take, drop, replicate, Bytes, beq, contains, after_last, before_last,
}

-- `bytealg.IndexByteString`; the length of `s` without one.
unfoldable pub index_byte : ℕ → Bytes → ℕ
index_byte c [] = 0
index_byte c (x ∷ s) = let rest = index_byte c s in if x == c then 0 else 1 + rest

abbrev starts_with : ℕ → Bytes → Bool
starts_with c [] = false
starts_with c (x ∷ s) = x == c

-- The host of "[host]:port", where `last` is the place of the last colon.
abbrev bracketed : ℕ → Bytes → Option (Bytes × Bytes)
bracketed last addr =
    let end = index_byte b']' addr in
    if not (contains b']' addr)
    then none
    else if not (end + 1 == last)
    then none
    else if contains b'[' (drop 1 addr) || contains b']' (drop (end + 1) addr)
    then none
    else some (drop 1 (take end addr), drop (last + 1) addr)

abbrev unbracketed : Bytes → Option (Bytes × Bytes)
unbracketed addr =
    let host = before_last b':' addr in
    if contains b':' host
    then none
    else if contains b'[' addr || contains b']' addr
    then none
    else some (host, after_last b':' addr)

-- `none` is any of its errors.
unfoldable pub split_host_port : Bytes → Option (Bytes × Bytes)
split_host_port addr =
    if not (contains b':' addr)
    then none
    else if starts_with b'[' addr
    then bracketed (length (before_last b':' addr)) addr
    else unbracketed addr

-- `ip.To4()`
abbrev pub v4_prefix : Bytes
v4_prefix = 0 ∷ 0 ∷ 0 ∷ 0 ∷ 0 ∷ 0 ∷ 0 ∷ 0 ∷ 0 ∷ 0 ∷ 255 ∷ 255 ∷ []

abbrev pub is_v4 : Bytes → Bool
is_v4 ip = beq (take 12 ip) v4_prefix

-- `ip[i]`
abbrev pub byte_at : ℕ → Bytes → ℕ
byte_at i [] = 0
byte_at zero (x ∷ ip) = x
byte_at (suc i) (x ∷ ip) = byte_at i ip

abbrev pub v6_zero : Bytes
v6_zero = replicate 16 0

abbrev pub v6_one : Bytes
v6_one = replicate 15 0 ++ 1 ∷ []

abbrev pub v4_zero : Bytes
v4_zero = v4_prefix ++ 0 ∷ 0 ∷ 0 ∷ 0 ∷ []

unfoldable pub is_loopback : Bytes → Bool
is_loopback ip = if is_v4 ip then byte_at 12 ip == 127 else beq ip v6_one

unfoldable pub is_private : Bytes → Bool
is_private ip =
    if is_v4 ip
    then byte_at 12 ip == 10
      || (byte_at 12 ip == 172 && byte_at 13 ip / 16 == 1)
      || (byte_at 12 ip == 192 && byte_at 13 ip == 168)
    else length ip == 16 && byte_at 0 ip / 2 == 126

unfoldable pub is_link_local_unicast : Bytes → Bool
is_link_local_unicast ip =
    if is_v4 ip
    then byte_at 12 ip == 169 && byte_at 13 ip == 254
    else length ip == 16 && (byte_at 0 ip == 254 && byte_at 1 ip / 64 == 2)

unfoldable pub is_link_local_multicast : Bytes → Bool
is_link_local_multicast ip =
    if is_v4 ip
    then byte_at 12 ip == 224 && (byte_at 13 ip == 0 && byte_at 14 ip == 0)
    else length ip == 16 && (byte_at 0 ip == 255 && byte_at 1 ip % 16 == 2)

unfoldable pub is_multicast : Bytes → Bool
is_multicast ip =
    if is_v4 ip then byte_at 12 ip / 16 == 14 else length ip == 16 && byte_at 0 ip == 255

unfoldable pub is_unspecified : Bytes → Bool
is_unspecified ip = beq ip v4_zero || beq ip v6_zero
