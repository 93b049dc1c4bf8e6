-- ===== src/Tests/Fixtures.antt =====
-- Values that the tests share.
use nostrhost_nsite.Prelude.{◌%◌, true, none, Bytes, codes, length, replicate}
use nostrhost_nsite.Nip5a.Label.{Nip19}
use nostrhost_nsite.Nostr.{Checks}

-- a digest of 32 bytes: the length of the text, 32 times
abbrev pub toy_sha256 : Bytes → Bytes
toy_sha256 b = replicate 32 (length b % 256)

-- the digests of two texts of length 2 and 3
abbrev pub two_sha : Bytes
two_sha = codes "0202020202020202020202020202020202020202020202020202020202020202"

abbrev pub three_sha : Bytes
three_sha = codes "0303030303030303030303030303030303030303030303030303030303030303"

-- a package nip19 that decodes no label
abbrev pub no_nip19 : Nip19
no_nip19 = record { decode = λ l. none; encode_public_key = λ k. none }

-- every event has the right id and signature
abbrev pub trusting : Checks
trusting = record { check_id = λ e. true; check_signature = λ e. true }
