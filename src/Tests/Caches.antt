-- ===== src/Tests/Caches.antt =====
-- Tests of the blob store and the manifest cache of internal/cache/cache.go.
use nostrhost_nsite.Prelude.{
  ℕ, ◌+◌, ◌≤◌, ◌<◌, ◌≡◌, ◌≢◌, refl, true, false, List, [], ◌∷◌, some, none, Bytes, codes, arith,
  if◌then◌else◌, leb, beq, member, beq_iff, inl,
}
use nostrhost_nsite.Hex.{encode_to_string}
use nostrhost_nsite.Assoc.{lookup, insert, delete, keys, total}
use nostrhost_nsite.Cache.BlobStore.{
  BlobStore, PutIo, put, open_blob, digest_of, is_some, evict_locked, record_blob, drop_blob,
  sort_slice, used_before,
}
use nostrhost_nsite.Int64.{leb64, add64, sub64}
use nostrhost_nsite.Cache.BlobStore.Counting.{IsValid, put-IsValid, put_again_overcounts}
use nostrhost_nsite.Cache.BlobStore.Steps.{Succeeds}
use nostrhost_nsite.Cache.BlobStore.Integrity.{IsAddressed, put-IsAddressed}
use nostrhost_nsite.Cache.BlobStore.Eviction.{put_quota_lru}
use nostrhost_nsite.Cache.BlobStore.Order.{time_in}
use nostrhost_nsite.Cache.BlobStore.Recent.{open_blob-put}
use nostrhost_nsite.Cache.ManifestCache.{ManifestCache, get, negative}
use nostrhost_nsite.Cache.ManifestCache
use nostrhost_nsite.Cache.ManifestCache.Views.{
  hit, missing, unknown, answer, IsExclusive, answer-put, answer-put_negative,
}
use nostrhost_nsite.Tests.Fixtures.{toy_sha256, two_sha, three_sha}

abbrev io_of : Bytes → ℕ → PutIo
io_of body now = record {
  create_ok = true;
  body = some body;
  sync_ok = true;
  close_ok = true;
  rename_ok = true;
  remove_ok = λ k. true;
  ranged = keys;
  now = now;
}

-- "ok" is in the store, used at time 5
abbrev one_blob : BlobStore
one_blob = record {
  quota = 4;
  used = 2;
  sizes = (two_sha, 2) ∷ [];
  last_use = (two_sha, 5) ∷ [];
  disk = (two_sha, codes "ok") ∷ [];
}

one_blob-IsValid : IsValid one_blob
unfolding lookup
one_blob-IsValid = record {
  sizes_once = (refl, tt);
  last_use_once = (refl, tt);
  disk_once = (refl, tt);
  tracked = λ k. ground arith;
  timed = λ k h. ground arith;
  counted = refl;
  in_range = omega arith;
}

one_blob-IsAddressed : IsAddressed toy_sha256 one_blob
unfolding lookup encode_to_string
one_blob-IsAddressed = record {
  disk_once = (refl, tt);
  named_by_digest = λ k body h. ground (arith, beq_iff two_sha k);
}

three_absent : lookup three_sha one_blob.sizes ≡ none
unfolding lookup beq
three_absent = refl

Succeeds-yes : Succeeds toy_sha256 (io_of (codes "yes") 9) three_sha (codes "yes")
unfolding encode_to_string
Succeeds-yes = record {
  create = refl;
  read = refl;
  digest = refl;
  sync = refl;
  close = refl;
  rename = refl;
}

put-IsValid_example : IsValid (put toy_sha256 (io_of (codes "yes") 9) three_sha one_blob).0
put-IsValid_example =
    put-IsValid toy_sha256 (io_of (codes "yes") 9) three_sha one_blob one_blob-IsValid three_absent
      (λ body e. ground arith)

Succeeds-again : Succeeds toy_sha256 (io_of (codes "ok") 9) two_sha (codes "ok")
unfolding encode_to_string
Succeeds-again = record {
  create = refl;
  read = refl;
  digest = refl;
  sync = refl;
  close = refl;
  rename = refl;
}

put_again_overcounts_example :
    (put toy_sha256 (io_of (codes "ok") 9) two_sha one_blob).0.used
    ≡ total (put toy_sha256 (io_of (codes "ok") 9) two_sha one_blob).0.sizes + 2
put_again_overcounts_example =
    put_again_overcounts toy_sha256 (io_of (codes "ok") 9) two_sha (codes "ok") one_blob
      one_blob-IsValid (unfold lookup beq in refl) Succeeds-again (omega arith) (omega arith)

put-IsAddressed_example :
    IsAddressed toy_sha256 (put toy_sha256 (io_of (codes "yes") 9) three_sha one_blob).0
put-IsAddressed_example =
    put-IsAddressed toy_sha256 (io_of (codes "yes") 9) three_sha one_blob one_blob-IsAddressed

keys_complete :
    (k : Bytes) (m : List (Bytes × ℕ)) → is_some (lookup k m) ≡ true → member k (keys m) ≡ true
unfolding lookup member
keys_complete k [] h = cc
keys_complete k ((i, v) ∷ m) h = ground (arith, keys_complete k m)

used_at_five : (i : Bytes) → i ≢ two_sha → time_in one_blob.last_use i < 7
unfolding lookup
used_at_five i differs = ground arith

put_quota_lru_example :
    ((put toy_sha256 (io_of (codes "yes") 9) three_sha one_blob).0.used ≤ 4)
    × ((k j : Bytes)
        → is_some (lookup k (insert three_sha 3 one_blob.sizes)) ≡ true
        → is_some (lookup k (put toy_sha256 (io_of (codes "yes") 9) three_sha one_blob).0.sizes)
          ≡ false
        → is_some (lookup j (put toy_sha256 (io_of (codes "yes") 9) three_sha one_blob).0.sizes)
          ≡ true
        → time_in (insert three_sha 9 one_blob.last_use) k
          ≤ time_in (insert three_sha 9 one_blob.last_use) j)
put_quota_lru_example =
    put_quota_lru toy_sha256 (io_of (codes "yes") 9) three_sha (codes "yes") one_blob
      one_blob-IsValid three_absent Succeeds-yes (omega arith) (omega arith) (λ k. refl)
      (λ k. keys_complete k (insert three_sha 9 one_blob.last_use))

-- "ok" was opened at 7, and no other blob was ever used.
open_blob-put_example :
    (digest_of toy_sha256 (codes "ok") ≡ two_sha)
    × ((j : Bytes)
        → is_some (
            lookup two_sha
              (put toy_sha256
                (io_of (codes "yes") 9)
                three_sha
                (open_blob true 7 two_sha one_blob).0).0.sizes)
          ≡ false
        → is_some (
            lookup j
              (put toy_sha256
                (io_of (codes "yes") 9)
                three_sha
                (open_blob true 7 two_sha one_blob).0).0.sizes)
          ≡ true
        → j ≡ three_sha)
open_blob-put_example =
    open_blob-put toy_sha256 (io_of (codes "yes") 9) three_sha (codes "yes") true 7 two_sha
      (codes "ok") one_blob one_blob-IsValid one_blob-IsAddressed
      (unfold open_blob lookup beq in refl) used_at_five three_absent Succeeds-yes (omega arith)
      (omega arith) (λ k. refl) (λ m k. keys_complete k m)

-- The quota of 4 has room for 3 bytes beside none of the 2 that were there.
oldest_evicted :
    ((put toy_sha256 (io_of (codes "yes") 9) three_sha one_blob).0.used ≡ 3)
    × (lookup two_sha (put toy_sha256 (io_of (codes "yes") 9) three_sha one_blob).0.sizes ≡ none)
unfolding put lookup insert beq encode_to_string evict_locked record_blob leb64 add64 sub64
    drop_blob delete sort_slice used_before
oldest_evicted = (refl, refl)

abbrev empty_cache : ManifestCache ℕ
empty_cache = record { ttl = 300; neg_ttl = 60; items = []; negated = [] }

empty_cache-IsExclusive : IsExclusive empty_cache
unfolding lookup
empty_cache-IsExclusive = record { items_once = tt; negated_once = tt; apart = λ k. inl refl }

answer-put_example :
    answer 100 (codes "root:a") (ManifestCache.put 10 (codes "root:a") 7 empty_cache) ≡ (
      if beq (codes "root:a") (codes "root:a")
      then (if leb 100 (10 + 300) then hit 7 else unknown)
      else answer 100 (codes "root:a") empty_cache)
answer-put_example =
    answer-put 10 100 (codes "root:a") (codes "root:a") 7 empty_cache empty_cache-IsExclusive

answer-put_negative_example :
    answer 100 (codes "root:a") (ManifestCache.put_negative 10 (codes "root:a") empty_cache) ≡ (
      if beq (codes "root:a") (codes "root:a")
      then (if leb 100 (10 + 60) then missing else unknown)
      else answer 100 (codes "root:a") empty_cache)
answer-put_negative_example =
    answer-put_negative 10 100 (codes "root:a") (codes "root:a") empty_cache empty_cache-IsExclusive
