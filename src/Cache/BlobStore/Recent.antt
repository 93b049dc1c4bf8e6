-- ===== src/Cache/BlobStore/Recent.antt =====
-- What `Open` of `BlobStore` hands out, and what it means for the next eviction.
use nostrhost_nsite.Prelude.{
  ℕ, ◌+◌, ◌<◌, ◌≡◌, ◌≢◌, sym, Bool, true, false, List, none, some, length, Bytes, beq, beq_iff,
  beq→eq, arith, Bool-cases, inl, inr,
}
use nostrhost_nsite.Assoc.{lookup, insert, total, lookup-insert, Distinct-insert}
use nostrhost_nsite.Int64.{IsNat64}
use nostrhost_nsite.Cache.BlobStore.{BlobStore, PutIo, put, open_blob, is_some, digest_of}
use nostrhost_nsite.Cache.BlobStore.Steps.{Succeeds}
use nostrhost_nsite.Cache.BlobStore.Counting.{IsValid}
use nostrhost_nsite.Cache.BlobStore.Integrity.{IsAddressed}
use nostrhost_nsite.Cache.BlobStore.Order.{Ranges, time_in}
use nostrhost_nsite.Cache.BlobStore.Eviction.{put_quota_lru}

-- the store after a blob was opened
abbrev pub opened : Bytes → ℕ → BlobStore → BlobStore
opened k now s = record s { last_use = insert k now s.last_use }

opened-IsValid : (k : Bytes) (now : ℕ) (s : BlobStore) → IsValid s → IsValid (opened k now s)
opened-IsValid k now s v = record {
  sizes_once = v.sizes_once;
  last_use_once = Distinct-insert k now s.last_use v.last_use_once;
  disk_once = v.disk_once;
  tracked = v.tracked;
  timed = λ j h. ground (arith, lookup-insert k j now s.last_use, v.timed j h);
  counted = v.counted;
  in_range = v.in_range;
}

pub open_blob-opened :
    (open_ok : Bool) (now : ℕ) (k content : Bytes) (s : BlobStore)
    → (open_blob open_ok now k s).1 ≡ some content
    → ((open_blob open_ok now k s).0 ≡ opened k now s) × (lookup k s.disk ≡ some content)
unfolding open_blob
open_blob-opened open_ok now k content s h = ground arith

module _ (sha256 : Bytes → Bytes) (io : PutIo) (sha body : Bytes) where
  opened-last :
      (now : ℕ) (k content j : Bytes) (s : BlobStore)
      → IsValid s
      → lookup k s.disk ≡ some content
      → ((i : Bytes) → i ≢ k → time_in s.last_use i < now)
      → lookup sha s.sizes ≡ none
      → Succeeds sha256 io sha body
      → IsNat64 (total s.sizes + length body)
      → IsNat64 s.quota
      → ((i : Bytes) → io.remove_ok i ≡ true)
      → Ranges
          (insert sha io.now (insert k now s.last_use))
          (io.ranged (insert sha io.now (insert k now s.last_use)))
      → is_some (lookup k (put sha256 io sha (opened k now s)).0.sizes) ≡ false
      → is_some (lookup j (put sha256 io sha (opened k now s)).0.sizes) ≡ true
      → j ≡ sha
  opened-last now k content j s v held last fresh ok fits q removes all_keys gone kept =
      let sized = v.tracked k in
      let apart : beq sha k ≡ false = ground (arith, beq_iff sha k) in
      let was : is_some (lookup k (insert sha (length body) s.sizes)) ≡ true =
        ground (arith, lookup-insert sha k (length body) s.sizes) in
      let (_, lru) =
        put_quota_lru sha256 io sha body (opened k now s) (opened-IsValid k now s v) fresh ok fits q
          removes all_keys in
      let later = lru k j was gone kept in
      elim (Bool-cases (beq sha j)) [
        | inl same ↦ sym (beq→eq sha j same)
        | inr other ↦
            let differs : j ≢ k = λ e. ground (arith, gone, kept, e) in
            let earlier = last j differs in
            absurd (
              ground (
                arith,
                lookup-insert sha k io.now (insert k now s.last_use),
                lookup-insert k k now s.last_use,
                lookup-insert sha j io.now (insert k now s.last_use),
                lookup-insert k j now s.last_use,
                beq_iff k j,
                beq_iff k k,
              ))
      ]

  -- What `Open` hands out has the digest it was asked for, the files being named after theirs. If
  -- the blob was then used later than all others, the next `Put` of a new blob that succeeds evicts
  -- it only when it leaves no other blob than, perhaps, the new one. The account is right and the
  -- sizes in range before, files can be removed, and a range over a map gives all its keys.
  pub open_blob-put :
      (open_ok : Bool) (now : ℕ) (k content : Bytes) (s : BlobStore)
      → IsValid s
      → IsAddressed sha256 s
      → (open_blob open_ok now k s).1 ≡ some content
      → ((i : Bytes) → i ≢ k → time_in s.last_use i < now)
      → lookup sha s.sizes ≡ none
      → Succeeds sha256 io sha body
      → IsNat64 (total s.sizes + length body)
      → IsNat64 s.quota
      → ((i : Bytes) → io.remove_ok i ≡ true)
      → ((m : List (Bytes × ℕ)) → Ranges m (io.ranged m))
      → (digest_of sha256 content ≡ k)
        × ((j : Bytes)
            → is_some (lookup k (put sha256 io sha (open_blob open_ok now k s).0).0.sizes) ≡ false
            → is_some (lookup j (put sha256 io sha (open_blob open_ok now k s).0).0.sizes) ≡ true
            → j ≡ sha)
  open_blob-put open_ok now k content s v named h last fresh ok fits q removes all_keys =
      let (same, held) = open_blob-opened open_ok now k content s h in
      (
        named.named_by_digest k content held,
        rw same
            (λ j. opened-last now k content j s v held last fresh ok fits q removes (all_keys _)),
      )
