-- ===== src/Cache/BlobStore/Eviction.antt =====
-- Eviction in `BlobStore`: the quota holds afterwards, and the least recently used blobs go first.
use mathlib.Core.Bool.{false≢true}
use nostrhost_nsite.Prelude.{
  ℕ, ◌+◌, ◌≤◌, ◌≡◌, refl, sym, ◌∙◌, Bool, true, false, ◌&&◌, List, [], ◌∷◌, none, if◌then◌else◌,
  length, Bytes, beq, beq_self, beq_iff, beq→eq, arith, Bool-cases, inl, inr, leb→le, member,
}
use nostrhost_nsite.Assoc.{lookup, insert, total, lookup-delete}
use nostrhost_nsite.Int64.{leb64, IsNat64, leb64_exact}
use nostrhost_nsite.Cache.BlobStore.{
  BlobStore, drop_blob, evict_loop, evict_locked, PutIo, record_blob, put, is_some, sort_slice,
  used_before,
}
use nostrhost_nsite.Cache.BlobStore.Order.{
  Ranges, SortedBy, time_in, member-All, member-sort_slice, sort_slice-sorted,
}
use nostrhost_nsite.Cache.BlobStore.Steps.{Succeeds, put_success}
use nostrhost_nsite.Cache.BlobStore.Counting.{IsValid, drop_blob-IsValid, record_blob-IsValid}

abbrev Covers : List Bytes → BlobStore → Type 0
Covers order s = (k : Bytes) → is_some (lookup k s.sizes) ≡ true → member k order ≡ true

no_keys-total :
    (m : List (Bytes × ℕ)) → ((k : Bytes) → is_some (lookup k m) ≡ true → ⊥) → total m ≡ 0
unfolding lookup
no_keys-total [] h = refl
no_keys-total ((k, v) ∷ m) h = absurd (h k (rw beq_self refl))

no_members : (k : Bytes) → member k [] ≡ true → ⊥
unfolding member
no_members k h = cc

-- one round of the loop
abbrev next_store : (Bytes → Bool) → Bytes → BlobStore → BlobStore
next_store remove_ok sha s =
    if is_some (lookup sha s.disk) && remove_ok sha then drop_blob sha s else s

module _ (remove_ok : Bytes → Bool) (removes : (k : Bytes) → remove_ok k ≡ true) where
  -- After one round the blob is gone, and the others are where they were.
  next_store_sizes :
      (sha k : Bytes) (s : BlobStore)
      → IsValid s
      → lookup k (next_store remove_ok sha s).sizes ≡ (if beq sha k then none else lookup k s.sizes)
  unfolding drop_blob
  next_store_sizes sha k s v =
      ground
        (arith, removes sha, lookup-delete sha k s.sizes v.sizes_once, v.tracked sha, beq_iff sha k)

  next_store-IsValid :
      (sha : Bytes) (s : BlobStore) → IsValid s → IsValid (next_store remove_ok sha s)
  next_store-IsValid sha s v =
      elim (is_some (lookup sha s.disk) && remove_ok sha)
        as (λ b. IsValid (if b then drop_blob sha s else s)) [
          | true ↦ drop_blob-IsValid sha s v
          | false ↦ v
        ]

  next_store-Covers :
      (sha : Bytes) (order : List Bytes) (s : BlobStore)
      → IsValid s
      → Covers (sha ∷ order) s
      → Covers order (next_store remove_ok sha s)
  unfolding member
  next_store-Covers sha order s v h k held = ground (arith, next_store_sizes sha k s v, h k)

  next_store_quota : (sha : Bytes) (s : BlobStore) → (next_store remove_ok sha s).quota ≡ s.quota
  unfolding drop_blob
  next_store_quota sha s = ground arith

  evict_loop-quota :
      (order : List Bytes) (s : BlobStore)
      → IsValid s
      → IsNat64 s.quota
      → Covers order s
      → (evict_loop remove_ok order s).used ≤ s.quota
  unfolding evict_loop
  evict_loop-quota [] s v q h =
      let empty = no_keys-total s.sizes (λ k held. no_members k (h k held)) in
      omega (arith, v.counted, empty)
  evict_loop-quota (sha ∷ order) s v q h =
      let rest =
        evict_loop-quota order (next_store remove_ok sha s) (next_store-IsValid sha s v)
          (rw (next_store_quota sha s) q) (next_store-Covers sha order s v h) in
      let within : (evict_loop remove_ok order (next_store remove_ok sha s)).used ≤ s.quota =
        omega (arith, rest, next_store_quota sha s) in
      elim (Bool-cases (leb64 s.used s.quota)) [
        | inl e ↦ rw e (
            leb→le s.used s.quota
              (sym (leb64_exact s.used s.quota (omega (arith, v.counted, v.in_range)) q) ∙ e))
        | inr e ↦ rw e within
      ]

  evict_loop-shrinks :
      (order : List Bytes) (s : BlobStore) (j : Bytes)
      → IsValid s
      → is_some (lookup j (evict_loop remove_ok order s).sizes) ≡ true
      → is_some (lookup j s.sizes) ≡ true
  unfolding evict_loop
  evict_loop-shrinks [] s j v h = h
  evict_loop-shrinks (sha ∷ order) s j v h = ground (
    arith,
    next_store_sizes sha j s v,
    evict_loop-shrinks order (next_store remove_ok sha s) j (next_store-IsValid sha s v),
  )

  -- A blob that is evicted was used no later than any blob that is kept.
  evict_loop-lru :
      (time : Bytes → ℕ) (order : List Bytes) (s : BlobStore) (k j : Bytes)
      → IsValid s
      → Covers order s
      → SortedBy time order
      → is_some (lookup k s.sizes) ≡ true
      → is_some (lookup k (evict_loop remove_ok order s).sizes) ≡ false
      → is_some (lookup j (evict_loop remove_ok order s).sizes) ≡ true
      → time k ≤ time j
  unfolding evict_loop
  evict_loop-lru time [] s k j v h sorted was gone kept = cc
  evict_loop-lru time (sha ∷ order) s k j v h (least, sorted) was gone kept =
      let v' = next_store-IsValid sha s v in
      let h' = next_store-Covers sha order s v h in
      elim (Bool-cases (leb64 s.used s.quota)) [
        | inl e ↦ absurd (false≢true (sym (rw e at gone) ∙ was))
        | inr e ↦
            let kept' : is_some
                  (lookup j (evict_loop remove_ok order (next_store remove_ok sha s)).sizes)
                ≡ true =
              rw e at kept in
            elim (Bool-cases (beq sha k)) [
              | inl same ↦
                  let later : time sha ≤ time j =
                    member-All (λ y. time sha ≤ time y) j order least
                      (h' j (evict_loop-shrinks order (next_store remove_ok sha s) j v' kept')) in
                  rw (← beq→eq sha k same) later
              | inr differs ↦
                  evict_loop-lru time order (next_store remove_ok sha s) k j v' h' sorted
                    (rw (next_store_sizes sha k s v, differs) was) (rw e at gone) kept'
            ]
      ]

  evict_locked-lru :
      (ranged : List (Bytes × ℕ) → List Bytes) (s : BlobStore)
      → IsValid s
      → IsNat64 s.quota
      → Ranges s.last_use (ranged s.last_use)
      → ((evict_locked remove_ok ranged s).used ≤ s.quota)
        × ((k j : Bytes)
            → is_some (lookup k s.sizes) ≡ true
            → is_some (lookup k (evict_locked remove_ok ranged s).sizes) ≡ false
            → is_some (lookup j (evict_locked remove_ok ranged s).sizes) ≡ true
            → time_in s.last_use k ≤ time_in s.last_use j)
  unfolding evict_locked
  evict_locked-lru ranged s v q all_keys =
      let order = sort_slice (used_before s.last_use) (ranged s.last_use) in
      let covers : Covers order s = λ k held.
        member-sort_slice (used_before s.last_use) k (ranged s.last_use)
        ∙ all_keys k (v.timed k held) in
      let sorted = sort_slice-sorted s.last_use (ranged s.last_use) in
      elim (Bool-cases (leb64 s.used s.quota)) [
        | inl e ↦
            let within =
              leb→le s.used s.quota
                (sym (leb64_exact s.used s.quota (omega (arith, v.counted, v.in_range)) q) ∙ e) in
            rw e (within, λ k j was gone kept. absurd (false≢true (sym gone ∙ was)))
        | inr e ↦ rw e (
          evict_loop-quota order s v q covers,
          λ k j. evict_loop-lru (time_in s.last_use) order s k j v covers sorted,
        )
      ]

-- When `Put` has stored a blob that is new to the store, the account being right and the sizes in
-- range before, files can be removed, and a range over a map gives all its keys, the bytes in the
-- store are within the quota; and every blob that it has evicted was used no later than every blob
-- that it has kept, the new blob counting as used now.
pub put_quota_lru :
    (sha256 : Bytes → Bytes) (io : PutIo) (sha body : Bytes) (s : BlobStore)
    → IsValid s
    → lookup sha s.sizes ≡ none
    → Succeeds sha256 io sha body
    → IsNat64 (total s.sizes + length body)
    → IsNat64 s.quota
    → ((k : Bytes) → io.remove_ok k ≡ true)
    → Ranges (insert sha io.now s.last_use) (io.ranged (insert sha io.now s.last_use))
    → ((put sha256 io sha s).0.used ≤ s.quota)
      × ((k j : Bytes)
          → is_some (lookup k (insert sha (length body) s.sizes)) ≡ true
          → is_some (lookup k (put sha256 io sha s).0.sizes) ≡ false
          → is_some (lookup j (put sha256 io sha s).0.sizes) ≡ true
          → time_in (insert sha io.now s.last_use) k ≤ time_in (insert sha io.now s.last_use) j)
unfolding record_blob
put_quota_lru sha256 io sha body s v fresh ok fits q removes all_keys =
    rw (put_success sha256 io sha body s ok) (
      evict_locked-lru io.remove_ok removes io.ranged (record_blob io.now sha body s)
        (record_blob-IsValid io.now sha body s v fresh fits) q all_keys)
