-- ===== src/Cache/BlobStore/Steps.antt =====
-- Rules for `BlobStore`: what every eviction keeps, and what every branch of `Put` keeps.
use nostrhost_nsite.Prelude.{
  ℕ, ◌≡◌, refl, Bool, true, false, not, ◌&&◌, List, [], ◌∷◌, Option, none, some, if◌then◌else◌,
  length, Bytes, beq, beq→eq, eq→beq, arith, Bool-cases, inl, inr,
}
use nostrhost_nsite.Assoc.{lookup}
use nostrhost_nsite.Int64.{leb64}
use nostrhost_nsite.Cache.BlobStore.{
  BlobStore, drop_blob, evict_loop, evict_locked, PutIo, PutResult, stored, io_error, hash_mismatch,
  record_blob, put, put_body, put_stream, is_some, digest_of, sort_slice, used_before,
}

module _ {ℓ} (P : BlobStore → Type ℓ)
    (keep : (sha : Bytes) (s : BlobStore) → P s → P (drop_blob sha s)) where
  drop_or_not :
      (b : Bool) (sha : Bytes) (s : BlobStore) → P s → P (if b then drop_blob sha s else s)
  drop_or_not true sha s p = keep sha s p
  drop_or_not false sha s p = p

  pub evict_loop_keeps :
      (remove_ok : Bytes → Bool) (order : List Bytes) (s : BlobStore)
      → P s
      → P (evict_loop remove_ok order s)
  unfolding evict_loop
  evict_loop_keeps remove_ok [] s p = p
  evict_loop_keeps remove_ok (sha ∷ order) s p =
      let b = is_some (lookup sha s.disk) && remove_ok sha in
      let next =
        evict_loop_keeps remove_ok order (if b then drop_blob sha s else s)
          (drop_or_not b sha s p) in
      elim (Bool-cases (leb64 s.used s.quota)) [ inl e ↦ rw e p | inr e ↦ rw e next ]

  pub evict_locked_keeps :
      (remove_ok : Bytes → Bool) (ranged : List (Bytes × ℕ) → List Bytes) (s : BlobStore)
      → P s
      → P (evict_locked remove_ok ranged s)
  unfolding evict_locked
  evict_locked_keeps remove_ok ranged s p = elim (Bool-cases (leb64 s.used s.quota)) [
    | inl e ↦ rw e p
    | inr e ↦
        rw e
          (evict_loop_keeps remove_ok (sort_slice (used_before s.last_use) (ranged s.last_use)) s p)
  ]

-- The branches of `Put`: it leaves the store alone and reports an error, or the digest matched and
-- the blob was recorded and the store evicted.
pub data PutStep (sha256 : Bytes → Bytes) (io : PutIo) (sha : Bytes) (s : BlobStore)
    : BlobStore × PutResult → Type 0 where
  failed : PutStep sha256 io sha s (s, io_error)
  refused :
      (body : Bytes)
      → io.body ≡ some body
      → beq (digest_of sha256 body) sha ≡ false
      → PutStep sha256 io sha s (s, hash_mismatch sha (digest_of sha256 body))
  done :
      (body : Bytes)
      → io.body ≡ some body
      → digest_of sha256 body ≡ sha
      → PutStep sha256 io sha s (
        evict_locked io.remove_ok io.ranged (record_blob io.now sha body s),
        stored (length body),
      )

module _ (sha256 : Bytes → Bytes) (io : PutIo) (sha : Bytes) (s : BlobStore) where
  put_body_step :
      (body : Bytes) → io.body ≡ some body → PutStep sha256 io sha s (put_body sha256 io sha body s)
  unfolding put_body
  put_body_step body read = elim (Bool-cases (beq (digest_of sha256 body) sha)) [
    | inr bad ↦ rw bad (refused body read bad)
    | inl good ↦ elim (Bool-cases io.sync_ok) [
      | inr bad ↦ rw (good, bad) failed
      | inl synced ↦ elim (Bool-cases io.close_ok) [
        | inr bad ↦ rw (good, synced, bad) failed
        | inl closed ↦ elim (Bool-cases io.rename_ok) [
          | inr bad ↦ rw (good, synced, closed, bad) failed
          | inl renamed ↦ rw (good, synced, closed, renamed) (done body read (beq→eq _ _ good))
        ]
      ]
    ]
  ]

  put_stream_step :
      (o : Option Bytes) → io.body ≡ o → PutStep sha256 io sha s (put_stream sha256 io sha o s)
  unfolding put_stream
  put_stream_step none read = failed
  put_stream_step (some body) read = put_body_step body read

  pub put_step : PutStep sha256 io sha s (put sha256 io sha s)
  unfolding put
  put_step =
      elim io.create_ok
        as (λ b.
          PutStep sha256 io sha s
            (if not b then (s, io_error) else put_stream sha256 io sha io.body s)) [
              | true ↦ put_stream_step io.body refl
              | false ↦ failed
            ]

-- Nothing fails in a call of `Put` that reads `body`, whose digest is the name it is stored under.
pub record Succeeds (sha256 : Bytes → Bytes) (io : PutIo) (sha : Bytes) (body : Bytes)
    : Type 0 where
  pub create : io.create_ok ≡ true
  pub read : io.body ≡ some body
  pub digest : digest_of sha256 body ≡ sha
  pub sync : io.sync_ok ≡ true
  pub close : io.close_ok ≡ true
  pub rename : io.rename_ok ≡ true

pub put_success :
    (sha256 : Bytes → Bytes) (io : PutIo) (sha body : Bytes) (s : BlobStore)
    → Succeeds sha256 io sha body
    → put sha256 io sha s
      ≡ (evict_locked io.remove_ok io.ranged (record_blob io.now sha body s), stored (length body))
unfolding put
put_success sha256 io sha body s ok =
    let create = ok.create in
    let read = ok.read in
    let sync = ok.sync in
    let close = ok.close in
    let rename = ok.rename in
    let digest : beq (digest_of sha256 body) sha ≡ true = eq→beq _ _ ok.digest in
    ground (arith, digest)
