-- ===== src/Cache/BlobStore/Integrity.antt =====
-- What `BlobStore` holds and hands out has the digest that it is asked for.
use nostrhost_nsite.Prelude.{ℕ, ◌≡◌, some, Bytes, beq_iff, arith}
use nostrhost_nsite.Assoc.{
  lookup, Distinct, lookup-insert, lookup-delete, Distinct-insert, Distinct-delete,
}
use nostrhost_nsite.Cache.BlobStore.{
  BlobStore, drop_blob, record_blob, PutIo, PutResult, put, digest_of,
}
use nostrhost_nsite.Cache.BlobStore.Steps.{
  PutStep, failed, refused, done, put_step, evict_locked_keeps,
}

module _ (sha256 : Bytes → Bytes) where
  -- Every file is named after the digest of its content, and stands once.
  pub record IsAddressed (s : BlobStore) : Type 0 where
    pub disk_once : Distinct s.disk
    pub named_by_digest : (k body : Bytes) → lookup k s.disk ≡ some body → digest_of sha256 body ≡ k

  drop_blob-IsAddressed :
      (sha : Bytes) (s : BlobStore) → IsAddressed s → IsAddressed (drop_blob sha s)
  unfolding drop_blob
  drop_blob-IsAddressed sha s v = record {
    disk_once = Distinct-delete sha s.disk v.disk_once;
    named_by_digest = λ k body h.
        ground (arith, lookup-delete sha k s.disk v.disk_once, v.named_by_digest k body);
  }

  record_blob-IsAddressed :
      (now : ℕ) (sha body : Bytes) (s : BlobStore)
      → digest_of sha256 body ≡ sha
      → IsAddressed s
      → IsAddressed (record_blob now sha body s)
  unfolding record_blob
  record_blob-IsAddressed now sha body s good v = record {
    disk_once = Distinct-insert sha body s.disk v.disk_once;
    named_by_digest = λ k b h.
        ground (arith, lookup-insert sha k body s.disk, beq_iff sha k, v.named_by_digest k b);
  }

  -- A poisoned upload never lands in the cache: `Put` keeps every file named after the digest of
  -- its content, on every branch, whatever the stream holds and the file system answers.
  pub put-IsAddressed :
      (io : PutIo) (sha : Bytes) (s : BlobStore)
      → IsAddressed s
      → IsAddressed (put sha256 io sha s).0
  put-IsAddressed io sha s v = go (put_step sha256 io sha s)
    where
      go : {r : BlobStore × PutResult} → PutStep sha256 io sha s r → IsAddressed r.0
      go failed = v
      go (refused body read bad) = v
      go (done body read good) =
          evict_locked_keeps IsAddressed drop_blob-IsAddressed io.remove_ok io.ranged _
            (record_blob-IsAddressed io.now sha body s good v)
