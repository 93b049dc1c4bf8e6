-- ===== src/Cache/BlobStore/Counting.antt =====
-- The byte account of `BlobStore`: `used` is the sum of the sizes.
use nostrhost_nsite.Prelude.{
  ℕ, ◌+◌, ◌≤◌, ◌≡◌, true, Option, none, some, length, Bytes, arith, ◌∙◌, le→leb,
}
use nostrhost_nsite.Assoc.{
  lookup, insert, delete, value_at, total, Distinct, lookup-insert, lookup-delete, Distinct-insert,
  Distinct-delete, total-insert, total-delete,
}
use nostrhost_nsite.Int64.{add64, leb64, IsNat64, add64_exact, sub64_exact, leb64_exact}
use nostrhost_nsite.Cache.BlobStore.{
  BlobStore, drop_blob, evict_locked, PutIo, PutResult, record_blob, put, is_some,
}
use nostrhost_nsite.Cache.BlobStore.Steps.{
  PutStep, failed, refused, done, put_step, Succeeds, put_success, evict_locked_keeps,
}

abbrev pub size_of : Option Bytes → Option ℕ
size_of none = none
size_of (some body) = some (length body)

-- The maps hold each key once, `sizes` holds exactly the sizes of the files, every file has a time
-- of last use, and `used` is the sum of the sizes, which fits an int64.
pub record IsValid (s : BlobStore) : Type 0 where
  pub sizes_once : Distinct s.sizes
  pub last_use_once : Distinct s.last_use
  pub disk_once : Distinct s.disk
  pub tracked : (k : Bytes) → lookup k s.sizes ≡ size_of (lookup k s.disk)
  pub timed : (k : Bytes) → is_some (lookup k s.sizes) ≡ true → is_some (lookup k s.last_use) ≡ true
  pub counted : s.used ≡ total s.sizes
  pub in_range : IsNat64 (total s.sizes)

pub drop_blob-IsValid : (sha : Bytes) (s : BlobStore) → IsValid s → IsValid (drop_blob sha s)
unfolding drop_blob
drop_blob-IsValid sha s v =
    let sum : total (delete sha s.sizes) + value_at (lookup sha s.sizes) ≡ total s.sizes =
      total-delete sha s.sizes in
    let counted = v.counted in
    record {
      sizes_once = Distinct-delete sha s.sizes v.sizes_once;
      last_use_once = Distinct-delete sha s.last_use v.last_use_once;
      disk_once = Distinct-delete sha s.disk v.disk_once;
      tracked = λ k. ground (
        arith,
        lookup-delete sha k s.sizes v.sizes_once,
        lookup-delete sha k s.disk v.disk_once,
        v.tracked k,
      );
      timed = λ k h. ground (
        arith,
        lookup-delete sha k s.sizes v.sizes_once,
        lookup-delete sha k s.last_use v.last_use_once,
        v.timed k,
      );
      counted = ground (arith, sub64_exact s.used (value_at (lookup sha s.sizes)));
      in_range = omega (arith, v.in_range);
    }

-- After a new blob is recorded the account is right again.
pub record_blob-IsValid :
    (now : ℕ) (sha body : Bytes) (s : BlobStore)
    → IsValid s
    → lookup sha s.sizes ≡ none
    → IsNat64 (total s.sizes + length body)
    → IsValid (record_blob now sha body s)
unfolding record_blob
record_blob-IsValid now sha body s v fresh fits =
    let sum : total (insert sha (length body) s.sizes) ≡ total s.sizes + length body =
      omega (arith, rw fresh at (total-insert sha (length body) s.sizes)) in
    let counted = v.counted in
    record {
      sizes_once = Distinct-insert sha (length body) s.sizes v.sizes_once;
      last_use_once = Distinct-insert sha now s.last_use v.last_use_once;
      disk_once = Distinct-insert sha body s.disk v.disk_once;
      tracked = λ k. ground (
        arith,
        lookup-insert sha k (length body) s.sizes,
        lookup-insert sha k body s.disk,
        v.tracked k,
      );
      timed = λ k h. ground (
        arith,
        lookup-insert sha k (length body) s.sizes,
        lookup-insert sha k now s.last_use,
        v.timed k,
      );
      counted = ground (arith, add64_exact s.used (length body), sum);
      in_range = rw sum fits;
    }

-- `Put` keeps the account, on every branch and whatever the file system answers, when the blob is
-- not in the store yet and the bytes fit an int64.
pub put-IsValid :
    (sha256 : Bytes → Bytes) (io : PutIo) (sha : Bytes) (s : BlobStore)
    → IsValid s
    → lookup sha s.sizes ≡ none
    → ((body : Bytes) → io.body ≡ some body → IsNat64 (total s.sizes + length body))
    → IsValid (put sha256 io sha s).0
put-IsValid sha256 io sha s v fresh fits = go (put_step sha256 io sha s)
  where
    go : {r : BlobStore × PutResult} → PutStep sha256 io sha s r → IsValid r.0
    go failed = v
    go (refused body read bad) = v
    go (done body read good) =
        evict_locked_keeps IsValid drop_blob-IsValid io.remove_ok io.ranged _
          (record_blob-IsValid io.now sha body s v fresh (fits body read))

-- When a blob that the store holds is stored once more and nothing fails, its bytes are charged a
-- second time: if that leaves the charge within the quota, `used` exceeds the sum of the sizes by
-- the length of the blob.
pub put_again_overcounts :
    (sha256 : Bytes → Bytes) (io : PutIo) (sha body : Bytes) (s : BlobStore)
    → IsValid s
    → lookup sha s.sizes ≡ some (length body)
    → Succeeds sha256 io sha body
    → IsNat64 s.quota
    → total s.sizes + length body ≤ s.quota
    → (put sha256 io sha s).0.used ≡ total (put sha256 io sha s).0.sizes + length body
unfolding evict_locked record_blob
put_again_overcounts sha256 io sha body s v held ok q room =
    let sum : total (insert sha (length body) s.sizes) ≡ total s.sizes =
      omega (arith, rw held at (total-insert sha (length body) s.sizes)) in
    let counted = v.counted in
    let used : add64 s.used (length body) ≡ total s.sizes + length body =
      add64_exact s.used (length body) (omega arith) ∙ omega arith in
    let within : leb64 (add64 s.used (length body)) s.quota ≡ true =
      rw (used, leb64_exact (total s.sizes + length body) s.quota (omega arith) q)
        (le→leb _ _ room) in
    rw (put_success sha256 io sha body s ok, within) (omega (arith, used, sum))
