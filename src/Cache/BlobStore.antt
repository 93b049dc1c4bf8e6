-- ===== src/Cache/BlobStore.antt =====
-- internal/cache/cache.go, lines 18 to 156: `BlobStore`. Each method is one step under the mutex.
-- The directory is part of the state, its 64-byte names with the contents of the files; what the
-- file system answers, the clock and the order in which a map is ranged over are arguments. The
-- function `sha256` is a parameter.
pub mod Order
pub mod Steps
pub mod Counting
pub mod Integrity
pub mod Eviction
pub mod Recent
use nostrhost_nsite.Prelude.{
  ℕ, ◌≡◌, Bool, true, false, not, ◌&&◌, ◌||◌, List, [], ◌∷◌, Option, none, some, ◌==◌,
  if◌then◌else◌, length, Bytes, beq, ltb,
}
use nostrhost_nsite.Hex.{encode_to_string}
use nostrhost_nsite.Assoc.{lookup, insert, delete, value_at}
use nostrhost_nsite.Int64.{add64, sub64, leb64, ltb64}

pub record BlobStore : Type 0 where
  pub quota : ℕ
  pub used : ℕ
  pub sizes : List (Bytes × ℕ)
  pub last_use : List (Bytes × ℕ)
  pub disk : List (Bytes × Bytes)

-- One entry of `os.ReadDir`; `info` is `none` when `e.Info()` fails, else size and time.
pub record DirEntry : Type 0 where
  pub name : Bytes
  pub is_dir : Bool
  pub info : Option (ℕ × ℕ)

abbrev scan_info : Bytes → Option (ℕ × ℕ) → BlobStore → BlobStore
scan_info name none s = s
scan_info name (some (size, mod_time)) s = record s {
  used = add64 s.used size;
  sizes = insert name size s.sizes;
  last_use = insert name mod_time s.last_use;
}

unfoldable pub scan : List DirEntry → BlobStore → BlobStore
scan [] s = s
scan (e ∷ entries) s =
    scan entries (if e.is_dir || not (length e.name == 64) then s else scan_info e.name e.info s)

-- `NewBlobStore` over a directory that could be made and read.
unfoldable pub new_blob_store : ℕ → List (Bytes × Bytes) → List DirEntry → BlobStore
unfolding scan
new_blob_store quota disk entries =
    scan entries (record { quota = quota; used = 0; sizes = []; last_use = []; disk = disk })

unfoldable pub has : Bytes → BlobStore → Bool
has sha s = ltb64 0 (value_at (lookup sha s.sizes))

abbrev pub used_bytes : BlobStore → ℕ
used_bytes s = s.used

abbrev open_file : Bytes → ℕ → Option Bytes → BlobStore → BlobStore × Option Bytes
open_file sha now none s = (s, none)
open_file sha now (some body) s = (record s { last_use = insert sha now s.last_use }, some body)

-- `os.Open` succeeds on a file that is there, if the system lets it. The reader is the content.
unfoldable pub open_blob : Bool → ℕ → Bytes → BlobStore → BlobStore × Option Bytes
open_blob open_ok now sha s = if open_ok then open_file sha now (lookup sha s.disk) s else (s, none)

abbrev pub is_some {ℓ} : {A : Type ℓ} → Option A → Bool
is_some none = false
is_some (some a) = true

-- `delete` of one blob, with its account
unfoldable pub drop_blob : Bytes → BlobStore → BlobStore
drop_blob sha s = record s {
  used = sub64 s.used (value_at (lookup sha s.sizes));
  sizes = delete sha s.sizes;
  last_use = delete sha s.last_use;
  disk = delete sha s.disk;
}

-- The loop of `evictLocked`; `os.Remove` succeeds on a file that is there, if `remove_ok`.
unfoldable pub evict_loop : (Bytes → Bool) → List Bytes → BlobStore → BlobStore
evict_loop remove_ok [] s = s
evict_loop remove_ok (sha ∷ order) s =
    let next = (if is_some (lookup sha s.disk) && remove_ok sha then drop_blob sha s else s) in
    let rest = evict_loop remove_ok order next in if leb64 s.used s.quota then s else rest

-- `sort.Slice`, which may leave equal items in any order: they stay as they were ranged over.
unfoldable pub insert_by {ℓ} : {A : Type ℓ} → (A → A → Bool) → A → List A → List A
insert_by less x [] = x ∷ []
insert_by less x (y ∷ ys) =
    let rest = insert_by less x ys in if less y x then y ∷ rest else x ∷ y ∷ ys

unfoldable pub sort_slice {ℓ} : {A : Type ℓ} → (A → A → Bool) → List A → List A
unfolding insert_by
sort_slice less [] = []
sort_slice less (x ∷ xs) = insert_by less x (sort_slice less xs)

-- `s.lastUse[i].Before(s.lastUse[j])`
unfoldable pub used_before : List (Bytes × ℕ) → Bytes → Bytes → Bool
used_before last_use i j = ltb (value_at (lookup i last_use)) (value_at (lookup j last_use))

-- `ranged` gives the keys of a map in the order of one `range` over it.
unfoldable pub evict_locked :
    (Bytes → Bool) → (List (Bytes × ℕ) → List Bytes) → BlobStore → BlobStore
unfolding evict_loop sort_slice used_before
evict_locked remove_ok ranged s =
    if leb64 s.used s.quota
    then s
    else evict_loop remove_ok (sort_slice (used_before s.last_use) (ranged s.last_use)) s

-- What the system answers in one call of `Put`; `body` is what `io.Copy` reads, `none` if it fails.
pub record PutIo : Type 0 where
  pub create_ok : Bool
  pub body : Option Bytes
  pub sync_ok : Bool
  pub close_ok : Bool
  pub rename_ok : Bool
  pub remove_ok : Bytes → Bool
  pub ranged : List (Bytes × ℕ) → List Bytes
  pub now : ℕ

pub data PutResult : Type 0 where
  stored : ℕ → PutResult
  io_error : PutResult
  hash_mismatch : Bytes → Bytes → PutResult

-- the maps after the rename, before the eviction
unfoldable pub record_blob : ℕ → Bytes → Bytes → BlobStore → BlobStore
record_blob now sha body s = record s {
  sizes = insert sha (length body) s.sizes;
  last_use = insert sha now s.last_use;
  used = add64 s.used (length body);
  disk = insert sha body s.disk;
}

module _ (sha256 : Bytes → Bytes) where
  abbrev pub digest_of : Bytes → Bytes
  digest_of body = encode_to_string (sha256 body)

  put_body : PutIo → Bytes → Bytes → BlobStore → BlobStore × PutResult
  put_body io sha body s =
      if not (beq (digest_of body) sha)
      then (s, hash_mismatch sha (digest_of body))
      else if not io.sync_ok
      then (s, io_error)
      else if not io.close_ok
      then (s, io_error)
      else if not io.rename_ok
      then (s, io_error)
      else (
        evict_locked io.remove_ok io.ranged (record_blob io.now sha body s),
        stored (length body),
      )

  put_stream : PutIo → Bytes → Option Bytes → BlobStore → BlobStore × PutResult
  put_stream io sha none s = (s, io_error)
  put_stream io sha (some body) s = put_body io sha body s

  unfoldable pub put : PutIo → Bytes → BlobStore → BlobStore × PutResult
  unfolding put_stream put_body
  put io sha s = if not io.create_ok then (s, io_error) else put_stream io sha io.body s
