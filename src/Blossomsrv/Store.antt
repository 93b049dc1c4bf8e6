-- ===== src/Blossomsrv/Store.antt =====
-- internal/blossomsrv/server.go, lines 36 to 296 and 418 to 432: the store, uploads and the sweep.
-- The directory is part of the state: its regular files by name, with content and time. What the
-- file system answers and the clock are arguments; `sha256` and the checks of go-nostr are
-- parameters.
pub mod Auth
pub mod Steps
pub mod Invariant
pub mod Uploads
pub mod Stale
pub mod Sweeping
use nostrhost_nsite.Prelude.{
  ℕ, ◌+◌, ◌≡◌, Bool, true, false, not, ◌&&◌, ◌||◌, List, [], ◌∷◌, Option, none, some, ◌==◌, ltb,
  if◌then◌else◌, length, take, any, Bytes, codes, beq, member,
}
use nostrhost_nsite.Hex.{encode_to_string, decode_string}
use nostrhost_nsite.Assoc.{lookup, insert, delete, keys}
use nostrhost_nsite.Int64.{add64, sub64, leb64, ltb64}
use nostrhost_nsite.Nostr.{Event, Checks, has_value, value_of}

abbrev pub is_some {ℓ} : {A : Type ℓ} → Option A → Bool
is_some none = false
is_some (some a) = true

-- upper-case digits pass too
unfoldable pub valid_sha : Bytes → Bool
valid_sha sha = length sha == 64 && is_some (decode_string sha)

pub record File : Type 0 where
  pub content : Bytes
  pub mod_time : ℕ

pub record Server : Type 0 where
  pub quota : ℕ
  pub max_blob : ℕ
  pub retain : ℕ
  pub allow : List Bytes
  pub used : ℕ
  pub files : List (Bytes × File)

-- `scan`: the regular files whose name is a digest; `info_ok` says where `e.Info()` succeeds.
unfoldable pub scan : (Bytes → Bool) → List (Bytes × File) → ℕ → ℕ
scan info_ok [] used = used
scan info_ok ((name, f) ∷ entries) used = scan info_ok entries (
    if not (valid_sha name)
    then used
    else if not (info_ok name)
    then used
    else add64 used (length f.content))

-- `New`; `none` is an empty `Dir`, or a directory that cannot be made or read
unfoldable pub new_server :
    Bytes → Bool → (Bytes → Bool) → ℕ → ℕ → ℕ → List Bytes → List (Bytes × File) → Option Server
new_server dir dir_ok info_ok quota max_blob retain allow files =
    if beq dir [] || not dir_ok
    then none
    else some (record {
      quota = quota;
      max_blob = max_blob;
      retain = retain;
      allow = allow;
      used = scan info_ok files 0;
      files = files;
    })

abbrev pub used_bytes : Server → ℕ
used_bytes s = s.used

-- `SortedSHAs` before the sort, and `BlobCount`: `os.ReadDir` lists the names
unfoldable pub stored_shas : List (Bytes × File) → List Bytes
stored_shas [] = []
stored_shas ((name, f) ∷ entries) = elim (valid_sha name) [
  | true ↦ name ∷ stored_shas entries
  | false ↦ stored_shas entries
]

unfoldable pub blob_count : Server → ℕ
unfolding stored_shas
blob_count s = length (stored_shas s.files)

unfoldable pub has : Bytes → Server → Bool
has sha s = valid_sha sha && is_some (lookup sha s.files)

abbrev content_of : Option File → Option Bytes
content_of none = none
content_of (some f) = some f.content

-- `Get`; `none` is any of its errors, a failed read included
unfoldable pub get : Bool → Bytes → Server → Option Bytes
get read_ok sha s = if valid_sha sha && read_ok then content_of (lookup sha s.files) else none

pub data PutError : Type 0 where
  invalid_sha missing_auth bad_kind id_mismatch bad_signature not_admitted not_covered : PutError
  read_error too_large hash_mismatch quota_exceeded write_error : PutError

pub data PutResult : Type 0 where
  stored : ℕ → PutResult
  refused : PutError → PutResult

-- nostr.KindBlobs
abbrev pub kind_blobs : ℕ
kind_blobs = 24242

-- `len(t) >= 2 && t[0] == "x" && t[1] == sha`
abbrev covers : Bytes → List Bytes → Bool
covers sha t = has_value (codes "x") t && beq (value_of t) sha

abbrev pub is_empty {ℓ} : {A : Type ℓ} → List A → Bool
is_empty [] = true
is_empty (x ∷ xs) = false

-- What the upload stream delivers before it ends, and whether it ends with an error.
pub record Stream : Type 0 where
  pub content : Bytes
  pub fails : Bool

-- `io.Copy` from `io.LimitReader(r, limit)`: at the limit the stream's own end is not seen.
unfoldable pub copy_limited : ℕ → Stream → Option Bytes
copy_limited limit r =
    if not (ltb64 0 limit)
    then some []
    else if ltb (length r.content) limit && r.fails
    then none
    else some (take limit r.content)

-- `os.WriteFile` succeeds, or fails and may leave part of the content behind.
pub data WriteResult : Type 0 where
  written : WriteResult
  write_failed : Option Bytes → WriteResult

pub record PutIo : Type 0 where
  pub stream : Stream
  pub write : WriteResult
  pub now : ℕ

abbrev leave_partial : ℕ → Bytes → Option Bytes → Server → Server
leave_partial now sha none s = s
leave_partial now sha (some part) s = record s {
  files = insert sha (record { content = part; mod_time = now }) s.files;
}

abbrev write_file : PutIo → Bytes → Bytes → WriteResult → Server → Server × PutResult
write_file io sha body written s = (
  record s {
    files = insert sha (record { content = body; mod_time = io.now }) s.files;
    used = add64 s.used (length body);
  },
  stored (length body),
)
write_file io sha body (write_failed part) s =
    (leave_partial io.now sha part s, refused write_error)

-- The part of `Put` under the mutex.
unfoldable pub commit : PutIo → Bytes → Bytes → Server → Server × PutResult
commit io sha body s =
    if is_some (lookup sha s.files)
    then (s, stored (length body))
    else if ltb64 0 s.quota && ltb64 s.quota (add64 s.used (length body))
    then (s, refused quota_exceeded)
    else write_file io sha body io.write s

-- The read, bounded at the cap plus one byte where there is a cap.
unfoldable pub read_upload : ℕ → Stream → Option Bytes
unfolding copy_limited
read_upload max_blob r =
    if ltb64 0 max_blob
    then copy_limited (add64 max_blob 1) r
    else if r.fails
    then none
    else some r.content

module _ (checks : Checks) where
  -- `authorize`; `none` is success
  unfoldable pub authorize : Server → Option Event → Bytes → Option PutError
  authorize s none sha = some missing_auth
  authorize s (some ev) sha =
      if not (ev.kind == kind_blobs)
      then some bad_kind
      else if not (checks.check_id ev)
      then some id_mismatch
      else if not (checks.check_signature ev)
      then some bad_signature
      else if not (is_empty s.allow) && not (member ev.pubkey s.allow)
      then some not_admitted
      else if not (any (covers sha) ev.tags)
      then some not_covered
      else none

module _ (checks : Checks) (sha256 : Bytes → Bytes) where
  put_read : PutIo → Bytes → Option Bytes → Server → Server × PutResult
  put_read io sha none s = (s, refused read_error)
  put_read io sha (some body) s =
      if ltb64 0 s.max_blob && ltb64 s.max_blob (length body)
      then (s, refused too_large)
      else if not (beq (encode_to_string (sha256 body)) sha)
      then (s, refused hash_mismatch)
      else commit io sha body s

  put_authorized : PutIo → Bytes → Option PutError → Server → Server × PutResult
  put_authorized io sha (some e) s = (s, refused e)
  put_authorized io sha none s = put_read io sha (read_upload s.max_blob io.stream) s

  unfoldable pub put : PutIo → Bytes → Option Event → Server → Server × PutResult
  unfolding put_authorized put_read
  put io sha auth s =
      if not (valid_sha sha)
      then (s, refused invalid_sha)
      else put_authorized io sha (authorize checks s auth sha) s

-- What the file system answers while `Sweep` runs.
pub record SweepIo : Type 0 where
  pub now : ℕ
  pub read_dir_ok : Bool
  pub info_ok : Bytes → Bool
  pub remove_ok : Bytes → Bool

-- The file is one to remove: its name is a digest and it is older than the window.
unfoldable pub is_stale : SweepIo → ℕ → Bytes → Option File → Bool
is_stale io retain name none = false
is_stale io retain name (some f) =
    valid_sha name && (io.info_ok name && ltb (f.mod_time + retain) io.now)

abbrev size_of_file : Option File → ℕ
size_of_file none = 0
size_of_file (some f) = length f.content

unfoldable pub sweep_loop : SweepIo → List Bytes → Server → ℕ → Server × ℕ
sweep_loop io [] s removed = (s, removed)
sweep_loop io (name ∷ names) s removed =
    let gone = is_stale io s.retain name (lookup name s.files) && io.remove_ok name in
    sweep_loop io names
      (if gone
        then record s {
          files = delete name s.files;
          used = sub64 s.used (size_of_file (lookup name s.files));
        }
        else s)
      (if gone then removed + 1 else removed)

-- `Sweep`; times are nanoseconds, and `retain` is the signed window
unfoldable pub sweep : SweepIo → Server → Server × ℕ
unfolding sweep_loop
sweep io s =
    if leb64 s.retain 0 || not io.read_dir_ok then (s, 0) else sweep_loop io (keys s.files) s 0
