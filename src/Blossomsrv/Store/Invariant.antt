-- ===== src/Blossomsrv/Store/Invariant.antt =====
-- What the local Blossom store keeps: content under its digest, an exact byte account, the quota.
use mathlib.Core.Path.{subst}
use nostrhost_nsite.Prelude.{
  ℕ, ◌+◌, ◌≡◌, ◌≢◌, Bool, true, not, List, [], ◌∷◌, Option, none, some, if◌then◌else◌, length,
  Bytes, beq, beq_iff, arith, Bool-cases, inl, inr, some_inj, none_ne_some, ◌||◌,
}
use nostrhost_nsite.Hex.{encode_to_string}
use nostrhost_nsite.Assoc.{lookup, insert, delete, Distinct, lookup-insert, Distinct-insert}
use nostrhost_nsite.Int64.{add64, IsNat64, add64_exact}
use nostrhost_nsite.Nostr.{Event, Checks}
use nostrhost_nsite.Blossomsrv.Store.{
  Server, File, PutResult, PutIo, write_failed, put, read_upload, valid_sha, scan, new_server,
  leave_partial,
}
use nostrhost_nsite.Blossomsrv.Store.Steps.{
  Accepted, PutStep, rejected, broken, present, created, put_step, with_blob,
}

-- the bytes in the files whose name is a digest
unfoldable pub blob_bytes : List (Bytes × File) → ℕ
blob_bytes [] = 0
blob_bytes ((name, f) ∷ files) = (if valid_sha name then length f.content else 0) + blob_bytes files

pub blob_bytes-insert :
    (k : Bytes) (f : File) (m : List (Bytes × File))
    → valid_sha k ≡ true
    → lookup k m ≡ none
    → blob_bytes (insert k f m) ≡ blob_bytes m + length f.content
unfolding blob_bytes insert lookup
blob_bytes-insert k f [] named absent = ground arith
blob_bytes-insert k f ((i, g) ∷ m) named absent = ground (arith, blob_bytes-insert k f m named)

pub blob_bytes-delete :
    (k : Bytes) (f : File) (m : List (Bytes × File))
    → valid_sha k ≡ true
    → lookup k m ≡ some f
    → blob_bytes (delete k m) + length f.content ≡ blob_bytes m
unfolding blob_bytes delete lookup
blob_bytes-delete k f [] named held = cc
blob_bytes-delete k f ((i, g) ∷ m) named held =
    ground (arith, beq_iff i k, blob_bytes-delete k f m named)

scan_from :
    (info_ok : Bytes → Bool) (files : List (Bytes × File)) (used : ℕ)
    → ((k : Bytes) → valid_sha k ≡ true → info_ok k ≡ true)
    → IsNat64 (used + blob_bytes files)
    → scan info_ok files used ≡ used + blob_bytes files
unfolding scan blob_bytes
scan_from info_ok [] used ok h = omega arith
scan_from info_ok ((name, f) ∷ files) used ok h = ground (
  arith,
  ok name,
  add64_exact used (length f.content),
  scan_from info_ok files (add64 used (length f.content)) ok,
  scan_from info_ok files used ok,
)

module _ (checks : Checks) (sha256 : Bytes → Bytes) where
  -- The directory holds a name once, a file named by a digest has that digest, and `used` is the
  -- number of bytes in those files, which fits an int64.
  pub record IsConsistent (s : Server) : Type 0 where
    pub files_once : Distinct s.files
    pub addressed :
        (k : Bytes) (f : File)
        → valid_sha k ≡ true
        → lookup k s.files ≡ some f
        → encode_to_string (sha256 f.content) ≡ k
    pub counted : s.used ≡ blob_bytes s.files
    pub in_range : IsNat64 (blob_bytes s.files)

  created-IsConsistent :
      (io : PutIo) (sha : Bytes) (auth : Option Event) (s : Server) (body : Bytes)
      → IsConsistent s
      → Accepted checks sha256 io sha auth s body
      → lookup sha s.files ≡ none
      → IsNat64 (blob_bytes s.files + length body)
      → IsConsistent (with_blob checks sha256 io sha auth s body)
  created-IsConsistent io sha auth s body v a absent fits =
      let f : File = record { content = body; mod_time = io.now } in
      let digest = a.digest in
      let sum : blob_bytes (insert sha f s.files) ≡ blob_bytes s.files + length body =
        blob_bytes-insert sha f s.files a.named absent in
      let counted = v.counted in
      record {
        files_once = Distinct-insert sha f s.files v.files_once;
        addressed = λ k g named held.
            ground (arith, lookup-insert sha k f s.files, beq_iff sha k, v.addressed k g);
        counted = ground (arith, sum, add64_exact s.used (length body));
        in_range = rw sum fits;
      }

  -- `Put` keeps the store valid on every branch, unless a failed write leaves part of a file behind;
  -- the bytes that are read have to fit an int64.
  pub put-IsConsistent :
      (io : PutIo) (sha : Bytes) (auth : Option Event) (s : Server)
      → IsConsistent s
      → ((part : Bytes) → io.write ≢ write_failed (some part))
      → ((body : Bytes)
          → read_upload s.max_blob io.stream ≡ some body
          → IsNat64 (blob_bytes s.files + length body))
      → IsConsistent (put checks sha256 io sha auth s).0
  put-IsConsistent io sha auth s v clean fits = go (put_step checks sha256 io sha auth s)
    where
      partial :
          (part : Option Bytes)
          → io.write ≡ write_failed part
          → IsConsistent (leave_partial io.now sha part s)
      partial none e = v
      partial (some part) e = absurd (clean part e)

      go : {r : Server × PutResult} → PutStep checks sha256 io sha auth s r → IsConsistent r.0
      go (rejected e _) = v
      go (broken body part a absent e) = partial part e
      go (present body a held) = v
      go (created body a absent room) =
          created-IsConsistent io sha auth s body v a (ground arith) (fits body a.read)

  -- A server built over a directory that holds each name once and whose digest-named files have
  -- their digest, where `e.Info()` fails for none of these and their bytes fit an int64, is valid: the
  -- scan counts exactly the bytes in those files.
  pub new_server-IsConsistent :
      (dir : Bytes) (dir_ok : Bool) (info_ok : Bytes → Bool) (quota max_blob retain : ℕ)
      (allow : List Bytes) (files : List (Bytes × File)) (s : Server)
      → new_server dir dir_ok info_ok quota max_blob retain allow files ≡ some s
      → ((k : Bytes) → valid_sha k ≡ true → info_ok k ≡ true)
      → Distinct files
      → ((k : Bytes) (f : File)
          → valid_sha k ≡ true
          → lookup k files ≡ some f
          → encode_to_string (sha256 f.content) ≡ k)
      → IsNat64 (blob_bytes files)
      → IsConsistent s
  unfolding new_server
  new_server-IsConsistent dir dir_ok info_ok quota max_blob retain allow files s h infos once named
        fits =
      elim (Bool-cases (beq dir [] || not dir_ok)) [
        | inl bad ↦ absurd (none_ne_some (rw bad at h))
        | inr good ↦ subst IsConsistent (some_inj (rw good at h)) (record {
          files_once = once;
          addressed = named;
          counted = omega (arith, scan_from info_ok files 0 infos (omega arith));
          in_range = fits;
        })
      ]
