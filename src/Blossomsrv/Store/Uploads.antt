-- ===== src/Blossomsrv/Store/Uploads.antt =====
-- What an accepted upload means in internal/blossomsrv/server.go.
use nostrhost_nsite.Prelude.{
  ℕ, ◌+◌, ◌≤◌, ◌<◌, ◌≡◌, ◌≢◌, refl, ◌⊎◌, true, false, ◌&&◌, Option, none, some, length, Bytes,
  beq_self, arith, Bool-cases, Option-cases, inl, inr, ltb,
}
use nostrhost_nsite.Hex.{encode_to_string}
use nostrhost_nsite.Assoc.{lookup, insert, lookup-insert}
use nostrhost_nsite.Int64.{add64, ltb64, IsNat64, add64_exact, ltb64_exact}
use nostrhost_nsite.Nostr.{Event, Checks}
use nostrhost_nsite.Blossomsrv.Store.{
  Server, File, PutResult, stored, refused, write_error, PutIo, write_failed, put, read_upload,
  valid_sha, is_some, get, leave_partial, used_bytes,
}
use nostrhost_nsite.Blossomsrv.Store.Auth.{IsAdmitted, authorize_iff}
use nostrhost_nsite.Blossomsrv.Store.Steps.{PutStep, rejected, broken, present, created, put_step}
use nostrhost_nsite.Blossomsrv.Store.Invariant.{IsConsistent, blob_bytes, put-IsConsistent}

module _ (checks : Checks) (sha256 : Bytes → Bytes) where
  -- What a successful `Put` of `n` bytes tells.
  pub record IsStored (sha : Bytes) (auth : Option Event) (s s' : Server) (n : ℕ) : Type 0 where
    pub event : Event
    pub sent : auth ≡ some event
    pub admitted : IsAdmitted checks s event sha
    pub body : Bytes
    pub size : n ≡ length body
    pub digest : encode_to_string (sha256 body) ≡ sha
    pub within : (s.max_blob ≡ 0) ⊎ (length body ≤ s.max_blob)
    pub file : Bytes
    pub served : get true sha s' ≡ some file
    pub file_digest : encode_to_string (sha256 file) ≡ sha

  within_cap :
      (s : Server) (body : Bytes)
      → IsNat64 s.max_blob
      → IsNat64 (length body)
      → (ltb64 0 s.max_blob && ltb64 s.max_blob (length body)) ≡ false
      → (s.max_blob ≡ 0) ⊎ (length body ≤ s.max_blob)
  within_cap s body q l h = elim (Bool-cases (ltb 0 s.max_blob)) [
    | inl capped ↦
        inr (ground (arith, ltb64_exact 0 s.max_blob, ltb64_exact s.max_blob (length body)))
    | inr no_cap ↦ inl (ground arith)
  ]

  get_file :
      (sha : Bytes) (s : Server) (f : File)
      → valid_sha sha ≡ true
      → lookup sha s.files ≡ some f
      → get true sha s ≡ some f.content
  unfolding get
  get_file sha s f named e = rw (named, e) refl

  get_held :
      (sha : Bytes) (s : Server)
      → valid_sha sha ≡ true
      → IsConsistent checks sha256 s
      → is_some (lookup sha s.files) ≡ true
      → (file : Bytes) × (get true sha s ≡ some file) × (encode_to_string (sha256 file) ≡ sha)
  unfolding get
  get_held sha s named v held = elim (Option-cases (lookup sha s.files)) [
    | inl absent ↦ cc
    | inr (f, e) ↦ (f.content, rw (named, e) refl, v.addressed sha f named e)
  ]

  get_created :
      (sha body : Bytes) (io : PutIo) (auth : Option Event) (s s' : Server)
      → valid_sha sha ≡ true
      → s'.files ≡ insert sha (record { content = body; mod_time = io.now }) s.files
      → get true sha s' ≡ some body
  unfolding get
  get_created sha body io auth s s' named e = rw (named, e, lookup-insert, beq_self) refl

  pub put_stored :
      (io : PutIo) (sha : Bytes) (auth : Option Event) (s : Server) (n : ℕ)
      → IsConsistent checks sha256 s
      → IsNat64 s.max_blob
      → ((body : Bytes) → read_upload s.max_blob io.stream ≡ some body → IsNat64 (length body))
      → (put checks sha256 io sha auth s).1 ≡ stored n
      → IsStored sha auth s (put checks sha256 io sha auth s).0 n
  put_stored io sha auth s n v cap fits = go (put_step checks sha256 io sha auth s)
    where
      go :
          {r : Server × PutResult}
          → PutStep checks sha256 io sha auth s r
          → r.1 ≡ stored n
          → IsStored sha auth s r.0 n
      go (rejected e _) h = cc
      go (broken body part a absent e) h = cc
      go (present body a held) h =
          let (ev, sent, ok) = (authorize_iff checks s auth sha).0 a.authorized in
          let (file, served, file_digest) = get_held sha s a.named v held in
          record {
            event = ev;
            sent = sent;
            admitted = ok;
            body = body;
            size = cc;
            digest = a.digest;
            within = within_cap s body cap (fits body a.read) a.small;
            file = file;
            served = served;
            file_digest = file_digest;
          }
      go (created body a absent room) h =
          let (ev, sent, ok) = (authorize_iff checks s auth sha).0 a.authorized in
          record {
            event = ev;
            sent = sent;
            admitted = ok;
            body = body;
            size = cc;
            digest = a.digest;
            within = within_cap s body cap (fits body a.read) a.small;
            file = body;
            served = get_created sha body io auth s _ a.named refl;
            file_digest = a.digest;
          }

  uploaded :
      (io : PutIo) (sha : Bytes) (auth : Option Event) (s : Server)
      → IsNat64 s.quota
      → 0 < s.quota
      → IsNat64 (blob_bytes s.files)
      → ((body : Bytes)
          → read_upload s.max_blob io.stream ≡ some body
          → IsNat64 (blob_bytes s.files + length body))
      → s.used ≡ blob_bytes s.files
      → s.used ≤ s.quota
      → (put checks sha256 io sha auth s).0.used ≤ s.quota
  uploaded io sha auth s q pos range fits counted within = go (put_step checks sha256 io sha auth s)
    where
      go : {r : Server × PutResult} → PutStep checks sha256 io sha auth s r → r.0.used ≤ s.quota
      go (rejected e _) = within
      go (broken body none a absent e) = within
      go (broken body (some part) a absent e) = within
      go (present body a held) = within
      go (created body a absent room) =
          let small = fits body a.read in
          let exact : add64 s.used (length body) ≡ s.used + length body =
            add64_exact s.used (length body) (omega arith) in
          ground
            (arith, exact, ltb64_exact 0 s.quota, ltb64_exact s.quota (add64 s.used (length body)))

  -- Where there is a quota, no upload takes the bytes in the blobs of a store that is within it
  -- beyond it, whatever the outcome, nor the account that `Used` reports. The store is valid before,
  -- sizes fit an int64, and a write that fails leaves nothing behind.
  pub put_within_quota :
      (io : PutIo) (sha : Bytes) (auth : Option Event) (s : Server)
      → IsConsistent checks sha256 s
      → 0 < s.quota
      → IsNat64 s.quota
      → ((part : Bytes) → io.write ≢ write_failed (some part))
      → ((body : Bytes)
          → read_upload s.max_blob io.stream ≡ some body
          → IsNat64 (blob_bytes s.files + length body))
      → blob_bytes s.files ≤ s.quota
      → (blob_bytes (put checks sha256 io sha auth s).0.files ≤ s.quota)
        × (used_bytes (put checks sha256 io sha auth s).0 ≤ s.quota)
  put_within_quota io sha auth s v pos q clean fits within =
      let counted = v.counted in
      let after = (put-IsConsistent checks sha256 io sha auth s v clean fits).counted in
      let used = uploaded io sha auth s q pos v.in_range fits v.counted (omega arith) in
      (omega (arith, after, used), used)

  partial_step :
      (io : PutIo) (sha part : Bytes) (auth : Option Event) (s : Server)
      → io.write ≡ write_failed (some part)
      → (put checks sha256 io sha auth s).1 ≡ refused write_error
      → (valid_sha sha ≡ true)
        × ((put checks sha256 io sha auth s).0 ≡ leave_partial io.now sha (some part) s)
  partial_step io sha part auth s fails = go (put_step checks sha256 io sha auth s)
    where
      go :
          {r : Server × PutResult}
          → PutStep checks sha256 io sha auth s r
          → r.1 ≡ refused write_error
          → (valid_sha sha ≡ true) × (r.0 ≡ leave_partial io.now sha (some part) s)
      go (rejected e other) h = absurd (other cc)
      go (broken body none a absent e) h = cc
      go (broken body (some left) a absent e) h =
          let same : left ≡ part = cc in (a.named, rw same refl)
      go (present body a held) h = cc
      go (created body a absent room) h = cc

  held_unchanged :
      (io : PutIo) (sha : Bytes) (auth : Option Event) (s : Server) (n : ℕ)
      → is_some (lookup sha s.files) ≡ true
      → (put checks sha256 io sha auth s).1 ≡ stored n
      → (put checks sha256 io sha auth s).0 ≡ s
  held_unchanged io sha auth s n held = go (put_step checks sha256 io sha auth s)
    where
      go :
          {r : Server × PutResult}
          → PutStep checks sha256 io sha auth s r
          → r.1 ≡ stored n
          → r.0 ≡ s
      go (rejected e _) h = cc
      go (broken body part a absent e) h = cc
      go (present body a _) h = refl
      go (created body a absent room) h = cc

  -- A write that fails part of the way leaves a file that the store takes for the blob: if an upload
  -- fails so, `Get` serves the part that was left, and every later upload of that name that reports
  -- success has written nothing.
  pub put_partial_write :
      (io io' : PutIo) (sha part : Bytes) (auth auth' : Option Event) (s : Server) (n : ℕ)
      → io.write ≡ write_failed (some part)
      → (put checks sha256 io sha auth s).1 ≡ refused write_error
      → (put checks sha256 io' sha auth' (put checks sha256 io sha auth s).0).1 ≡ stored n
      → (get true sha (put checks sha256 io sha auth s).0 ≡ some part)
        × ((put checks sha256 io' sha auth' (put checks sha256 io sha auth s).0).0
            ≡ (put checks sha256 io sha auth s).0)
  put_partial_write io io' sha part auth auth' s n fails h again =
      let (named, left) = partial_step io sha part auth s fails h in
      let held : lookup sha (put checks sha256 io sha auth s).0.files
          ≡ some (record { content = part; mod_time = io.now }) =
        rw (left, lookup-insert, beq_self) refl in
      (
        get_file sha _ _ named held,
        held_unchanged io' sha auth' (put checks sha256 io sha auth s).0 n (rw held refl) again,
      )
