-- ===== src/Blossomsrv/Store/Steps.antt =====
-- The branches of `Put` of internal/blossomsrv/server.go.
use nostrhost_nsite.Prelude.{
  ◌≡◌, ◌≢◌, ◌∙◌, ap, refl, true, false, ◌&&◌, Option, none, some, length, Bytes, beq, beq→eq, arith,
  Bool-cases, inl, inr,
}
use nostrhost_nsite.Hex.{encode_to_string}
use nostrhost_nsite.Assoc.{lookup, insert}
use nostrhost_nsite.Int64.{add64, ltb64}
use nostrhost_nsite.Nostr.{Event, Checks}
use nostrhost_nsite.Blossomsrv.Store.{
  Server, PutError, PutResult, stored, refused, invalid_sha, read_error, too_large, hash_mismatch,
  quota_exceeded, write_error, PutIo, WriteResult, written, write_failed, put, put_authorized,
  put_read, commit, authorize, read_upload, valid_sha, is_some, leave_partial, write_file,
}

no_write_error :
    (checks : Checks) (s : Server) (auth : Option Event) (sha : Bytes)
    → authorize checks s auth sha ≢ some write_error
unfolding authorize
no_write_error checks s none sha h = cc
no_write_error checks s (some ev) sha h = ground arith

module _ (checks : Checks) (sha256 : Bytes → Bytes) (io : PutIo) (sha : Bytes) (auth : Option Event)
    (s : Server) where
  -- What is known of an upload that gets as far as the mutex.
  pub record Accepted (body : Bytes) : Type 0 where
    pub named : valid_sha sha ≡ true
    pub authorized : authorize checks s auth sha ≡ none
    pub read : read_upload s.max_blob io.stream ≡ some body
    pub small : (ltb64 0 s.max_blob && ltb64 s.max_blob (length body)) ≡ false
    pub digest : encode_to_string (sha256 body) ≡ sha

  abbrev pub with_blob : Bytes → Server
  with_blob body = record s {
    files = insert sha (record { content = body; mod_time = io.now }) s.files;
    used = add64 s.used (length body);
  }

  pub data PutStep : Server × PutResult → Type 0 where
    rejected : (e : PutError) → e ≢ write_error → PutStep (s, refused e)
    broken :
        (body : Bytes) (part : Option Bytes)
        → Accepted body
        → is_some (lookup sha s.files) ≡ false
        → io.write ≡ write_failed part
        → PutStep (leave_partial io.now sha part s, refused write_error)
    present :
        (body : Bytes)
        → Accepted body
        → is_some (lookup sha s.files) ≡ true
        → PutStep (s, stored (length body))
    created :
        (body : Bytes)
        → Accepted body
        → is_some (lookup sha s.files) ≡ false
        → (ltb64 0 s.quota && ltb64 s.quota (add64 s.used (length body))) ≡ false
        → PutStep (with_blob body, stored (length body))

  write_step :
      (body : Bytes) (w : WriteResult)
      → Accepted body
      → io.write ≡ w
      → is_some (lookup sha s.files) ≡ false
      → (ltb64 0 s.quota && ltb64 s.quota (add64 s.used (length body))) ≡ false
      → PutStep (write_file io sha body w s)
  write_step body written a e absent room = created body a absent room
  write_step body (write_failed part) a e absent room = broken body part a absent e

  commit_step : (body : Bytes) → Accepted body → PutStep (commit io sha body s)
  unfolding commit
  commit_step body a = elim (Bool-cases (is_some (lookup sha s.files))) [
    | inl held ↦ rw held (present body a held)
    | inr absent ↦
        elim (Bool-cases (ltb64 0 s.quota && ltb64 s.quota (add64 s.used (length body)))) [
          | inl full ↦ rw (absent, full) (rejected quota_exceeded (λ e. cc))
          | inr room ↦ rw (absent, room) (write_step body io.write a refl absent room)
        ]
  ]

  read_step :
      (o : Option Bytes)
      → valid_sha sha ≡ true
      → authorize checks s auth sha ≡ none
      → read_upload s.max_blob io.stream ≡ o
      → PutStep (put_read checks sha256 io sha o s)
  unfolding put_read
  read_step none named ok read = rejected read_error (λ e. cc)
  read_step (some body) named ok read =
      elim (Bool-cases (ltb64 0 s.max_blob && ltb64 s.max_blob (length body))) [
        | inl large ↦ rw large (rejected too_large (λ e. cc))
        | inr small ↦ elim (Bool-cases (beq (encode_to_string (sha256 body)) sha)) [
          | inr bad ↦ rw (small, bad) (rejected hash_mismatch (λ e. cc))
          | inl good ↦
              rw (small, good)
                (commit_step body (record {
                  named = named;
                  authorized = ok;
                  read = read;
                  small = small;
                  digest = beq→eq _ _ good;
                }))
        ]
      ]

  authorize-ne-write_error : authorize checks s auth sha ≢ some write_error
  authorize-ne-write_error = no_write_error checks s auth sha

  authorized_step :
      (o : Option PutError)
      → valid_sha sha ≡ true
      → authorize checks s auth sha ≡ o
      → PutStep (put_authorized checks sha256 io sha o s)
  unfolding put_authorized
  authorized_step (some e) named ok =
      rejected e (λ same. authorize-ne-write_error (ok ∙ ap (λ (x : PutError). some x) same))
  authorized_step none named ok = read_step (read_upload s.max_blob io.stream) named ok refl

  pub put_step : PutStep (put checks sha256 io sha auth s)
  unfolding put
  put_step = elim (Bool-cases (valid_sha sha)) [
    | inr bad ↦ rw bad (rejected invalid_sha (λ e. cc))
    | inl named ↦ rw named (authorized_step (authorize checks s auth sha) named refl)
  ]
