-- ===== src/Blossomsrv/Handlers/Answers.antt =====
-- What the handlers of internal/blossomsrv/server.go answer, and what they change.
use mathlib.Core.Path.{subst}
use nostrhost_nsite.Prelude.{
  ℕ, some_inj, ◌≡◌, refl, sym, inl, inr, true, false, ◌||◌, ◌∷◌, some, arith, length, Bytes, codes,
  beq, beq_iff, has_prefix, trim_prefix, Bool-cases,
}
use nostrhost_nsite.Hex.{encode_to_string}
use nostrhost_nsite.Int64.{IsNat64}
use nostrhost_nsite.Http.{Response}
use nostrhost_nsite.Nostr.{Event, Checks}
use nostrhost_nsite.Blossomsrv.Store.{
  Server, valid_sha, get, PutResult, stored, refused, PutIo, put, read_upload,
}
use nostrhost_nsite.Blossomsrv.Store.Auth.{IsAdmitted}
use nostrhost_nsite.Blossomsrv.Store.Invariant.{IsConsistent}
use nostrhost_nsite.Blossomsrv.Store.Uploads.{put_stored}
use nostrhost_nsite.Blossomsrv.Handlers.{
  Request, Outside, Parsed, bad, good, parse_auth_header, handle_blob, upload_answer, upload_parsed,
  handle_upload,
}

module _ (out : Outside) (checks : Checks) (sha256 : Bytes → Bytes) where
  -- The upload went through: its event was sent, and `Put` reports the bytes stored.
  pub record IsUploaded (io : PutIo) (r : Request) (s : Server) (res : Server × Response)
      : Type 0 where
    pub event : Event
    pub size : ℕ
    pub sent : parse_auth_header out r.authorization ≡ good event
    pub is_put : r.method ≡ codes "PUT"
    pub is_named : valid_sha r.query_sha256 ≡ true
    pub done : (put checks sha256 io r.query_sha256 (some event) s).1 ≡ stored size
    pub changed : res.0 ≡ (put checks sha256 io r.query_sha256 (some event) s).0

  upload_answer-IsUploaded :
      (io : PutIo) (r : Request) (s : Server) (ev : Event)
      → parse_auth_header out r.authorization ≡ good ev
      → r.method ≡ codes "PUT"
      → valid_sha r.query_sha256 ≡ true
      → (upload_parsed out checks sha256 io r r.query_sha256 (good ev) s).1.status ≡ 200
      → IsUploaded io r s (upload_parsed out checks sha256 io r r.query_sha256 (good ev) s)
  upload_answer-IsUploaded io r s ev sent is_put named h =
      go (put checks sha256 io r.query_sha256 (some ev) s).1 refl h
    where
      go :
          (res : PutResult)
          → (put checks sha256 io r.query_sha256 (some ev) s).1 ≡ res
          → (upload_answer out checks sha256 r r.query_sha256 (some ev) s res).status ≡ 200
          → IsUploaded io r s (upload_parsed out checks sha256 io r r.query_sha256 (good ev) s)
      go (refused e) same k = absurd (omega arith)
      go (stored n) same k = record {
        event = ev;
        size = n;
        sent = sent;
        is_put = is_put;
        is_named = named;
        done = same;
        changed = refl;
      }

  upload_parsed-IsUploaded :
      (io : PutIo) (r : Request) (s : Server) (parsed : Parsed)
      → parse_auth_header out r.authorization ≡ parsed
      → r.method ≡ codes "PUT"
      → valid_sha r.query_sha256 ≡ true
      → (upload_parsed out checks sha256 io r r.query_sha256 parsed s).1.status ≡ 200
      → IsUploaded io r s (upload_parsed out checks sha256 io r r.query_sha256 parsed s)
  upload_parsed-IsUploaded io r s (bad message) sent is_put named h = absurd (omega arith)
  upload_parsed-IsUploaded io r s (good ev) sent is_put named h =
      upload_answer-IsUploaded io r s ev sent is_put named h

  handle_upload-IsUploaded :
      (io : PutIo) (r : Request) (s : Server)
      → (handle_upload out checks sha256 io r s).1.status ≡ 200
      → IsUploaded io r s (handle_upload out checks sha256 io r s)
  unfolding handle_upload
  handle_upload-IsUploaded io r s h = elim (Bool-cases (beq r.method (codes "PUT"))) [
    | inr n ↦ absurd (omega (arith, rw n at h))
    | inl y ↦ elim (Bool-cases (valid_sha r.query_sha256)) [
      | inr n ↦ absurd (omega (arith, rw (y, n) at h))
      | inl named ↦
          rw (y, named)
            (upload_parsed-IsUploaded io r s _ refl ((beq_iff r.method (codes "PUT")).0 y) named
              (rw (y, named) at h))
    ]
  ]

  after_slash : (sha : Bytes) → trim_prefix (b'/' ∷ sha) (codes "/") ≡ sha
  unfolding trim_prefix has_prefix
  after_slash sha = refl

  get_method : (beq (codes "GET") (codes "GET") || beq (codes "GET") (codes "HEAD")) ≡ true
  unfolding beq
  get_method = refl

  get_not_head : beq (codes "GET") (codes "HEAD") ≡ false
  unfolding beq
  get_not_head = refl

  handle_blob-get :
      (r : Request) (sha body : Bytes) (s : Server)
      → r.method ≡ codes "GET"
      → r.path ≡ b'/' ∷ sha
      → valid_sha sha ≡ true
      → get true sha s ≡ some body
      → ((handle_blob true r s).status ≡ 200) × ((handle_blob true r s).body ≡ body)
  unfolding handle_blob
  handle_blob-get r sha body s m p named e =
      rw (m, p, after_slash sha, get_method, named, e, get_not_head) (refl, refl)

  -- After an upload that is answered with 200, a request for the digest is answered with 200 and
  -- bytes of that digest, and the upload came with a signed event of an admitted key that names the
  -- digest. The store is consistent before, and sizes fit an int64.
  pub handle_upload-handle_blob :
      (io : PutIo) (r r' : Request) (s : Server)
      → IsConsistent checks sha256 s
      → IsNat64 s.max_blob
      → ((body : Bytes) → read_upload s.max_blob io.stream ≡ some body → IsNat64 (length body))
      → (handle_upload out checks sha256 io r s).1.status ≡ 200
      → r'.method ≡ codes "GET"
      → r'.path ≡ b'/' ∷ r.query_sha256
      → ((handle_blob true r' (handle_upload out checks sha256 io r s).0).status ≡ 200)
        × (encode_to_string
              (sha256 (handle_blob true r' (handle_upload out checks sha256 io r s).0).body)
            ≡ r.query_sha256)
        × ((ev : Event) × (parse_auth_header out r.authorization ≡ good ev)
            × IsAdmitted checks s ev r.query_sha256)
  handle_upload-handle_blob io r r' s v cap sizes h m p =
      let up = handle_upload-IsUploaded io r s h in
      let kept =
        put_stored checks sha256 io r.query_sha256 (some up.event) s up.size v cap sizes up.done in
      let served : get true r.query_sha256 (handle_upload out checks sha256 io r s).0
          ≡ some kept.file =
        subst (λ t. get true r.query_sha256 t ≡ some kept.file) (sym up.changed) kept.served in
      let (status, body) = handle_blob-get r' r.query_sha256 kept.file _ m p up.is_named served in
      (
        status,
        subst (λ b. encode_to_string (sha256 b) ≡ r.query_sha256) (sym body) kept.file_digest,
        (
          up.event,
          up.sent,
          subst (λ ev. IsAdmitted checks s ev r.query_sha256) (sym (some_inj kept.sent))
              kept.admitted,
        ),
      )
