-- ===== src/Server/Verified.antt =====
-- What internal/server/server.go serves of a blob: the bytes have the digest that the manifest names.
use nostrhost_nsite.Prelude.{
  ℕ, ◌≡◌, refl, sym, ◌∙◌, ◌⊎◌, inl, inr, true, false, List, [], ◌∷◌, ◌&&◌, some, arith, Bytes,
  codes, beq, Bool-cases, Option-cases, if◌then◌else◌,
}
use nostrhost_nsite.Hex.{encode_to_string}
use nostrhost_nsite.Http.{Request, Response, not_found}
use nostrhost_nsite.Nostr.{Event}
use nostrhost_nsite.Server.Hosts.{Unicode}
use nostrhost_nsite.Server.Handlers.{
  FetchResult, failed, fetched, Backends, State, serve_bytes, etag_of,
}
use nostrhost_nsite.Server.Serving.{
  fetch_loop, fetch_first, choose_servers, serve_cached, serve_fetched, serve_blob,
}

-- The response is the bounded 404, says that the client's copy is right, or has the given status and
-- a body of this digest.
pub data IsVerified (sha256 : Bytes → Bytes) (sha : Bytes) (status : ℕ) : Response → Type 0 where
  missing : IsVerified sha256 sha status not_found
  unchanged : {r : Response} → r.status ≡ 304 → r.body ≡ [] → IsVerified sha256 sha status r
  served :
      {r : Response}
      → r.status ≡ status
      → encode_to_string (sha256 r.body) ≡ sha
      → IsVerified sha256 sha status r

FetchResult-cases :
    (f : FetchResult) → ((class : Bytes) × (f ≡ failed class)) ⊎ ((b : Bytes) × (f ≡ fetched b))
FetchResult-cases (failed class) = inl (class, refl)
FetchResult-cases (fetched b) = inr (b, refl)

module _ {W : Type 0} (sha256 : Bytes → Bytes) (unicode : Unicode) (be : Backends W) where
  serve_bytes-IsVerified :
      (r : Request) (sha path body : Bytes) (status : ℕ) (st : State W)
      → encode_to_string (sha256 body) ≡ sha
      → IsVerified sha256 sha status (serve_bytes unicode r sha path body status st).1
  unfolding serve_bytes
  serve_bytes-IsVerified r sha path body status st h =
      elim (Bool-cases (beq r.if_none_match (etag_of sha))) [
        | inl y ↦ rw y (IsVerified.unchanged refl refl)
        | inr n ↦ rw n (IsVerified.served refl h)
      ]

  fetch_loop-fetched :
      (last server sha : Bytes) (servers : List Bytes) (w : W) (body : Bytes)
      → (be.fetch server sha w).1 ≡ fetched body
      → (fetch_loop unicode be last (server ∷ servers) sha w).1 ≡ fetched body
  unfolding fetch_loop
  fetch_loop-fetched last server sha servers w body e = rw (e, fetch_loop) refl

  fetch_loop-failed :
      (last server sha class : Bytes) (servers : List Bytes) (w : W)
      → (be.fetch server sha w).1 ≡ failed class
      → (fetch_loop unicode be last (server ∷ servers) sha w).1
        ≡ (fetch_loop unicode be class servers sha (be.fetch server sha w).0).1
  unfolding fetch_loop
  fetch_loop-failed last server sha class servers w e = rw (e, fetch_loop) refl

  fetch_loop_verified :
      ((server sha : Bytes) (w : W) (body : Bytes)
        → (be.fetch server sha w).1 ≡ fetched body
        → encode_to_string (sha256 body) ≡ sha)
      → (last : Bytes) (servers : List Bytes) (sha : Bytes) (w : W) (body : Bytes)
      → (fetch_loop unicode be last servers sha w).1 ≡ fetched body
      → encode_to_string (sha256 body) ≡ sha
  fetch_loop_verified law last [] sha w body h = absurd (unfold fetch_loop in ground arith)
  fetch_loop_verified law last (server ∷ servers) sha w body h =
      elim (FetchResult-cases (be.fetch server sha w).1) [
        | inl (class, e) ↦
            fetch_loop_verified law class servers sha (be.fetch server sha w).0 body
              (sym (fetch_loop-failed last server sha class servers w e) ∙ h)
        | inr (got, e) ↦
            law server sha w body
              (e ∙ (sym (fetch_loop-fetched last server sha servers w got e) ∙ h))
      ]

  fetch_first_verified :
      ((server sha : Bytes) (w : W) (body : Bytes)
        → (be.fetch server sha w).1 ≡ fetched body
        → encode_to_string (sha256 body) ≡ sha)
      → (servers : List Bytes) (sha : Bytes) (w : W) (body : Bytes)
      → (fetch_first unicode be servers sha w).1 ≡ fetched body
      → encode_to_string (sha256 body) ≡ sha
  unfolding fetch_first
  fetch_first_verified law servers sha w body h =
      (elim be.has_fetcher
          as (λ b.
            (if b
                then fetch_loop unicode be (codes "network") servers sha w
                else (w, failed (codes "network"))).1
              ≡ fetched body
            → encode_to_string (sha256 body) ≡ sha) [
              | true ↦ λ k. fetch_loop_verified law (codes "network") servers sha w body k
              | false ↦ λ k. absurd (ground arith)
            ])
        h

  serve_cached-IsVerified :
      (r : Request) (sha path : Bytes) (status : ℕ) (st : State W)
      → ((body : Bytes)
          → (be.blob_open sha st.world).1 ≡ some body
          → encode_to_string (sha256 body) ≡ sha)
      → IsVerified sha256 sha status (serve_cached unicode be r sha path status st).1
  unfolding serve_cached
  serve_cached-IsVerified r sha path status st law =
      elim (Option-cases (be.blob_open sha st.world).1) [
        | inl e ↦ rw (e, serve_cached) IsVerified.missing
        | inr (body, e) ↦
            rw (e, serve_cached) (serve_bytes-IsVerified r sha path body status _ (law body e))
      ]

  serve_fetched-IsVerified :
      (r : Request) (sha path : Bytes) (status : ℕ) (got : FetchResult) (st : State W)
      → ((body : Bytes) → got ≡ fetched body → encode_to_string (sha256 body) ≡ sha)
      → IsVerified sha256 sha status (serve_fetched unicode be r sha path status got st).1
  serve_fetched-IsVerified r sha path status (failed class) st law = IsVerified.missing
  serve_fetched-IsVerified r sha path status (fetched []) st law = IsVerified.missing
  serve_fetched-IsVerified r sha path status (fetched (b ∷ body)) st law =
      serve_bytes-IsVerified r sha path (b ∷ body) status _ (law (b ∷ body) refl)

  pub serve_blob-IsVerified_law :
      (r : Request) (event : Event) (sha path : Bytes) (status : ℕ) (st : State W)
      → ((server sha : Bytes) (w : W) (body : Bytes)
          → (be.fetch server sha w).1 ≡ fetched body
          → encode_to_string (sha256 body) ≡ sha)
      → ((body : Bytes)
          → (be.blob_open sha st.world).1 ≡ some body
          → encode_to_string (sha256 body) ≡ sha)
      → IsVerified sha256 sha status (serve_blob unicode be r event sha path status st).1
  unfolding serve_blob
  serve_blob-IsVerified_law r event sha path status st fetch_law open_law =
      elim (Bool-cases (be.has_blobs && be.blob_has sha st.world)) [
        | inl y ↦ rw y (serve_cached-IsVerified r sha path status _ open_law)
        | inr n ↦
            let chosen = choose_servers unicode be event st.world in
            rw n (
              serve_fetched-IsVerified r sha path status _ _
                (fetch_first_verified fetch_law chosen.1 sha chosen.0))
      ]

  -- With a fetcher and a cache that hand out only what has the digest asked for, `serveBlob` answers
  -- with a bounded 404, with 304, or with the given status and bytes of the digest of the path.
  pub serve_blob-IsVerified :
      (r : Request) (event : Event) (sha path : Bytes) (status : ℕ) (st : State W)
      → ((server sha : Bytes) (w : W) (body : Bytes)
          → (be.fetch server sha w).1 ≡ fetched body
          → encode_to_string (sha256 body) ≡ sha)
      → ((sha : Bytes) (w : W) (body : Bytes)
          → (be.blob_open sha w).1 ≡ some body
          → encode_to_string (sha256 body) ≡ sha)
      → IsVerified sha256 sha status (serve_blob unicode be r event sha path status st).1
  serve_blob-IsVerified r event sha path status st fetch_law open_law =
      serve_blob-IsVerified_law r event sha path status st fetch_law (open_law sha st.world)
