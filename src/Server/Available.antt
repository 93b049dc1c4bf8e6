-- ===== src/Server/Available.antt =====
-- When a site's path is answered with its page by internal/server/server.go: a Blossom server of the
-- list that has the blob is enough.
use nostrhost_nsite.Prelude.{
  ℕ, ◌≡◌, ◌≢◌, refl, sym, ap, ◌∙◌, ◌⊎◌, inl, inr, true, false, not, ◌&&◌, List, [], ◌∷◌, none, some,
  arith, if◌then◌else◌, Bytes, codes, beq, beq_iff, member, Bool-cases,
}
use nostrhost_nsite.Hex.{encode_to_string}
use nostrhost_nsite.Assoc.{lookup}
use nostrhost_nsite.Http.{Request, Response, not_found}
use nostrhost_nsite.Nostr.{Event}
use nostrhost_nsite.Nip5a.Label.{Site}
use nostrhost_nsite.Server.Hosts.{Unicode}
use nostrhost_nsite.Server.Handlers.{
  FetchResult, failed, fetched, Backends, State, serve_bytes, path_map, etag_of,
}
use nostrhost_nsite.Server.Serving.{
  fetch_loop, fetch_first, choose_servers, serve_fetched, serve_blob, serve_path, serve_site,
}
use nostrhost_nsite.Server.Steps.{serve_found_blob, serve_path-some}

FetchResult-cases :
    (x : FetchResult)
    → ((body : Bytes) × (x ≡ fetched body)) ⊎ ((class : Bytes) × (x ≡ failed class))
FetchResult-cases (fetched body) = inl (body, refl)
FetchResult-cases (failed class) = inr (class, refl)

fetched_ne_failed : {body class : Bytes} → fetched body ≡ failed class → ⊥
fetched_ne_failed h = ground arith

module _ {W : Type 0} (sha256 : Bytes → Bytes) (unicode : Unicode) (be : Backends W) where
  -- The server has the blob, whatever the state.
  abbrev pub Delivers : Bytes → Bytes → Type 0
  Delivers server sha = (w : W) → (body : Bytes) × ((be.fetch server sha w).1 ≡ fetched body)

  no_member : (k : Bytes) → member k [] ≡ true → ⊥
  unfolding member
  no_member k h = cc

  fetch_loop-Delivers :
      (server : Bytes) (servers : List Bytes) (last sha : Bytes) (w : W)
      → member server servers ≡ true
      → Delivers server sha
      → (body : Bytes) × ((fetch_loop unicode be last servers sha w).1 ≡ fetched body)
  unfolding fetch_loop member
  fetch_loop-Delivers server [] last sha w m has = absurd (no_member server m)
  fetch_loop-Delivers server (s ∷ servers) last sha w m has =
      elim (FetchResult-cases (be.fetch s sha w).1) [
        | inl (body, e) ↦ (body, rw (e, fetch_loop) refl)
        | inr (class, e) ↦ elim (Bool-cases (beq s server)) [
          | inl same ↦
              let (body, got) = has w in
              let is_server : s ≡ server = (beq_iff s server).0 same in
              absurd
                (fetched_ne_failed (sym got ∙ (ap (λ x. (be.fetch x sha w).1) (sym is_server) ∙ e)))
          | inr other ↦
              let (body, got) =
                fetch_loop-Delivers server servers class sha (be.fetch s sha w).0 (rw other at m)
                  has in
              (body, rw (e, fetch_loop) got)
        ]
      ]

  -- The answer is right for the blob: its bytes with the status, or 304 if the visitor has them.
  abbrev pub IsDelivered : Request → Bytes → ℕ → Response → Type 0
  IsDelivered r sha status res =
      (body : Bytes) × (encode_to_string (sha256 body) ≡ sha)
      × (res.status ≡ (if beq r.if_none_match (etag_of sha) then 304 else status))
      × (res.body ≡ (if beq r.if_none_match (etag_of sha) then [] else body))

  serve_bytes-IsDelivered :
      (r : Request) (sha path body : Bytes) (status : ℕ) (st : State W)
      → encode_to_string (sha256 body) ≡ sha
      → IsDelivered r sha status (serve_bytes unicode r sha path body status st).1
  unfolding serve_bytes
  serve_bytes-IsDelivered r sha path body status st digest =
      elim (Bool-cases (beq r.if_none_match (etag_of sha))) [
        | inl y ↦ rw y (body, digest, refl, refl)
        | inr n ↦ rw n (body, digest, refl, refl)
      ]

  serve_fetched-IsDelivered :
      (r : Request) (sha path : Bytes) (status : ℕ) (got : FetchResult) (body : Bytes)
      (st : State W)
      → encode_to_string (sha256 []) ≢ sha
      → encode_to_string (sha256 body) ≡ sha
      → got ≡ fetched body
      → IsDelivered r sha status (serve_fetched unicode be r sha path status got st).1
  serve_fetched-IsDelivered r sha path status (failed class) body st not_empty digest e =
      absurd (fetched_ne_failed (sym e))
  serve_fetched-IsDelivered r sha path status (fetched []) body st not_empty digest e =
      absurd (not_empty (ground arith))
  serve_fetched-IsDelivered r sha path status (fetched (b ∷ bs)) body st not_empty digest e =
      serve_bytes-IsDelivered r sha path (b ∷ bs) status _ (ground arith)

  -- What the backends must offer for a blob: it is not in the cache, and a server of the list
  -- delivers it, if only verified bytes are delivered and the blob is not the empty one.
  pub record CanFetch (event : Event) (sha : Bytes) (w : W) : Type 0 where
    pub server : Bytes
    pub fetcher : be.has_fetcher ≡ true
    pub not_cached : (be.has_blobs && be.blob_has sha w) ≡ false
    pub is_listed : member server (choose_servers unicode be event w).1 ≡ true
    pub delivers : Delivers server sha
    pub verifies :
        (server sha : Bytes) (w : W) (body : Bytes)
        → (be.fetch server sha w).1 ≡ fetched body
        → encode_to_string (sha256 body) ≡ sha
    pub not_empty : encode_to_string (sha256 []) ≢ sha

  fetch_loop_verified :
      (servers : List Bytes) (last sha : Bytes) (w : W) (body : Bytes)
      → ((server sha : Bytes) (w : W) (body : Bytes)
          → (be.fetch server sha w).1 ≡ fetched body
          → encode_to_string (sha256 body) ≡ sha)
      → (fetch_loop unicode be last servers sha w).1 ≡ fetched body
      → encode_to_string (sha256 body) ≡ sha
  unfolding fetch_loop
  fetch_loop_verified [] last sha w body law h = absurd (fetched_ne_failed (sym h))
  fetch_loop_verified (s ∷ servers) last sha w body law h =
      elim (FetchResult-cases (be.fetch s sha w).1) [
        | inl (b, e) ↦ law s sha w body (e ∙ rw (e, fetch_loop) at h)
        | inr (class, e) ↦
            fetch_loop_verified servers class sha (be.fetch s sha w).0 body law
              (rw (e, fetch_loop) at h)
      ]

  fetch_first-fetch_loop :
      (servers : List Bytes) (sha : Bytes) (w : W)
      → be.has_fetcher ≡ true
      → (fetch_first unicode be servers sha w).1
        ≡ (fetch_loop unicode be (codes "network") servers sha w).1
  unfolding fetch_first
  fetch_first-fetch_loop servers sha w h =
      (elim be.has_fetcher
          as (λ b.
            b ≡ true
            → (if b
                then fetch_loop unicode be (codes "network") servers sha w
                else (w, failed (codes "network"))).1
              ≡ (fetch_loop unicode be (codes "network") servers sha w).1) [
                | true ↦ λ k. refl
                | false ↦ λ k. absurd (ground arith)
              ])
        h

  serve_blob-IsDelivered :
      (r : Request) (event : Event) (sha path : Bytes) (status : ℕ) (st : State W)
      → CanFetch event sha st.world
      → IsDelivered r sha status (serve_blob unicode be r event sha path status st).1
  unfolding serve_blob
  serve_blob-IsDelivered r event sha path status st can =
      let chosen = choose_servers unicode be event st.world in
      let (body, got) =
        fetch_loop-Delivers can.server chosen.1 (codes "network") sha chosen.0 can.is_listed
          can.delivers in
      let digest =
        fetch_loop_verified chosen.1 (codes "network") sha chosen.0 body can.verifies got in
      rw can.not_cached (
        serve_fetched-IsDelivered r sha path status _ body _ can.not_empty digest
          (fetch_first-fetch_loop chosen.1 sha chosen.0 can.fetcher ∙ got))

  -- If there is no bundle store, the resolver has a manifest for a site that gives a digest for the
  -- path, which is not that of the empty blob, the blob is not in the cache, some server of the list
  -- that is chosen delivers a blob for the digest whenever it is asked, and the fetcher hands out only
  -- bytes of the digest asked for, then the visitor gets bytes of that digest: with status 200, or as
  -- 304. Servers that fail before are passed over.
  pub serve_site-IsDelivered :
      (r : Request) (site : Site) (path sha : Bytes) (event : Event) (st : State W)
      → be.has_resolver ≡ true
      → be.has_npk ≡ false
      → (be.manifest site.site_type site.hex_id site.d st.world).1 ≡ some event
      → lookup path (path_map event.tags []) ≡ some sha
      → CanFetch event sha (be.manifest site.site_type site.hex_id site.d st.world).0
      → IsDelivered r sha 200 (serve_site unicode be r site path st).1
  unfolding serve_site
  serve_site-IsDelivered r site path sha event st resolver no_npk manifest at_path can =
      (elim be.has_resolver
          as (λ b.
            b ≡ true
            → IsDelivered r sha 200
                (if not b
                  then (st, not_found)
                  else elim (be.manifest site.site_type site.hex_id site.d st.world).1
                      as (λ x. State W × Response) [
                        | none ↦ (
                          record st {
                            world = (be.manifest site.site_type site.hex_id site.d st.world).0;
                          },
                          not_found,
                        )
                        | some ev ↦ serve_path unicode be r site.site_type ev path (record st {
                          world = (be.manifest site.site_type site.hex_id site.d st.world).0;
                        })
                      ]).1) [
                        | false ↦ λ k. absurd (ground arith)
                        | true ↦ λ k. rw manifest (
                            rw
                              (serve_path-some unicode be r site.site_type path sha event _ at_path)
                              (rw
                                (serve_found_blob unicode be r site.site_type event sha path 200 _
                                  no_npk)
                                (serve_blob-IsDelivered r event sha path 200 _ can)))
                      ])
        resolver
