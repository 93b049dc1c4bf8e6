-- ===== src/Server/Composed.antt =====
-- The handlers of internal/server/server.go over any backends that keep their laws: what a site's
-- visitor is answered, and that the laws go on to hold.
use mathlib.Core.Path.{subst}
use nostrhost_nsite.Prelude.{
  ℕ, ◌≡◌, refl, sym, inl, inr, true, false, not, ◌&&◌, List, [], ◌∷◌, Option, none, some, length,
  if◌then◌else◌, Bytes, codes, beq, Bool-cases, Option-cases,
}
use nostrhost_nsite.Hex.{encode_to_string}
use nostrhost_nsite.Assoc.{lookup}
use nostrhost_nsite.Http.{Request, Response, not_found}
use nostrhost_nsite.Nostr.{Event}
use nostrhost_nsite.Nip5a.Label.{SiteType, Site}
use nostrhost_nsite.Server.Hosts.{Unicode}
use nostrhost_nsite.Server.Handlers.{
  FetchResult, failed, fetched, Backends, State, serve_bytes, path_map, server_hints, etag_of,
}
use nostrhost_nsite.Server.Serving.{
  fetch_loop, fetch_first, choose_servers, serve_cached, serve_fetched, serve_blob, serve_found,
  serve_path, serve_site,
}
use nostrhost_nsite.Server.Steps.{
  serve_found_blob, serve_path-some, serve_path-fallback, serve_path-none,
}
use nostrhost_nsite.Server.Verified.{IsVerified, serve_blob-IsVerified_law}

-- The laws of backends: an invariant of their state that every call keeps, verified bytes, and
-- manifests that are of the site asked for.
pub record Laws {W : Type 0} (sha256 : Bytes → Bytes) (be : Backends W) (Inv : W → Type 0)
    (IsFor : SiteType → Bytes → Bytes → Event → Type 0) : Type 0 where
  pub fetch_keeps : (server sha : Bytes) (w : W) → Inv w → Inv (be.fetch server sha w).0
  pub fetch_verifies :
      (server sha : Bytes) (w : W) (body : Bytes)
      → (be.fetch server sha w).1 ≡ fetched body
      → encode_to_string (sha256 body) ≡ sha
  pub open_keeps : (sha : Bytes) (w : W) → Inv w → Inv (be.blob_open sha w).0
  pub open_verifies :
      (sha : Bytes) (w : W) (body : Bytes)
      → Inv w
      → (be.blob_open sha w).1 ≡ some body
      → encode_to_string (sha256 body) ≡ sha
  pub put_keeps : (sha body : Bytes) (w : W) → Inv w → Inv (be.blob_put sha body w)
  pub servers_keeps : (pubkey : Bytes) (w : W) → Inv w → Inv (be.blossom_servers pubkey w).0
  pub manifest_keeps :
      (t : SiteType) (pubkey d : Bytes) (w : W)
      → length pubkey ≡ 64
      → Inv w
      → Inv (be.manifest t pubkey d w).0
  pub manifest_is :
      (t : SiteType) (pubkey d : Bytes) (w : W) (ev : Event)
      → length pubkey ≡ 64
      → Inv w
      → (be.manifest t pubkey d w).1 ≡ some ev
      → IsFor t pubkey d ev

-- What a visitor of a site may be answered: the bounded 404; that the own copy is right; or, of a
-- manifest for the site, the page of the path, or its page for missing paths with the status 404.
pub data IsAnswer (sha256 : Bytes → Bytes) (IsManifestFor : Event → Type 0) (path : Bytes)
    : Response → Type 0 where
  missing : IsAnswer sha256 IsManifestFor path not_found
  unchanged : {r : Response} → r.status ≡ 304 → r.body ≡ [] → IsAnswer sha256 IsManifestFor path r
  page :
      {r : Response} (ev : Event) (sha : Bytes)
      → IsManifestFor ev
      → lookup path (path_map ev.tags []) ≡ some sha
      → r.status ≡ 200
      → encode_to_string (sha256 r.body) ≡ sha
      → IsAnswer sha256 IsManifestFor path r
  fallback :
      {r : Response} (ev : Event) (sha : Bytes)
      → IsManifestFor ev
      → lookup path (path_map ev.tags []) ≡ none
      → lookup (codes "/404.html") (path_map ev.tags []) ≡ some sha
      → r.status ≡ 404
      → encode_to_string (sha256 r.body) ≡ sha
      → IsAnswer sha256 IsManifestFor path r

module _ {W : Type 0} (sha256 : Bytes → Bytes) (unicode : Unicode) (be : Backends W)
    (Inv : W → Type 0) (IsFor : SiteType → Bytes → Bytes → Event → Type 0)
    (laws : Laws sha256 be Inv IsFor) where
  fetch_loop_keeps :
      (servers : List Bytes) (last sha : Bytes) (w : W)
      → Inv w
      → Inv (fetch_loop unicode be last servers sha w).0
  unfolding fetch_loop
  fetch_loop_keeps [] last sha w v = v
  fetch_loop_keeps (server ∷ servers) last sha w v =
      elim (be.fetch server sha w).1
        as (λ answer.
          Inv
            (elim answer as (λ a. W × FetchResult) [
              | fetched body ↦ ((be.fetch server sha w).0, fetched body)
              | failed class ↦ fetch_loop unicode be class servers sha (be.fetch server sha w).0
            ]).0) [
              | fetched body ↦ laws.fetch_keeps server sha w v
              | failed class ↦
                  fetch_loop_keeps servers class sha (be.fetch server sha w).0
                    (laws.fetch_keeps server sha w v)
            ]

  fetch_first_keeps :
      (servers : List Bytes) (sha : Bytes) (w : W)
      → Inv w
      → Inv (fetch_first unicode be servers sha w).0
  unfolding fetch_first
  fetch_first_keeps servers sha w v =
      elim be.has_fetcher
        as (λ b.
          Inv
            (if b
              then fetch_loop unicode be (codes "network") servers sha w
              else (w, failed (codes "network"))).0) [
                | true ↦ fetch_loop_keeps servers (codes "network") sha w v
                | false ↦ v
              ]

  choose_servers_keeps : (event : Event) (w : W) → Inv w → Inv (choose_servers unicode be event w).0
  unfolding choose_servers
  choose_servers_keeps event w v = go (server_hints event.tags)
    where
      go :
          (hints : List Bytes)
          → Inv
              (elim hints as (λ h. W × List Bytes) [
                | [] ↦ if be.has_resolver then be.blossom_servers event.pubkey w else (w, [])
                | s ∷ ss ↦ (w, s ∷ ss)
              ]).0
      go [] =
          elim be.has_resolver
            as (λ b. Inv (if b then be.blossom_servers event.pubkey w else (w, [])).0) [
              | true ↦ laws.servers_keeps event.pubkey w v
              | false ↦ v
            ]
      go (s ∷ ss) = v

  serve_bytes_world :
      (r : Request) (sha path body : Bytes) (status : ℕ) (st : State W)
      → (serve_bytes unicode r sha path body status st).0.world ≡ st.world
  unfolding serve_bytes
  serve_bytes_world r sha path body status st =
      elim (Bool-cases (beq r.if_none_match (etag_of sha))) [
        | inl y ↦ rw y refl
        | inr n ↦ rw n refl
      ]

  serve_cached_keeps :
      (r : Request) (sha path : Bytes) (status : ℕ) (st : State W)
      → Inv st.world
      → Inv (serve_cached unicode be r sha path status st).0.world
  unfolding serve_cached
  serve_cached_keeps r sha path status st v = elim (Option-cases (be.blob_open sha st.world).1) [
    | inl e ↦ rw (e, serve_cached) (laws.open_keeps sha st.world v)
    | inr (body, e) ↦
        rw (e, serve_cached)
          (subst Inv (sym (serve_bytes_world r sha path body status _))
            (laws.open_keeps sha st.world v))
  ]

  serve_fetched_keeps :
      (r : Request) (sha path : Bytes) (status : ℕ) (got : FetchResult) (st : State W)
      → Inv st.world
      → Inv (serve_fetched unicode be r sha path status got st).0.world
  serve_fetched_keeps r sha path status (failed class) st v = v
  serve_fetched_keeps r sha path status (fetched []) st v = v
  serve_fetched_keeps r sha path status (fetched (b ∷ body)) st v =
      subst Inv (sym (serve_bytes_world r sha path (b ∷ body) status _))
        (elim be.has_blobs
          as (λ x.
            Inv
              (if x then record st { world = be.blob_put sha (b ∷ body) st.world } else st).world) [
                | true ↦ laws.put_keeps sha (b ∷ body) st.world v
                | false ↦ v
              ])

  serve_blob_keeps :
      (r : Request) (event : Event) (sha path : Bytes) (status : ℕ) (st : State W)
      → Inv st.world
      → Inv (serve_blob unicode be r event sha path status st).0.world
  unfolding serve_blob
  serve_blob_keeps r event sha path status st v =
      elim (Bool-cases (be.has_blobs && be.blob_has sha st.world)) [
        | inl y ↦ rw y (serve_cached_keeps r sha path status _ v)
        | inr n ↦
            let chosen = choose_servers unicode be event st.world in
            rw n (
              serve_fetched_keeps r sha path status _ _
                (fetch_first_keeps chosen.1 sha chosen.0 (choose_servers_keeps event st.world v)))
      ]

  -- The answer is right and the invariant holds afterwards.
  abbrev IsKept : SiteType → Bytes → Bytes → Bytes → State W × Response → Type 0
  IsKept t pubkey d path res = Inv res.0.world × IsAnswer sha256 (IsFor t pubkey d) path res.1

  found-IsVerified :
      (r : Request) (t : SiteType) (event : Event) (sha path : Bytes) (status : ℕ) (st : State W)
      → be.has_npk ≡ false
      → Inv st.world
      → Inv (serve_found unicode be r t event sha path status st).0.world
        × IsVerified sha256 sha status (serve_found unicode be r t event sha path status st).1
  found-IsVerified r t event sha path status st no_npk v =
      rw (serve_found_blob unicode be r t event sha path status st no_npk) (
        serve_blob_keeps r event sha path status st v,
        serve_blob-IsVerified_law sha256 unicode be r event sha path status st laws.fetch_verifies
            (λ body. laws.open_verifies sha st.world body v),
      )

  page_answer :
      (t : SiteType) (pubkey d path sha : Bytes) (event : Event) {res : Response}
      → IsFor t pubkey d event
      → lookup path (path_map event.tags []) ≡ some sha
      → IsVerified sha256 sha 200 res
      → IsAnswer sha256 (IsFor t pubkey d) path res
  page_answer t pubkey d path sha event is_for e IsVerified.missing = missing
  page_answer t pubkey d path sha event is_for e (IsVerified.unchanged s b) = unchanged s b
  page_answer t pubkey d path sha event is_for e (IsVerified.served s h) =
      page event sha is_for e s h

  fallback_answer :
      (t : SiteType) (pubkey d path sha : Bytes) (event : Event) {res : Response}
      → IsFor t pubkey d event
      → lookup path (path_map event.tags []) ≡ none
      → lookup (codes "/404.html") (path_map event.tags []) ≡ some sha
      → IsVerified sha256 sha 404 res
      → IsAnswer sha256 (IsFor t pubkey d) path res
  fallback_answer t pubkey d path sha event is_for e f IsVerified.missing = missing
  fallback_answer t pubkey d path sha event is_for e f (IsVerified.unchanged s b) = unchanged s b
  fallback_answer t pubkey d path sha event is_for e f (IsVerified.served s h) =
      fallback event sha is_for e f s h

  serve_path-IsKept :
      (r : Request) (t : SiteType) (pubkey d path : Bytes) (event : Event) (st : State W)
      → be.has_npk ≡ false
      → IsFor t pubkey d event
      → Inv st.world
      → IsKept t pubkey d path (serve_path unicode be r t event path st)
  serve_path-IsKept r t pubkey d path event st no_npk is_for v =
      elim (Option-cases (lookup path (path_map event.tags []))) [
        | inr (sha, e) ↦
            let (kept, verified) = found-IsVerified r t event sha path 200 st no_npk v in
            rw (serve_path-some unicode be r t path sha event st e)
              (kept, page_answer t pubkey d path sha event is_for e verified)
        | inl e ↦ elim (Option-cases (lookup (codes "/404.html") (path_map event.tags []))) [
          | inl f ↦ rw (serve_path-none unicode be r t path event st e f) (v, missing)
          | inr (sha, f) ↦
              let (kept, verified) =
                found-IsVerified r t event sha (codes "/404.html") 404 st no_npk v in
              rw (serve_path-fallback unicode be r t path sha event st e f)
                (kept, fallback_answer t pubkey d path sha event is_for e f verified)
        ]
      ]

  manifest-IsKept :
      (r : Request) (site : Site) (path : Bytes) (st : State W) (w : W) (o : Option Event)
      → be.has_npk ≡ false
      → Inv w
      → ((ev : Event) → o ≡ some ev → IsFor site.site_type site.hex_id site.d ev)
      → IsKept site.site_type site.hex_id site.d path (elim o as (λ x. State W × Response) [
        | none ↦ (record st { world = w }, not_found)
        | some event ↦ serve_path unicode be r site.site_type event path (record st { world = w })
      ])
  manifest-IsKept r site path st w none no_npk v is_for = (v, missing)
  manifest-IsKept r site path st w (some ev) no_npk v is_for =
      serve_path-IsKept r site.site_type site.hex_id site.d path ev _ no_npk (is_for ev refl) v

  -- With a backend that keeps its laws and no bundle store, `serveSite` answers with the bounded 404,
  -- with 304, or with bytes whose digest a manifest for the site gives for the path, or for
  -- "/404.html" and then with the status 404; and the invariant of the backend still holds.
  pub serve_site-IsKept :
      (r : Request) (site : Site) (path : Bytes) (st : State W)
      → be.has_npk ≡ false
      → length site.hex_id ≡ 64
      → Inv st.world
      → IsKept site.site_type site.hex_id site.d path (serve_site unicode be r site path st)
  unfolding serve_site
  serve_site-IsKept r site path st no_npk len v =
      elim be.has_resolver
        as (λ b. IsKept site.site_type site.hex_id site.d path (
          if not b
          then (st, not_found)
          else elim (be.manifest site.site_type site.hex_id site.d st.world).1
              as (λ x. State W × Response) [
                | none ↦ (
                  record st { world = (be.manifest site.site_type site.hex_id site.d st.world).0 },
                  not_found,
                )
                | some event ↦ serve_path unicode be r site.site_type event path (record st {
                  world = (be.manifest site.site_type site.hex_id site.d st.world).0;
                })
              ])) [
                | false ↦ (v, missing)
                | true ↦
                    manifest-IsKept r site path st _ _ no_npk
                      (laws.manifest_keeps site.site_type site.hex_id site.d st.world len v)
                      (λ ev h.
                        laws.manifest_is site.site_type site.hex_id site.d st.world ev len v h)
              ]
