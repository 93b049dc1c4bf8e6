-- ===== src/Server/Serving.antt =====
-- internal/server/server.go, lines 226 to 318, 332 to 492 and 504 to 518: serving a site's path from
-- the bundle, the cache or a Blossom server, and the handlers that come first.
use nostrhost_nsite.Prelude.{
  ℕ, ◌+◌, Bool, true, false, not, ◌&&◌, List, [], ◌∷◌, Option, none, some, if◌then◌else◌, Bytes,
  codes, beq, has_prefix,
}
use nostrhost_nsite.Assoc.{lookup}
use nostrhost_nsite.Http.{Request, Response, http_error, not_found}
use nostrhost_nsite.Nostr.{Event}
use nostrhost_nsite.Nip5a.Label.{SiteType, root, named, snapshot, Nip19, Site}
use nostrhost_nsite.Npk.Release.{name_root}
use nostrhost_nsite.Server.Hosts.{Unicode, Server, is_apex, parse_host, allowlisted}
use nostrhost_nsite.Server.Paths.{normalise_path}
use nostrhost_nsite.Server.Handlers.{
  FetchResult, failed, fetched, Backends, State, server_hints, named_site_d, path_map, reject,
  serve_apex, note_failure, serve_bytes,
}

module _ {W : Type 0} (unicode : Unicode) (be : Backends W) where
  -- `fetchFirst` from the second server on: `last` is the class of `lastErr`.
  unfoldable pub fetch_loop : Bytes → List Bytes → Bytes → W → W × FetchResult
  fetch_loop last [] sha w = (w, failed last)
  fetch_loop last (server ∷ servers) sha w =
      let (w', answer) = be.fetch server sha w in
      elim answer [
        | fetched body ↦ (w', fetched body)
        | failed class ↦ fetch_loop class servers sha w'
      ]

  -- "network" is the class of the error "no blossom servers".
  unfoldable pub fetch_first : List Bytes → Bytes → W → W × FetchResult
  fetch_first servers sha w =
      if be.has_fetcher
      then fetch_loop (codes "network") servers sha w
      else (w, failed (codes "network"))

  -- `servers := serverHints(event.Tags)`, or the author's list when there are none.
  unfoldable pub choose_servers : Event → W → W × List Bytes
  choose_servers event w = elim (server_hints event.tags) [
    | [] ↦ if be.has_resolver then be.blossom_servers event.pubkey w else (w, [])
    | s ∷ ss ↦ (w, s ∷ ss)
  ]

  unfoldable pub serve_cached : Request → Bytes → Bytes → ℕ → State W → State W × Response
  serve_cached r sha path status st =
      let (w, content) = be.blob_open sha st.world in
      elim content [
        | none ↦ (record st { world = w }, not_found)
        | some body ↦ serve_bytes unicode r sha path body status (record st { world = w })
      ]

  abbrev pub serve_fetched :
      Request → Bytes → Bytes → ℕ → FetchResult → State W → State W × Response
  serve_fetched r sha path status (failed class) st = (note_failure class st, not_found)
  serve_fetched r sha path status (fetched []) st = (note_failure [] st, not_found)
  serve_fetched r sha path status (fetched (b ∷ body)) st =
      let stored =
        if be.has_blobs then record st { world = be.blob_put sha (b ∷ body) st.world } else st in
      serve_bytes unicode r sha path (b ∷ body) status stored

  unfoldable pub serve_blob : Request → Event → Bytes → Bytes → ℕ → State W → State W × Response
  serve_blob r event sha path status st =
      let hit = record st {
        metrics = record (st.metrics) { cache_hits = st.metrics.cache_hits + 1 };
      } in
      let chosen = choose_servers event st.world in
      let got = fetch_first chosen.1 sha chosen.0 in
      if be.has_blobs && be.blob_has sha st.world
      then serve_cached r sha path status hit
      else serve_fetched r sha path status got.1 (record st { world = got.0 })

  abbrev pub serve_member :
      Request → Bytes → Bytes → ℕ → Option Bytes → State W → State W × Option Response
  serve_member r sha path status none st = (st, some not_found)
  serve_member r sha path status (some body) st =
      let served = serve_bytes unicode r sha path body status st in (served.0, some served.1)

  abbrev pub unpack_bundle :
      Request → Bytes → Bytes → Bytes → ℕ → FetchResult → State W → State W × Option Response
  unpack_bundle r release sha path status (failed class) st = (note_failure class st, none)
  unpack_bundle r release sha path status (fetched []) st = (note_failure [] st, none)
  unpack_bundle r release sha path status (fetched (b ∷ body)) st =
      let unpacked = be.npk_unpack release (b ∷ body) st.world in
      let opened = be.npk_open release path unpacked.0 in
      if unpacked.1
      then serve_member r sha path status opened.1 (record st { world = opened.0 })
      else (record st { world = unpacked.0 }, none)

  -- `none` is the answer false: the path is not served from a bundle.
  unfoldable pub serve_from_npk :
      Request → SiteType → Event → Bytes → Bytes → ℕ → State W → State W × Option Response
  serve_from_npk r site_type event sha path status st =
      let name : Bytes = elim site_type [
        | named ↦ named_site_d event.tags
        | root ↦ name_root
        | snapshot ↦ name_root
      ] in
      let (w, found) = be.release event.pubkey name st.world in
      elim found [
        | none ↦ (record st { world = w }, none)
        | some release ↦
            let opened = be.npk_open release path w in
            let chosen = choose_servers event w in
            let got = fetch_first chosen.1 release chosen.0 in
            if be.npk_has release w
            then serve_member r sha path status opened.1 (record st { world = opened.0 })
            else unpack_bundle r release sha path status got.1 (record st { world = got.0 })
      ]

  abbrev pub or_blob :
      Request → Event → Bytes → Bytes → ℕ → Option Response → State W → State W × Response
  or_blob r event sha path status none st = serve_blob r event sha path status st
  or_blob r event sha path status (some response) st = (st, response)

  -- The path is served from the bundle, or else as a blob.
  unfoldable pub serve_found :
      Request → SiteType → Event → Bytes → Bytes → ℕ → State W → State W × Response
  serve_found r site_type event sha path status st =
      let tried = serve_from_npk r site_type event sha path status st in
      if be.has_npk
      then or_blob r event sha path status tried.1 tried.0
      else serve_blob r event sha path status st

  -- Looks `path` up, then "/404.html".
  unfoldable pub serve_path : Request → SiteType → Event → Bytes → State W → State W × Response
  serve_path r site_type event path st =
      let paths = path_map event.tags [] in
      elim (lookup path paths) [
        | some sha ↦ serve_found r site_type event sha path 200 st
        | none ↦ elim (lookup (codes "/404.html") paths) [
          | none ↦ (st, not_found)
          | some sha ↦ serve_found r site_type event sha (codes "/404.html") 404 st
        ]
      ]

  unfoldable pub serve_site : Request → Site → Bytes → State W → State W × Response
  serve_site r site path st =
      if not be.has_resolver
      then (st, not_found)
      else let (w, found) = be.manifest site.site_type site.hex_id site.d st.world in
        elim found [
          | none ↦ (record st { world = w }, not_found)
          | some event ↦ serve_path r site.site_type event path (record st { world = w })
        ]

  abbrev pub serve_allowed : Request → Site → Option Bytes → State W → State W × Response
  serve_allowed r site none st = reject st
  serve_allowed r site (some path) st =
      serve_site r site path
        (record st { metrics = record (st.metrics) { req_site = st.metrics.req_site + 1 } })

  abbrev pub serve_host : Server → Request → Option (Bytes × Site) → State W → State W × Response
  serve_host s r none st = reject st
  serve_host s r (some (label, site)) st =
      if not (allowlisted s site.site_type site.hex_id)
      then reject st
      else serve_allowed r site (normalise_path r.path) st

  unfoldable pub handle_public : Nip19 → Server → Request → State W → State W × Response
  handle_public nip19 s r st =
      if has_prefix r.path (codes "/internal/")
      then reject st
      else if is_apex unicode s r.host
      then (
        record st { metrics = record (st.metrics) { req_apex = st.metrics.req_apex + 1 } },
        serve_apex,
      )
      else serve_host s r (parse_host unicode nip19 s r.host) st

abbrev pub allowed_answer : Response
allowed_answer = record { status = 200; headers = []; body = codes "ok" }

abbrev pub refused_answer : Response
refused_answer = http_error (codes "not allowed") 403

-- `root` or `named`
abbrev pub has_author : SiteType → Bool
has_author root = true
has_author named = true
has_author snapshot = false

abbrev pub answer_site : Server → Option (Bytes × Site) → Response
answer_site s none = refused_answer
answer_site s (some (label, site)) =
    if not (has_author site.site_type)
    then refused_answer
    else if not (allowlisted s site.site_type site.hex_id)
    then refused_answer
    else allowed_answer

-- The host that `handleTLSAsk` is asked about.
abbrev pub asked_host : Request → Bytes
asked_host r = if beq r.domain [] then r.host else r.domain

unfoldable pub handle_tls_ask : Unicode → Nip19 → Server → Request → Response
handle_tls_ask unicode nip19 s r =
    if is_apex unicode s (asked_host r)
    then allowed_answer
    else answer_site s (parse_host unicode nip19 s (asked_host r))
