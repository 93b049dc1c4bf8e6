-- ===== src/Server/Handlers.antt =====
-- internal/server/server.go, lines 31 to 40, 226 to 318 and 332 to 588: the handlers. What they call
-- of the resolver, the fetcher and the stores is the interface `Backends`, over the state `W` that
-- these keep; a nil pointer there is a `has_` field that is false.
use nostrhost_nsite.Prelude.{
  ℕ, ◌+◌, Bool, not, List, [], ◌∷◌, ◌++◌, Option, none, some, if◌then◌else◌, length, filter, map,
  Bytes, codes, beq, contains, after_last,
}
use nostrhost_nsite.Assoc.{lookup, insert}
use nostrhost_nsite.Http.{Request, Response, not_found}
use nostrhost_nsite.Nostr.{Event, has_value, value_of}
use nostrhost_nsite.Nip5a.Label.{SiteType}
use nostrhost_nsite.Server.Hosts.{Unicode, to_lower}

-- The answer of the fetcher: the class of its error, or bytes.
pub data FetchResult : Type 0 where
  failed : Bytes → FetchResult
  fetched : Bytes → FetchResult

-- An error and a nil result of `Manifest` or `Release` are both `none`: the callers treat them alike.
pub record Backends (W : Type 0) : Type 0 where
  pub has_resolver : Bool
  pub has_fetcher : Bool
  pub has_blobs : Bool
  pub has_npk : Bool
  pub manifest : SiteType → Bytes → Bytes → W → W × Option Event
  pub release : Bytes → Bytes → W → W × Option Bytes
  pub blossom_servers : Bytes → W → W × List Bytes
  pub fetch : Bytes → Bytes → W → W × FetchResult
  pub blob_has : Bytes → W → Bool
  -- what `io.ReadAll` delivers of the file that is opened, its error left out of account
  pub blob_open : Bytes → W → W × Option Bytes
  pub blob_put : Bytes → Bytes → W → W
  pub npk_has : Bytes → W → Bool
  pub npk_open : Bytes → Bytes → W → W × Option Bytes
  pub npk_unpack : Bytes → Bytes → W → W × Bool

-- The counters, and what the histogram observed.
pub record Metrics : Type 0 where
  pub req_apex : ℕ
  pub req_site : ℕ
  pub req_other : ℕ
  pub cache_hits : ℕ
  pub fetch_failures : List Bytes
  pub bytes_served : List ℕ

-- The state that a request changes.
pub record State (W : Type 0) : Type 0 where
  pub world : W
  pub metrics : Metrics

abbrev pub content_types : List (Bytes × Bytes)
content_types =
    (codes ".html", codes "text/html; charset=utf-8")
    ∷ (codes ".htm", codes "text/html; charset=utf-8")
    ∷ (codes ".css", codes "text/css")
    ∷ (codes ".js", codes "text/javascript")
    ∷ (codes ".mjs", codes "text/javascript")
    ∷ (codes ".json", codes "application/json")
    ∷ (codes ".txt", codes "text/plain")
    ∷ (codes ".xml", codes "application/xml")
    ∷ (codes ".svg", codes "image/svg+xml")
    ∷ (codes ".ico", codes "image/x-icon")
    ∷ (codes ".png", codes "image/png")
    ∷ (codes ".jpg", codes "image/jpeg")
    ∷ (codes ".jpeg", codes "image/jpeg")
    ∷ (codes ".gif", codes "image/gif")
    ∷ (codes ".webp", codes "image/webp")
    ∷ (codes ".woff2", codes "font/woff2")
    ∷ (codes ".wasm", codes "application/wasm")
    ∷ (codes ".pdf", codes "application/pdf")
    ∷ (codes ".webmanifest", codes "application/manifest+json")
    ∷ []

abbrev or_octets : Option Bytes → Bytes
or_octets none = codes "application/octet-stream"
or_octets (some ct) = ct

unfoldable pub content_type_for : Unicode → Bytes → Bytes
content_type_for unicode path =
    if not (contains b'.' path)
    then codes "application/octet-stream"
    else or_octets (lookup (to_lower unicode (b'.' ∷ after_last b'.' path)) content_types)

unfoldable pub server_hints : List (List Bytes) → List Bytes
server_hints tags = map value_of (filter (has_value (codes "server")) tags)

unfoldable pub named_site_d : List (List Bytes) → Bytes
named_site_d [] = []
named_site_d (t ∷ ts) =
    let rest = named_site_d ts in if has_value (codes "d") t then value_of t else rest

abbrev pub add_path : List Bytes → List (Bytes × Bytes) → List (Bytes × Bytes)
add_path [] m = m
add_path (name ∷ []) m = m
add_path (name ∷ path ∷ []) m = m
add_path (name ∷ path ∷ hash ∷ t) m = if beq name (codes "path") then insert path hash m else m

-- The loop that fills `paths`: a later tag replaces an earlier one.
unfoldable pub path_map : List (List Bytes) → List (Bytes × Bytes) → List (Bytes × Bytes)
path_map [] m = m
path_map (t ∷ ts) m = path_map ts (add_path t m)

abbrev pub etag_of : Bytes → Bytes
etag_of sha = codes "\"" ++ sha ++ codes "\""

abbrev pub serve_apex : Response
serve_apex = record {
  status = 200;
  headers =
      (codes "Content-Type", codes "text/html; charset=utf-8")
      ∷ (codes "Cache-Control", codes "no-store")
      ∷ [];
  body = codes "<h1>nsite gateway</h1>\n";
}

module _ {W : Type 0} where
  abbrev pub reject : State W → State W × Response
  reject st = (
    record st { metrics = record (st.metrics) { req_other = st.metrics.req_other + 1 } },
    not_found,
  )

  abbrev pub note_failure : Bytes → State W → State W
  note_failure class st = record st {
    metrics = record (st.metrics) { fetch_failures = class ∷ st.metrics.fetch_failures };
  }

  unfoldable pub serve_bytes :
      Unicode → Request → Bytes → Bytes → Bytes → ℕ → State W → State W × Response
  serve_bytes unicode r sha content_type_path body status st =
      let headers =
        (codes "ETag", etag_of sha)
        ∷ (codes "Content-Type", content_type_for unicode content_type_path)
        ∷ (codes "Cache-Control", codes "public, max-age=3600")
        ∷ (codes "X-Content-Type-Options", codes "nosniff")
        ∷ (codes "Referrer-Policy", codes "strict-origin-when-cross-origin")
        ∷ (codes "Cross-Origin-Opener-Policy", codes "same-origin")
        ∷ [] in
      let st' = record st {
        metrics = record (st.metrics) { bytes_served = length body ∷ st.metrics.bytes_served };
      } in
      if beq r.if_none_match (etag_of sha)
      then (st', record { status = 304; headers = headers; body = [] })
      else (st', record { status = status; headers = headers; body = body })
