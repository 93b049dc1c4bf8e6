-- ===== src/Server/Steps.antt =====
-- The branches of `servePath` and `serveFound` of internal/server/server.go, as equations.
use nostrhost_nsite.Prelude.{
  ℕ, ◌≡◌, refl, true, false, [], none, some, arith, if◌then◌else◌, Bytes, codes,
}
use nostrhost_nsite.Assoc.{lookup}
use nostrhost_nsite.Http.{Request, not_found}
use nostrhost_nsite.Nostr.{Event}
use nostrhost_nsite.Nip5a.Label.{SiteType}
use nostrhost_nsite.Server.Hosts.{Unicode}
use nostrhost_nsite.Server.Handlers.{Backends, State, path_map}
use nostrhost_nsite.Server.Serving.{serve_blob, serve_found, serve_path, or_blob, serve_from_npk}

module _ {W : Type 0} (unicode : Unicode) (be : Backends W) where
  pub serve_found_blob :
      (r : Request) (t : SiteType) (event : Event) (sha path : Bytes) (status : ℕ) (st : State W)
      → be.has_npk ≡ false
      → serve_found unicode be r t event sha path status st
        ≡ serve_blob unicode be r event sha path status st
  unfolding serve_found
  serve_found_blob r t event sha path status st h =
      (elim be.has_npk
          as (λ b.
            b ≡ false
            → (if b
                then or_blob unicode be r event sha path status
                    (serve_from_npk unicode be r t event sha path status st).1
                    (serve_from_npk unicode be r t event sha path status st).0
                else serve_blob unicode be r event sha path status st)
              ≡ serve_blob unicode be r event sha path status st) [
                | true ↦ λ k. absurd (ground arith)
                | false ↦ λ k. refl
              ])
        h

  pub serve_path-some :
      (r : Request) (t : SiteType) (path sha : Bytes) (event : Event) (st : State W)
      → lookup path (path_map event.tags []) ≡ some sha
      → serve_path unicode be r t event path st ≡ serve_found unicode be r t event sha path 200 st
  unfolding serve_path
  serve_path-some r t path sha event st e = rw (e, serve_path) refl

  pub serve_path-fallback :
      (r : Request) (t : SiteType) (path sha : Bytes) (event : Event) (st : State W)
      → lookup path (path_map event.tags []) ≡ none
      → lookup (codes "/404.html") (path_map event.tags []) ≡ some sha
      → serve_path unicode be r t event path st
        ≡ serve_found unicode be r t event sha (codes "/404.html") 404 st
  unfolding serve_path
  serve_path-fallback r t path sha event st e f = rw (e, f, serve_path) refl

  pub serve_path-none :
      (r : Request) (t : SiteType) (path : Bytes) (event : Event) (st : State W)
      → lookup path (path_map event.tags []) ≡ none
      → lookup (codes "/404.html") (path_map event.tags []) ≡ none
      → serve_path unicode be r t event path st ≡ (st, not_found)
  unfolding serve_path
  serve_path-none r t path event st e f = rw (e, f, serve_path) refl
