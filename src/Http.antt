-- ===== src/Http.antt =====
-- Requests and responses of net/http, as far as the handlers read and write them.
use nostrhost_nsite.Prelude.{ℕ, List, [], ◌∷◌, ◌++◌, Bytes, codes}

pub record Response : Type 0 where
  pub status : ℕ
  pub headers : List (Bytes × Bytes)
  pub body : Bytes

-- `host` is `r.Host`, `path` is `r.URL.Path`, `domain` the query's value of that name, and
-- `if_none_match` the header's; a missing value is the empty string.
pub record Request : Type 0 where
  pub host : Bytes
  pub path : Bytes
  pub domain : Bytes
  pub if_none_match : Bytes

-- `http.Error(w, message, code)`
abbrev pub http_error : Bytes → ℕ → Response
http_error message code = record {
  status = code;
  headers =
      (codes "Content-Type", codes "text/plain; charset=utf-8")
      ∷ (codes "X-Content-Type-Options", codes "nosniff")
      ∷ [];
  body = message ++ b'\n' ∷ [];
}

-- `http.NotFound(w, r)`
abbrev pub not_found : Response
not_found = http_error (codes "404 page not found") 404
