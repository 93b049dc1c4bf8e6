-- ===== src/Blossomsrv/Handlers.antt =====
-- internal/blossomsrv/server.go, lines 298 to 407: the HTTP handlers of the local Blossom server over
-- its store. What encoding/json makes of a string or an event, the texts of errors from outside and
-- the redirect with which net/http answers a path that is not clean are parameters.
pub mod Answers
use nostrhost_nsite.Prelude.{
  ℕ, ◌+◌, ◌-◌, ◌^◌, Bool, true, false, not, ◌&&◌, ◌||◌, List, [], ◌∷◌, ◌++◌, Option, none, some,
  if◌then◌else◌, length, Bytes, codes, beq, has_prefix, has_suffix, trim_prefix, trim_suffix,
}
use nostrhost_nsite.Int64.{ltb64}
use nostrhost_nsite.Base64.{decode_url_base64}
use nostrhost_nsite.Filepath.{clean}
use nostrhost_nsite.Http.{Response, http_error, not_found}
use nostrhost_nsite.Nostr.{Event, Checks}
use nostrhost_nsite.Blossom.Classify.{decimal}
use nostrhost_nsite.Blossomsrv.Store.{
  Server, valid_sha, used_bytes, blob_count, get, PutError, invalid_sha, missing_auth, bad_kind,
  id_mismatch, bad_signature, not_admitted, not_covered, read_error, too_large, hash_mismatch,
  quota_exceeded, write_error, PutResult, stored, refused, PutIo, put,
}

-- What the handlers read of a request, the body aside; a missing value is the empty string.
pub record Request : Type 0 where
  pub method : Bytes
  pub path : Bytes
  pub query_sha256 : Bytes
  pub authorization : Bytes
  pub forwarded_host : Bytes
  pub host : Bytes
  pub is_tls : Bool

-- What comes from outside: JSON, the texts of errors that are passed on, and the redirect.
pub record Outside : Type 0 where
  pub json_string : Bytes → Bytes
  pub json_event : Bytes → Option Event
  pub json_error : Bytes → Bytes
  pub base64_error : Bytes → Bytes
  pub io_error : Bytes
  pub redirect : Request → Response

-- `%d` of an int64
abbrev signed : ℕ → Bytes
signed n = if ltb64 n 0 then codes "-" ++ decimal (2 ^ 64 - n) else decimal n

abbrev kind_of : Option Event → ℕ
kind_of none = 0
kind_of (some ev) = ev.kind

-- The text of an error of `Put`.
abbrev pub put_error : Outside → Bytes → Option Event → Server → PutError → Bytes
put_error out sha auth s invalid_sha = codes "blossom: invalid sha"
put_error out sha auth s missing_auth =
    codes "blossom: missing Authorization header (Nostr <base64 kind-24242 event>)"
put_error out sha auth s bad_kind =
    codes "blossom: auth event kind must be 24242, got " ++ decimal (kind_of auth)
put_error out sha auth s id_mismatch = codes "blossom: auth event id mismatch"
put_error out sha auth s bad_signature = codes "blossom: auth event signature invalid"
put_error out sha auth s not_admitted = codes "blossom: auth signer not admitted"
put_error out sha auth s not_covered = codes "blossom: auth event does not cover sha " ++ sha
put_error out sha auth s read_error = out.io_error
put_error out sha auth s too_large =
    codes "blossom: blob exceeds " ++ signed s.max_blob ++ codes " bytes"
put_error out sha auth s hash_mismatch = codes "blossom: upload hash mismatch: expected " ++ sha
put_error out sha auth s quota_exceeded =
    codes "blossom: store quota exceeded (" ++ signed s.quota ++ codes " bytes)"
put_error out sha auth s write_error = out.io_error

-- An error with its text, or the event.
pub data Parsed : Type 0 where
  bad : Bytes → Parsed
  good : Event → Parsed

abbrev parse_json : Outside → Bytes → Option Event → Parsed
parse_json out raw none = bad (codes "blossom: bad auth event: " ++ out.json_error raw)
parse_json out raw (some ev) = good ev

abbrev parse_raw : Outside → Bytes → Option Bytes → Parsed
parse_raw out text none = bad (codes "blossom: bad auth header: " ++ out.base64_error text)
parse_raw out text (some raw) = parse_json out raw (out.json_event raw)

unfoldable pub parse_auth_header : Outside → Bytes → Parsed
parse_auth_header out header =
    let text = trim_prefix header (codes "Nostr ") in
    if not (has_prefix header (codes "Nostr "))
    then bad (codes "blossom: Authorization must start with 'Nostr '")
    else parse_raw out text (decode_url_base64 text)

abbrev rooted : Bytes → Bytes
rooted path = if has_prefix path (codes "/") then path else b'/' ∷ path

-- `cleanPath` of net/http, which keeps a slash at the end.
unfoldable pub clean_path : Bytes → Bytes
clean_path path =
    let cleaned = clean (rooted path) in
    if has_suffix (rooted path) (codes "/") && not (beq cleaned (codes "/"))
    then cleaned ++ codes "/"
    else cleaned

abbrev pub method_not_allowed : Response
method_not_allowed = http_error (codes "method not allowed") 405

-- A body is written for GET only.
abbrev pub answer_healthz : Request → Response
answer_healthz r =
    if not (beq r.method (codes "GET") || beq r.method (codes "HEAD"))
    then method_not_allowed
    else record {
      status = 200;
      headers = (codes "Content-Type", codes "text/plain") ∷ [];
      body = if beq r.method (codes "GET") then codes "ok\n" else [];
    }

-- `json.Marshal` writes the keys of a map in order.
unfoldable pub status_json : Server → Bytes
status_json s =
    codes "{\"blobs\":"
    ++ decimal (blob_count s)
    ++ codes ",\"quota_bytes\":"
    ++ signed s.quota
    ++ codes ",\"used_bytes\":"
    ++ signed (used_bytes s)
    ++ codes "}"

abbrev pub answer_status : Request → Server → Response
answer_status r s = if not (beq r.method (codes "GET")) then method_not_allowed else record {
  status = 200;
  headers = (codes "Content-Type", codes "application/json") ∷ [];
  body = status_json s;
}

abbrev pub blob_answer : Bytes → Bytes → Option Bytes → Response
blob_answer method sha none = not_found
blob_answer method sha (some body) = record {
  status = 200;
  headers =
      (codes "Content-Type", codes "application/octet-stream")
      ∷ (codes "Content-Length", decimal (length body))
      ∷ (codes "ETag", codes "\"" ++ sha ++ codes "\"")
      ∷ (codes "Cache-Control", codes "public, max-age=3600")
      ∷ [];
  body = if beq method (codes "HEAD") then [] else body;
}

-- `read_ok` tells whether the file system lets the file be read.
unfoldable pub handle_blob : Bool → Request → Server → Response
handle_blob read_ok r s =
    let sha = trim_prefix r.path (codes "/") in
    if not (beq r.method (codes "GET") || beq r.method (codes "HEAD"))
    then method_not_allowed
    else if not (valid_sha sha)
    then not_found
    else blob_answer r.method sha (get read_ok sha s)

abbrev base_of : Request → Bytes
base_of r =
    let base = trim_suffix r.forwarded_host (codes "/") in if beq base [] then r.host else base

abbrev url_of : Request → Bytes → Bytes
url_of r sha =
    (if r.is_tls then codes "https" else codes "http")
    ++ codes "://"
    ++ base_of r
    ++ codes "/"
    ++ sha

abbrev pub upload_json : Outside → Request → Bytes → ℕ → Bytes
upload_json out r sha n =
    codes "{\"sha256\":"
    ++ out.json_string sha
    ++ codes ",\"size\":"
    ++ decimal n
    ++ codes ",\"url\":"
    ++ out.json_string (url_of r sha)
    ++ codes "}"

module _ (out : Outside) (checks : Checks) (sha256 : Bytes → Bytes) where
  abbrev pub upload_answer : Request → Bytes → Option Event → Server → PutResult → Response
  upload_answer r sha auth s (refused e) = http_error (put_error out sha auth s e) 400
  upload_answer r sha auth s (stored n) = record {
    status = 200;
    headers = (codes "Content-Type", codes "application/json") ∷ [];
    body = upload_json out r sha n;
  }

  abbrev pub upload_parsed : PutIo → Request → Bytes → Parsed → Server → Server × Response
  upload_parsed io r sha (bad message) s = (s, http_error message 401)
  upload_parsed io r sha (good ev) s =
      let res = put checks sha256 io sha (some ev) s in
      (res.0, upload_answer r sha (some ev) s res.1)

  unfoldable pub handle_upload : PutIo → Request → Server → Server × Response
  handle_upload io r s =
      let sha = r.query_sha256 in
      if not (beq r.method (codes "PUT"))
      then (s, method_not_allowed)
      else if not (valid_sha sha)
      then (s, http_error (codes "invalid or missing sha256 query parameter") 400)
      else upload_parsed io r sha (parse_auth_header out r.authorization) s

  -- `Handler`: the mux redirects a path that is not clean.
  unfoldable pub handle : Bool → PutIo → Request → Server → Server × Response
  handle read_ok io r s =
      if not (beq r.method (codes "CONNECT")) && not (beq (clean_path r.path) r.path)
      then (s, out.redirect r)
      else if beq r.path (codes "/healthz")
      then (s, answer_healthz r)
      else if beq r.path (codes "/status")
      then (s, answer_status r s)
      else if beq r.path (codes "/upload")
      then handle_upload io r s
      else (s, handle_blob read_ok r s)
