-- ===== src/Blossom/Classify.antt =====
-- internal/blossom/blob.go, lines 189 to 218: the errors of `Fetch` as texts, and their classes.
use nostrhost_nsite.Prelude.{
  ℕ, ◌+◌, false, List, [], ◌∷◌, ◌++◌, Option, none, some, ◌==◌, if◌then◌else◌, map, take, Bytes,
  codes, beq, includes,
}
use nostrhost_nsite.Digits.{shortest}
use nostrhost_nsite.Hex.{encode_to_string}
use nostrhost_nsite.Blossom.Fetch.{
  GoError, Client, Fetcher, Stream, FetchError, bad_scheme, bad_request, no_answer, bad_status,
  broken_body, oversize, hash_mismatch, target_of,
}

-- `%d` of a number that is not negative
unfoldable pub decimal : ℕ → Bytes
decimal n = if n == 0 then codes "0" else map (λ d. b'0' + d) (shortest 10 n n [])

abbrev pub text_error : Bytes → GoError
text_error message = record {
  is_forbidden = false;
  is_deadline = false;
  is_canceled = false;
  message = message;
}

-- What the texts of `Fetch` are made of; `quoted` is `%q` of the scheme.
pub record ErrorText : Type 0 where
  pub scheme : Bytes
  pub quoted : Bytes
  pub status : ℕ
  pub max_bytes : ℕ
  pub got : Bytes

unfoldable pub error_of : Client → Bytes → Bytes → ErrorText → FetchError → GoError
error_of client server_url sha t bad_scheme =
    if beq t.scheme (codes "http")
    then text_error (codes "http disallowed")
    else text_error (codes "scheme " ++ t.quoted ++ codes " disallowed")
error_of client server_url sha t bad_request = client.request_error (target_of server_url sha)
error_of client server_url sha t no_answer = client.get_error (target_of server_url sha)
error_of client server_url sha t bad_status =
    text_error (codes "blossom " ++ server_url ++ codes ": status " ++ decimal t.status)
error_of client server_url sha t broken_body = client.body_error (target_of server_url sha)
error_of client server_url sha t oversize =
    text_error (codes "blob exceeds " ++ decimal t.max_bytes ++ codes " bytes")
error_of client server_url sha t hash_mismatch =
    text_error (codes "blob hash mismatch: expected " ++ sha ++ codes " got " ++ t.got)

abbrev status_of : Option (ℕ × Stream) → ℕ
status_of none = 0
status_of (some (status, stream)) = status

abbrev bytes_of : Option (ℕ × Stream) → Bytes
bytes_of none = []
bytes_of (some (status, stream)) = stream.bytes

-- The texts of one call of `Fetch`; `quote` is `%q`.
abbrev pub error_text :
    (Bytes → Bytes) → (Bytes → Bytes) → Fetcher → Client → Bytes → Bytes → ErrorText
error_text sha256 quote f client server_url sha =
    let answer = client.get (target_of server_url sha) in
    record {
      scheme = client.scheme server_url;
      quoted = quote (client.scheme server_url);
      status = status_of answer;
      max_bytes = f.max_bytes;
      got = encode_to_string (sha256 (take (f.max_bytes + 1) (bytes_of answer)));
    }

abbrev pub classify_text : Bytes → Bytes
classify_text message =
    if includes message (codes "hash mismatch")
    then codes "hash"
    else if includes message (codes "exceeds")
    then codes "oversize"
    else if includes message (codes "too many redirects")
    then codes "redirect"
    else if includes message (codes "status")
    then codes "status"
    else codes "network"

-- `none` is nil.
unfoldable pub classify_fetch_error : Option GoError → Bytes
classify_fetch_error none = []
classify_fetch_error (some e) =
    if e.is_forbidden
    then codes "forbidden"
    else if e.is_deadline
    then codes "timeout"
    else if e.is_canceled
    then codes "canceled"
    else classify_text e.message

-- The classes of an error.
abbrev pub classes : List Bytes
classes =
    codes "forbidden"
    ∷ codes "timeout"
    ∷ codes "canceled"
    ∷ codes "hash"
    ∷ codes "oversize"
    ∷ codes "redirect"
    ∷ codes "status"
    ∷ codes "network"
    ∷ []
