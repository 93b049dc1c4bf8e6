-- ===== src/Tests/Fetches.antt =====
-- Tests of the fetcher of internal/blossom/blob.go.
use nostrhost_nsite.Prelude.{◌≡◌, ◌≤◌, ◌↔◌, ◌⊎◌, refl, true, false, [], ◌∷◌, some, codes, beq}
use nostrhost_nsite.Hex.{encode_to_string, hex_char}
use nostrhost_nsite.Blossom.Fetch.{
  Fetcher, GoError, Client, fetch, ok, target_of, validate_scheme, fetch_iff,
}
use nostrhost_nsite.Tests.Fixtures.{toy_sha256, two_sha}

abbrev pub strict : Fetcher
strict = record { allow_http = false; max_bytes = 2 }

-- a client that answers every request with the text of length 2
abbrev some_error : GoError
some_error = record {
  is_forbidden = false;
  is_deadline = false;
  is_canceled = false;
  message = codes "connection refused";
}

abbrev pub two_client : Client
two_client = record {
  scheme = λ url. codes "https";
  request_ok = λ url. true;
  get = λ url. some (200, record { bytes = 1 ∷ 2 ∷ []; broken = false });
  request_error = λ url. some_error;
  get_error = λ url. some_error;
  body_error = λ url. some_error;
}

fetch_two : fetch toy_sha256 strict two_client (codes "https://b.net") two_sha ≡ ok (1 ∷ 2 ∷ [])
unfolding fetch validate_scheme beq encode_to_string hex_char
fetch_two = refl

fetch_iff_example :
    (fetch toy_sha256 strict two_client (codes "https://b.net") two_sha ≡ ok (1 ∷ 2 ∷ [])) ↔ (
      ((codes "https" ≡ codes "https") ⊎ ((codes "https" ≡ codes "http") × (false ≡ true)))
      × (two_client.request_ok (target_of (codes "https://b.net") two_sha) ≡ true)
      × (two_client.get (target_of (codes "https://b.net") two_sha)
          ≡ some (200, record { bytes = 1 ∷ 2 ∷ []; broken = false }))
      × (2 ≤ 2)
      × (encode_to_string (toy_sha256 (1 ∷ 2 ∷ [])) ≡ two_sha))
fetch_iff_example =
    fetch_iff toy_sha256 strict two_client (codes "https://b.net") two_sha (1 ∷ 2 ∷ [])
