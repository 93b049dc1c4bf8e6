-- ===== src/Blossom/Fetch.antt =====
-- internal/blossom/blob.go, lines 41 to 49, 124 to 136, 152 to 187 and 220 to 226: `Fetch`. The
-- client, which follows redirects and dials, is the parameter `Client`; its answer is an error or a
-- status and a stream.
use nostrhost_nsite.Prelude.{
  ℕ, zero, suc, ap, leb→le, ◌∙◌, none_ne_some, some_inj, length-take, ◌+◌, ◌≤◌, ◌≡◌, refl, ◌↔◌, ◌⊎◌,
  inl, inr, Bool, true, false, not, ◌&&◌, [], ◌∷◌, ◌++◌, Option, none, some, arith, ◌==◌, leb, ltb,
  if◌then◌else◌, length, take, Bytes, codes, beq, beq_iff, trim_suffix, Bool-cases, ==_iff,
}
use nostrhost_nsite.Hex.{encode_to_string}

-- The part of `Fetcher` that `Fetch` reads; `max_bytes` is below 2 ^ 63 - 1.
pub record Fetcher : Type 0 where
  pub allow_http : Bool
  pub max_bytes : ℕ

-- What a body gives: bytes, and then the end or, when `broken`, an error.
pub record Stream : Type 0 where
  pub bytes : Bytes
  pub broken : Bool

-- An error of a package outside: what `errors.Is` finds in it, and its text.
pub record GoError : Type 0 where
  pub is_forbidden : Bool
  pub is_deadline : Bool
  pub is_canceled : Bool
  pub message : Bytes

-- `scheme` is `u.Scheme` of the URL that `url.Parse` gives, the empty string for its error;
-- `request_ok` tells whether `http.NewRequestWithContext` accepts the target; `get` is the answer of
-- `client.Do`, `none` for an error. The errors that these two and the read of the body give for a
-- target are the last three fields.
pub record Client : Type 0 where
  pub scheme : Bytes → Bytes
  pub request_ok : Bytes → Bool
  pub get : Bytes → Option (ℕ × Stream)
  pub request_error : Bytes → GoError
  pub get_error : Bytes → GoError
  pub body_error : Bytes → GoError

pub data FetchError : Type 0 where
  bad_scheme bad_request no_answer bad_status broken_body oversize hash_mismatch : FetchError

pub data Fetched : Type 0 where
  err : FetchError → Fetched
  ok : Bytes → Fetched

-- `validateScheme` gives no error.
unfoldable pub validate_scheme : Bytes → Bool → Bool
validate_scheme scheme allow_http =
    if beq scheme (codes "https")
    then true
    else if beq scheme (codes "http")
    then allow_http
    else false

-- `strings.TrimSuffix(serverURL, "/") + "/" + sha`
abbrev pub target_of : Bytes → Bytes → Bytes
target_of server_url sha = trim_suffix server_url (codes "/") ++ b'/' ∷ sha

take_whole : (n : ℕ) (b : Bytes) → length b ≤ n → take n b ≡ b
take_whole zero [] h = refl
take_whole zero (x ∷ b) h = absurd (omega arith)
take_whole (suc n) [] h = refl
take_whole (suc n) (x ∷ b) h = ap (λ t. x ∷ t) (take_whole n b (omega arith))

validate_scheme_iff :
    (scheme : Bytes) (allow_http : Bool)
    → (validate_scheme scheme allow_http ≡ true)
      ↔ ((scheme ≡ codes "https") ⊎ ((scheme ≡ codes "http") × (allow_http ≡ true)))
unfolding validate_scheme
validate_scheme_iff scheme allow_http =
    ground (arith, beq_iff scheme (codes "https"), beq_iff scheme (codes "http"))

module _ (sha256 : Bytes → Bytes) where
  -- The checks of what was read. `io.LimitReader` stops before an error that comes later.
  abbrev pub verify_body : ℕ → Bytes → Stream → Fetched
  verify_body max_bytes sha stream =
      let buf = take (max_bytes + 1) stream.bytes in
      if stream.broken && leb (length stream.bytes) max_bytes
      then err broken_body
      else if ltb max_bytes (length buf)
      then err oversize
      else if not (beq (encode_to_string (sha256 buf)) sha)
      then err hash_mismatch
      else ok buf

  abbrev pub read_answer : ℕ → Bytes → Option (ℕ × Stream) → Fetched
  read_answer max_bytes sha none = err no_answer
  read_answer max_bytes sha (some (status, stream)) =
      if not (status == 200) then err bad_status else verify_body max_bytes sha stream

  unfoldable pub fetch : Fetcher → Client → Bytes → Bytes → Fetched
  fetch f client server_url sha =
      if not (validate_scheme (client.scheme server_url) f.allow_http)
      then err bad_scheme
      else if not (client.request_ok (target_of server_url sha))
      then err bad_request
      else read_answer f.max_bytes sha (client.get (target_of server_url sha))

  verify_body_iff :
      (max_bytes : ℕ) (sha b : Bytes) (broken : Bool) (body : Bytes)
      → (verify_body max_bytes sha (record { bytes = b; broken = broken }) ≡ ok body) ↔ (
          (broken ≡ false)
          × (b ≡ body)
          × (length body ≤ max_bytes)
          × (encode_to_string (sha256 body) ≡ sha))
  verify_body_iff n sha b broken body = elim (Bool-cases (leb (length b) n)) [
    | inl short ↦ rw (take_whole (n + 1) b (ground arith)) (
      λ h.
          let same : b ≡ body = ground arith in
          let digest : encode_to_string (sha256 b) ≡ sha =
            ground (arith, beq_iff (encode_to_string (sha256 b)) sha) in
          (ground arith, same, omega (arith, ap length same, leb→le _ _ short), rw (← same) digest),
      λ (whole, same, cap, digest).
          let digest' : encode_to_string (sha256 b) ≡ sha = rw same digest in
          ground (arith, beq_iff (encode_to_string (sha256 b)) sha),
    )
    | inr long ↦
        let len = length-take (n + 1) b (ground arith) in
        (
          λ h. absurd (ground arith),
          λ (whole, same, cap, digest). absurd (ground (arith, ap length same)),
        )
  ]

  read_answer_iff :
      (max_bytes : ℕ) (sha : Bytes) (o : Option (ℕ × Stream)) (body : Bytes)
      → (read_answer max_bytes sha o ≡ ok body) ↔ (
          (o ≡ some (200, record { bytes = body; broken = false }))
          × (length body ≤ max_bytes)
          × (encode_to_string (sha256 body) ≡ sha))
  read_answer_iff n sha none body =
      (λ h. absurd (ground arith), λ (e, _, _). absurd (none_ne_some e))
  read_answer_iff n sha (some (status, stream)) body =
      let verified = verify_body_iff n sha stream.bytes stream.broken body in
      elim (Bool-cases (status == 200)) [
        | inr bad ↦ (
          λ h. absurd (ground arith),
          λ (e, _, _).
              let same : status ≡ 200 = ap (λ (a : ℕ × Stream). a.0) (some_inj e) in
              absurd (ground arith),
        )
        | inl good ↦ (
          λ h.
              let (whole, same, cap, digest) = verified.0 (ground arith) in
              (
                ap (λ (k : ℕ). some (k, stream)) ((==_iff status 200).0 good)
                    ∙ (ap (λ (b : Bytes). some (200, record { bytes = b; broken = stream.broken }))
                          same
                        ∙ ap (λ (x : Bool). some (200, record { bytes = body; broken = x })) whole),
                cap,
                digest,
              ),
          λ (e, cap, digest).
              let answer = some_inj e in
              let done = verified.1 (
                ap (λ (a : ℕ × Stream). a.1.broken) answer,
                ap (λ (a : ℕ × Stream). a.1.bytes) answer,
                cap,
                digest,
              ) in
              ground arith,
        )
      ]

  -- Bytes come back exactly when the scheme is allowed, the request can be made, the answer is 200,
  -- the body arrives whole and within the cap, and its digest is the one asked for.
  pub fetch_iff :
      (f : Fetcher) (client : Client) (server_url sha body : Bytes)
      → (fetch f client server_url sha ≡ ok body) ↔ (
          ((client.scheme server_url ≡ codes "https")
            ⊎ ((client.scheme server_url ≡ codes "http") × (f.allow_http ≡ true)))
          × (client.request_ok (target_of server_url sha) ≡ true)
          × (client.get (target_of server_url sha)
              ≡ some (200, record { bytes = body; broken = false }))
          × (length body ≤ f.max_bytes)
          × (encode_to_string (sha256 body) ≡ sha))
  unfolding fetch
  fetch_iff f client server_url sha body =
      let scheme = validate_scheme_iff (client.scheme server_url) f.allow_http in
      let answer = read_answer_iff f.max_bytes sha (client.get (target_of server_url sha)) body in
      (
        λ h.
            let (whole, cap, digest) = answer.0 (ground arith) in
            (scheme.0 (ground arith), ground arith, whole, cap, digest),
        λ (allowed, made, whole, cap, digest).
            let done = answer.1 (whole, cap, digest) in let yes = scheme.1 allowed in ground arith,
      )
