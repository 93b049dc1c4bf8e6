-- ===== src/Nip5a/Validate/Paths.antt =====
-- The `path` tags of internal/nip5a/manifest.go: which lists of tags the loop of `Validate` accepts,
-- and what holds of the paths that it keeps.
use nostrhost_nsite.Prelude.{
  ◌≤◌, ◌≡◌, ◌≢◌, refl, sym, ap, ◌∙◌, ◌↔◌, ◌⊎◌, inl, inr, Bool, true, false, List, [], ◌∷◌, ◌++◌,
  arith, All, All-map, any, map, Bytes, codes, beq, beq→eq, eq→beq, has_prefix, has_prefix_split,
  has_prefix-append, member, drop, split_on, Bool-cases,
}
use nostrhost_nsite.Nostr.{tag_is}
use nostrhost_nsite.Nip5a.Manifest.{
  SitePath, is_sha256_hex, has_path_extension, bad_path_chars, is_bad_char, error_if,
}
use nostrhost_nsite.Nip5a.Validate.{PathCheck, bad, good, check_pair, check_path, scan_paths}

-- An absolute path of printable characters other than the backslash, without a segment "..", whose
-- last segment has an extension, and a digest.
pub record IsSafe (p : SitePath) : Type 0 where
  pub absolute : (t : Bytes) × (p.path ≡ b'/' ∷ t)
  pub has_extension : has_path_extension p.path ≡ true
  pub printable : All (λ c. (32 ≤ c) × (c ≢ 127) × (c ≢ b'\\')) p.path
  pub stays_inside : All (λ seg. seg ≢ codes "..") (split_on b'/' p.path)
  pub is_digest : is_sha256_hex p.hash ≡ true

-- No path stands in `seen` or twice in the list.
abbrev pub AreFresh : List Bytes → List SitePath → Type 0
AreFresh seen [] = Unit
AreFresh seen (p ∷ ps) = (member p.path seen ≡ false) × AreFresh (p.path ∷ seen) ps

-- The tag of a path.
abbrev pub path_tag : SitePath → List Bytes
path_tag p = codes "path" ∷ p.path ∷ p.hash ∷ []

any_none {ℓ} :
    {A : Type ℓ} (p : A → Bool) (xs : List A) → any p xs ≡ false → All (λ x. p x ≡ false) xs
any_none p [] h = tt
any_none p (x ∷ xs) h = (ground arith, any_none p xs (ground arith))

none_any {ℓ} :
    {A : Type ℓ} (p : A → Bool) (xs : List A) → All (λ x. p x ≡ false) xs → any p xs ≡ false
none_any p [] h = refl
none_any p (x ∷ xs) (h, hs) = ground (arith, none_any p xs hs)

bad_path_chars_iff :
    (path : Bytes)
    → (bad_path_chars path ≡ false) ↔ (
        All (λ c. (32 ≤ c) × (c ≢ 127) × (c ≢ b'\\')) path
        × All (λ seg. seg ≢ codes "..") (split_on b'/' path))
unfolding bad_path_chars
bad_path_chars_iff path =
    let is_parent : Bytes → Bool = λ seg. beq seg (codes "..") in
    (
      λ h. (
        All-map (λ c. is_bad_char c ≡ false) _ path
            (λ c k. (ground arith, ground arith, ground arith))
            (any_none is_bad_char path (ground arith)),
        All-map (λ seg. is_parent seg ≡ false) _ (split_on b'/' path)
            (λ seg k e. absurd (ground (arith, eq→beq seg (codes ".."))))
            (any_none is_parent (split_on b'/' path) (ground arith)),
      ),
      λ (hc, hs).
          let chars = none_any is_bad_char path (All-map _ _ path (λ c k. ground arith) hc) in
          let segs = none_any is_parent (split_on b'/' path) (
            All-map _ _ _
              (λ seg k. elim (Bool-cases (is_parent seg)) [
                | inl y ↦ absurd (k (beq→eq seg _ y))
                | inr n ↦ n
              ])
              hs) in
          rw (chars, segs),
    )

slash_iff : (s : Bytes) → (has_prefix s (codes "/") ≡ true) ↔ ((t : Bytes) × (s ≡ b'/' ∷ t))
slash_iff s = (
  λ h. (drop 1 s, has_prefix_split s (codes "/") h),
  λ (t, e). rw e (has_prefix-append (codes "/") t),
)

check_pair-good :
    (path hash : Bytes) (p : SitePath)
    → check_pair path hash ≡ good p
    → (p ≡ record { path = path; hash = hash })
      × (has_prefix path (codes "/") ≡ true)
      × (has_path_extension path ≡ true)
      × (bad_path_chars path ≡ false)
      × (is_sha256_hex hash ≡ true)
check_pair-good path hash p h = ground arith

check_pair_sound :
    (path hash : Bytes) (p : SitePath)
    → check_pair path hash ≡ good p
    → (p ≡ record { path = path; hash = hash }) × IsSafe p
check_pair_sound path hash p h =
    let (same, slash, ext, chars, digest) = check_pair-good path hash p h in
    let clean = (bad_path_chars_iff path).0 chars in
    (
      same,
      rw same (record {
        absolute = (slash_iff path).0 slash;
        has_extension = ext;
        printable = clean.0;
        stays_inside = clean.1;
        is_digest = digest;
      }),
    )

check_pair_complete : (p : SitePath) → IsSafe p → check_pair p.path p.hash ≡ good p
check_pair_complete p safe =
    let slash = (slash_iff p.path).1 safe.absolute in
    let chars = (bad_path_chars_iff p.path).1 (safe.printable, safe.stays_inside) in
    rw (slash, safe.has_extension, chars, safe.is_digest) refl

check_path_sound :
    (t : List Bytes) (p : SitePath)
    → check_path t ≡ good p
    → ((name : Bytes) × (t ≡ name ∷ p.path ∷ p.hash ∷ [])) × IsSafe p
unfolding check_path
check_path_sound [] p h = absurd (ground arith)
check_path_sound (name ∷ []) p h = absurd (ground arith)
check_path_sound (name ∷ path ∷ []) p h = absurd (ground arith)
check_path_sound (name ∷ path ∷ hash ∷ []) p h =
    let (same, safe) = check_pair_sound path hash p h in
    ((name, rw (ap (λ (q : SitePath). q.path) same, ap (λ (q : SitePath). q.hash) same) refl), safe)
check_path_sound (name ∷ path ∷ hash ∷ x ∷ t) p h = absurd (ground arith)

PathCheck-cases : (c : PathCheck) → ((e : Bytes) × (c ≡ bad e)) ⊎ ((p : SitePath) × (c ≡ good p))
PathCheck-cases (bad e) = inl (e, refl)
PathCheck-cases (good p) = inr (p, refl)

scan_paths-bad :
    (seen : List Bytes) (t : List Bytes) (ts : List (List Bytes)) (e : Bytes)
    → check_path t ≡ bad e
    → scan_paths seen (t ∷ ts) ≡ (e ∷ (scan_paths seen ts).0, (scan_paths seen ts).1)
unfolding scan_paths
scan_paths-bad seen t ts e h = rw (h, scan_paths) refl

scan_paths-good :
    (seen : List Bytes) (t : List Bytes) (ts : List (List Bytes)) (p : SitePath)
    → check_path t ≡ good p
    → scan_paths seen (t ∷ ts) ≡ (
      error_if (member p.path seen) (codes "duplicate_path") ++ (scan_paths (p.path ∷ seen) ts).0,
      p ∷ (scan_paths (p.path ∷ seen) ts).1,
    )
unfolding scan_paths
scan_paths-good seen t ts p h = rw (h, scan_paths) refl

-- Whatever the tags are, the paths kept are safe.
pub scan_paths-All :
    (seen : List Bytes) (ts : List (List Bytes)) → All IsSafe (scan_paths seen ts).1
scan_paths-All seen [] = unfold scan_paths in tt
scan_paths-All seen (t ∷ ts) = elim (PathCheck-cases (check_path t)) [
  | inl (e, h) ↦ rw (scan_paths-bad seen t ts e h) (scan_paths-All seen ts)
  | inr (p, h) ↦
      rw (scan_paths-good seen t ts p h)
        ((check_path_sound t p h).1, scan_paths-All (p.path ∷ seen) ts)
]

error_if-append :
    (c : Bool) (e : Bytes) (es : List Bytes) → error_if c e ++ es ≡ [] → (c ≡ false) × (es ≡ [])
error_if-append true e es h = absurd (ground arith)
error_if-append false e es h = (refl, h)

-- Without an error the tags are those of the paths kept, each path a new one.
pub scan_paths_sound :
    (seen : List Bytes) (ts : List (List Bytes))
    → All (λ t. tag_is (codes "path") t ≡ true) ts
    → (scan_paths seen ts).0 ≡ []
    → (ts ≡ map path_tag (scan_paths seen ts).1) × AreFresh seen (scan_paths seen ts).1
scan_paths_sound seen [] _ h = unfold scan_paths in (refl, tt)
scan_paths_sound seen (t ∷ ts) (is_path, are_paths) h = elim (PathCheck-cases (check_path t)) [
  | inl (e, c) ↦ absurd (ground (arith, scan_paths-bad seen t ts e c))
  | inr (p, c) ↦
      let ((name, shape), safe) = check_path_sound t p c in
      let step = scan_paths-good seen t ts p c in
      let clean : error_if (member p.path seen) (codes "duplicate_path")
            ++ (scan_paths (p.path ∷ seen) ts).0
          ≡ [] =
        ap (λ (r : List Bytes × List SitePath). r.0) (sym step) ∙ h in
      let (new, rest_clean) = error_if-append _ _ _ clean in
      let (same, fresh) = scan_paths_sound (p.path ∷ seen) ts are_paths rest_clean in
      let is_name : tag_is (codes "path") (name ∷ p.path ∷ p.hash ∷ []) ≡ true =
        rw shape at is_path in
      let head : t ≡ path_tag p =
        shape ∙ ap (λ (x : Bytes). x ∷ p.path ∷ p.hash ∷ []) (beq→eq name (codes "path") is_name) in
      rw step (ap (λ (x : List Bytes). x ∷ ts) head ∙ ap (λ r. path_tag p ∷ r) same, (new, fresh))
]

pub scan_paths_complete :
    (seen : List Bytes) (ps : List SitePath)
    → All IsSafe ps
    → AreFresh seen ps
    → scan_paths seen (map path_tag ps) ≡ ([], ps)
unfolding scan_paths check_path has_prefix
scan_paths_complete seen [] _ _ = refl
scan_paths_complete seen (p ∷ ps) (safe, all_safe) (fresh, all_fresh) =
    rw
      (check_pair_complete p safe, fresh, scan_paths_complete (p.path ∷ seen) ps all_safe all_fresh)
      refl
