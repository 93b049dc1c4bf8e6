-- ===== src/Nip5a/Validate/Verdicts.antt =====
-- What the verdict of `Validate` of internal/nip5a/manifest.go says of its event.
use nostrhost_nsite.Prelude.{
  ◌≡◌, refl, ◌↔◌, inl, inr, true, false, List, [], ◌∷◌, some, arith, All, length, Bytes, beq,
  beq_iff, member, Bool-cases, ◌||◌,
}
use nostrhost_nsite.Hex.{decode_string, encode_to_string}
use nostrhost_nsite.Nostr.{Event, Checks}
use nostrhost_nsite.Nip5a.Base36.{is_valid_d, re_d}
use nostrhost_nsite.Nip5a.Label.{Nip19, named, decode_label}
use nostrhost_nsite.Nip5a.Label.Codec.{decode_label-named_label}
use nostrhost_nsite.Nip5a.Manifest.{kind_named, Options, dedupe, dedupe_from}
use nostrhost_nsite.Nip5a.Validate.{rule_errors, full_verdict, validate, label_of, path_tags}
use nostrhost_nsite.Nip5a.Validate.Paths.{IsSafe, scan_paths-All}
use nostrhost_nsite.Nip5a.Validate.Parts.{dedupe_iff}
use nostrhost_nsite.Nip5a.Validate.Rules.{IsManifest, rule_errors_sound, rule_errors_complete}

-- Every error is stated once, and none that stands in `seen`.
abbrev pub AreNew : List Bytes → List Bytes → Type 0
AreNew seen [] = Unit
AreNew seen (e ∷ es) = (member e seen ≡ false) × AreNew (e ∷ seen) es

AreNew-map :
    (s t es : List Bytes)
    → ((e : Bytes) → member e s ≡ false → member e t ≡ false)
    → AreNew s es
    → AreNew t es
unfolding member
AreNew-map s t [] f _ = tt
AreNew-map s t (e ∷ es) f (h, hs) =
    (f e h, AreNew-map (e ∷ s) (e ∷ t) es (λ x k. ground (arith, f x)) hs)

dedupe_from-AreNew : (seen es : List Bytes) → AreNew seen (dedupe_from seen es)
unfolding dedupe_from member
dedupe_from-AreNew seen [] = tt
dedupe_from-AreNew seen (e ∷ es) = elim (Bool-cases (member e seen)) [
  | inl y ↦
      rw y (AreNew-map (e ∷ seen) seen _ (λ x k. ground arith) (dedupe_from-AreNew (e ∷ seen) es))
  | inr n ↦ rw n (n, dedupe_from-AreNew (e ∷ seen) es)
]

member-dedupe_from :
    (x : Bytes) (seen es : List Bytes)
    → (member x seen || member x (dedupe_from seen es)) ≡ (member x seen || member x es)
unfolding dedupe_from member
member-dedupe_from x seen [] = refl
member-dedupe_from x seen (e ∷ es) = ground (arith, member-dedupe_from x (e ∷ seen) es, beq_iff e x)

identifier_nonempty : (d : Bytes) → is_valid_d d ≡ true → beq d [] ≡ false
unfolding is_valid_d re_d beq
identifier_nonempty [] h = absurd (ground arith)
identifier_nonempty (c ∷ d) h = refl

module _ (sha256 : Bytes → Bytes) (opts : Options) (checks : Checks) (nip19 : Nip19) where
  -- An event is a valid manifest exactly when its id and signature are right and it obeys the rules.
  pub validate_iff :
      (ev : Event)
      → ((b : Bytes) → length (sha256 b) ≡ 32)
      → ((validate sha256 opts checks nip19 ev).valid ≡ true) ↔ (
          (checks.check_id ev ≡ true)
          × (checks.check_signature ev ≡ true)
          × IsManifest sha256 opts ev)
  unfolding validate full_verdict
  validate_iff ev len = (
    λ h. (
      ground arith,
      ground arith,
      rule_errors_sound sha256 opts ev len ((dedupe_iff _).0 (ground arith)),
    ),
    λ (i, s, m).
        let none_left = (dedupe_iff _).1 (rule_errors_complete sha256 opts ev len m) in
        rw (i, s, none_left) refl,
  )

  -- The errors of a verdict are without repetition, and each is one that a rule gave.
  pub validate-AreNew : (ev : Event) → AreNew [] (validate sha256 opts checks nip19 ev).errors
  unfolding validate full_verdict dedupe member
  validate-AreNew ev = elim (Bool-cases (checks.check_id ev)) [
    | inr n ↦ rw n (refl, tt)
    | inl y ↦ elim (Bool-cases (checks.check_signature ev)) [
      | inr n ↦ rw (y, n) (refl, tt)
      | inl z ↦ rw (y, z) (dedupe_from-AreNew [] (rule_errors sha256 opts ev))
    ]
  ]

  validate-full :
      (ev : Event)
      → checks.check_id ev ≡ true
      → checks.check_signature ev ≡ true
      → validate sha256 opts checks nip19 ev ≡ full_verdict sha256 opts nip19 ev
  unfolding validate
  validate-full ev i s = rw (i, s) refl

  -- A valid named manifest has a label that leads back to the site that it is the manifest of.
  pub validate-decode_label :
      (ev : Event) (b : Bytes)
      → ((b : Bytes) → length (sha256 b) ≡ 32)
      → (validate sha256 opts checks nip19 ev).valid ≡ true
      → ev.kind ≡ kind_named
      → decode_string ev.pubkey ≡ some b
      → length b ≡ 32
      → decode_label nip19 (validate sha256 opts checks nip19 ev).label
        ≡ some (record {
          site_type = named;
          hex_id = encode_to_string b;
          d = (validate sha256 opts checks nip19 ev).d;
        })
  unfolding full_verdict label_of
  validate-decode_label ev b len h named_kind key key_length =
      let (i, s, m) = (validate_iff ev len).0 h in
      let (d, one, valid) = m.identifier.0 named_kind in
      let (label, e, back) = decode_label-named_label nip19 ev.pubkey b d key key_length valid in
      rw (validate-full ev i s) (rw (named_kind, one, identifier_nonempty d valid, e) back)

  -- Every path of a verdict is safe, whether or not the manifest is valid.
  pub validate-All : (ev : Event) → All IsSafe (validate sha256 opts checks nip19 ev).paths
  unfolding validate full_verdict
  validate-All ev = elim (Bool-cases (checks.check_id ev)) [
    | inr n ↦ rw n tt
    | inl y ↦ elim (Bool-cases (checks.check_signature ev)) [
      | inr n ↦ rw (y, n) tt
      | inl z ↦ rw (y, z) (scan_paths-All [] (path_tags ev))
    ]
  ]
