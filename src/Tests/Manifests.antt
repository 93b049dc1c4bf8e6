-- ===== src/Tests/Manifests.antt =====
-- Tests of the manifest rules of internal/nip5a/manifest.go.
use mathlib.Core.List.Perm
use nostrhost_nsite.Prelude.{
  ◌≡◌, ◌↔◌, refl, true, [], ◌∷◌, some, All, Bytes, codes, length, length-replicate, replicate, ◌%◌,
  beq, member, has_prefix, has_suffix, contains, after_last, split_on,
}
use nostrhost_nsite.Hex.{decode_string, encode_to_string, is_lower_hex}
use nostrhost_nsite.Nostr.{Event}
use nostrhost_nsite.Nip5a.Base36.{is_valid_d, re_d, is_d_char}
use nostrhost_nsite.Nip5a.Label.{named, decode_label}
use nostrhost_nsite.Nip5a.Manifest.{
  Options, SitePath, aggregate_hash, tag_values, filter_tags, has_path_extension, bad_path_chars,
  is_sha256_hex, dedupe, dedupe_from,
}
use nostrhost_nsite.Nip5a.Manifest.Aggregate.{aggregate_hash-Perm}
use nostrhost_nsite.Nip5a.Validate.{
  validate, full_verdict, rule_errors, kind_errors, d_errors, check_path, scan_paths,
  x_count_errors, x_errors, ref_errors, a_errors,
}
use nostrhost_nsite.Nip5a.Validate.Paths.{IsSafe}
use nostrhost_nsite.Nip5a.Validate.Rules.{IsManifest}
use nostrhost_nsite.Nip5a.Validate.Verdicts.{validate_iff, validate-All, validate-decode_label}
use nostrhost_nsite.Tests.Fixtures.{no_nip19, toy_sha256, trusting, two_sha, three_sha}

abbrev index_path : SitePath
index_path = record { path = codes "/index.html"; hash = two_sha }

abbrev style_path : SitePath
style_path = record { path = codes "/style.css"; hash = three_sha }

abbrev pub open_options : Options
open_options = record { forbidden_pubkeys = []; max_paths = 0 }

abbrev pub blog : Event
blog = record {
  id = three_sha;
  pubkey = two_sha;
  created_at = 7;
  kind = 35128;
  tags =
      (codes "d" ∷ codes "blog" ∷ [])
      ∷ (codes "path" ∷ codes "/index.html" ∷ two_sha ∷ [])
      ∷ (codes "path" ∷ codes "/style.css" ∷ three_sha ∷ [])
      ∷ [];
}

toy_length : (b : Bytes) → length (toy_sha256 b) ≡ 32
toy_length b = length-replicate 32 (length b % 256)

pub blog_valid : (validate toy_sha256 open_options trusting no_nip19 blog).valid ≡ true
unfolding validate full_verdict rule_errors kind_errors d_errors check_path scan_paths
    x_count_errors x_errors ref_errors a_errors tag_values filter_tags has_path_extension
    bad_path_chars is_sha256_hex dedupe dedupe_from is_valid_d re_d is_lower_hex is_d_char beq
    member has_prefix has_suffix contains after_last split_on
blog_valid = refl

validate_iff_example : ((validate toy_sha256 open_options trusting no_nip19 blog).valid ≡ true) ↔ (
    (trusting.check_id blog ≡ true)
    × (trusting.check_signature blog ≡ true)
    × IsManifest toy_sha256 open_options blog)
validate_iff_example = validate_iff toy_sha256 open_options trusting no_nip19 blog toy_length

validate-All_example : All IsSafe (validate toy_sha256 open_options trusting no_nip19 blog).paths
validate-All_example = validate-All toy_sha256 open_options trusting no_nip19 blog

two_decoded : decode_string two_sha ≡ some (replicate 32 2)
unfolding decode_string
two_decoded = refl

validate-decode_label_example :
    decode_label no_nip19 (validate toy_sha256 open_options trusting no_nip19 blog).label
    ≡ some (record {
      site_type = named;
      hex_id = encode_to_string (replicate 32 2);
      d = (validate toy_sha256 open_options trusting no_nip19 blog).d;
    })
validate-decode_label_example =
    validate-decode_label toy_sha256 open_options trusting no_nip19 blog (replicate 32 2) toy_length
      blog_valid refl two_decoded refl

aggregate_hash-Perm_example :
    aggregate_hash toy_sha256 (index_path ∷ style_path ∷ [])
    ≡ aggregate_hash toy_sha256 (style_path ∷ index_path ∷ [])
aggregate_hash-Perm_example =
    aggregate_hash-Perm toy_sha256 (index_path ∷ style_path ∷ []) (style_path ∷ index_path ∷ [])
      (Perm.swap style_path index_path [])
