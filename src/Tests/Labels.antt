-- ===== src/Tests/Labels.antt =====
-- Tests of the label codec of internal/nip5a/label.go.
use nostrhost_nsite.Prelude.{
  ◌≡◌, refl, true, [], ◌∷◌, some, Bytes, codes, has_suffix, has_prefix, beq, false,
}
use nostrhost_nsite.Digits.{value_from, fixed, shortest}
use nostrhost_nsite.Hex.{encode_to_string, decode_string}
use nostrhost_nsite.Nip5a.Base36.{
  base36_encode32, base36_decode50, is_valid_d, text36, b36_char, re_b36_fifty, is_b36, is_d_char,
  re_d, set_string36, parse_digits, digit_value,
}
use nostrhost_nsite.Nip5a.Label.{
  named, snapshot, Site, named_label, snapshot_label, decode_label, re_named,
}
use nostrhost_nsite.Nip5a.Label.Codec.{
  decode_label-named_label, decode_label-snapshot_label, IsLabelOf, decode_label_sound,
}
use nostrhost_nsite.Tests.Fixtures.{no_nip19, two_sha}

abbrev two_bytes : Bytes
two_bytes =
    2 ∷ 2 ∷ 2 ∷ 2 ∷ 2 ∷ 2 ∷ 2 ∷ 2 ∷ 2 ∷ 2 ∷ 2 ∷ 2 ∷ 2 ∷ 2 ∷ 2 ∷ 2 ∷ 2 ∷ 2 ∷ 2 ∷ 2 ∷ 2 ∷ 2 ∷ 2 ∷ 2
    ∷ 2 ∷ 2 ∷ 2 ∷ 2 ∷ 2 ∷ 2 ∷ 2 ∷ 2 ∷ []

two_decoded : decode_string two_sha ≡ some two_bytes
unfolding decode_string
two_decoded = refl

abbrev two_numeral : Bytes
two_numeral = codes "01sutkkezbarekeaxwvb2ejktadmp4olw868c40farpaoveewy"

two_encoded : base36_encode32 two_sha ≡ some two_numeral
unfolding base36_encode32 decode_string text36 value_from shortest b36_char
two_encoded = refl

two_decoded_again : base36_decode50 two_numeral ≡ some two_sha
unfolding base36_decode50 re_b36_fifty is_b36 set_string36 parse_digits digit_value value_from fixed
    encode_to_string
two_decoded_again = refl

blog_valid : is_valid_d (codes "blog") ≡ true
unfolding is_valid_d re_d is_d_char has_suffix beq
blog_valid = refl

dash_refused : is_valid_d (codes "blog-") ≡ false
unfolding is_valid_d re_d is_d_char has_suffix beq
dash_refused = refl

abbrev two_label : Bytes
two_label = codes "01sutkkezbarekeaxwvb2ejktadmp4olw868c40farpaoveewyblog"

abbrev two_site : Site
two_site = record { site_type = named; hex_id = two_sha; d = codes "blog" }

two_label_decoded : decode_label no_nip19 two_label ≡ some two_site
unfolding decode_label re_named has_prefix has_suffix beq is_d_char is_b36 re_b36_fifty
    base36_decode50 set_string36 parse_digits digit_value value_from fixed encode_to_string
two_label_decoded = refl

decode_label-named_label_example :
    (label : Bytes) × (named_label two_sha (codes "blog") ≡ some label)
    × (decode_label no_nip19 label
        ≡ some
            (record { site_type = named; hex_id = encode_to_string two_bytes; d = codes "blog" }))
decode_label-named_label_example =
    decode_label-named_label no_nip19 two_sha two_bytes (codes "blog") two_decoded refl blog_valid

decode_label-snapshot_label_example :
    (label : Bytes) × (snapshot_label two_sha ≡ some label)
    × (decode_label no_nip19 label
        ≡ some (record { site_type = snapshot; hex_id = encode_to_string two_bytes; d = [] }))
decode_label-snapshot_label_example =
    decode_label-snapshot_label no_nip19 two_sha two_bytes two_decoded refl

decode_label_sound_example : IsLabelOf no_nip19 two_label two_site
decode_label_sound_example = decode_label_sound no_nip19 two_label two_site two_label_decoded
