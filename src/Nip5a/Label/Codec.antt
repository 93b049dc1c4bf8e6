-- ===== src/Nip5a/Label/Codec.antt =====
-- `DecodeLabel` of internal/nip5a/label.go against the functions that make labels.
use mathlib.Core.Path.{subst}
use nostrhost_nsite.Prelude.{
  ℕ, ◌+◌, ◌-◌, ◌≤◌, ◌≡◌, refl, sym, ◌∙◌, true, false, not, ◌&&◌, [], ◌∷◌, ◌++◌, Option, none, some,
  inl, inr, arith, ==_iff, Bool-cases, and_split, some_inj, none_ne_some, ◌==◌, leb→le, le→leb,
  length, length-append, length-drop, take, drop, take-length_append, drop-length_append,
  take-append-drop, all, Bytes, codes, beq, beq→eq, has_prefix, has_suffix, has_suffix-append_right,
}
use nostrhost_nsite.Hex.{encode_to_string, decode_string}
use nostrhost_nsite.Nip5a.Base36.{
  is_b36, is_d_char, re_b36_fifty, re_d, is_valid_d, base36_decode50,
}
use nostrhost_nsite.Nip5a.Base36.RoundTrip.{encode32-decode50, encode32_numeral}
use nostrhost_nsite.Nip5a.Label.{
  SiteType, root, named, snapshot, Nip19, Nip19Value, text, other, Site, named_label,
  snapshot_label, re_named, decode_label, root_site, snapshot_site, named_site, starts_with_v,
}

abbrev named_site_of : Bytes → Bytes → Site
named_site_of pk d = record { site_type = named; hex_id = pk; d = d }

low_first-has_prefix : (c : ℕ) (s : Bytes) → c ≤ b'6' → has_prefix (c ∷ s) (codes "npub1") ≡ false
unfolding has_prefix
low_first-has_prefix c s h = ground arith

fifty_long : (s : Bytes) → re_b36_fifty s ≡ true → (length s ≡ 50) × (all is_b36 s ≡ true)
unfolding re_b36_fifty
fifty_long s h = (ground arith, ground arith)

valid_d_parts :
    (d : Bytes)
    → is_valid_d d ≡ true
    → (1 ≤ length d)
      × (length d ≤ 13)
      × (all is_d_char d ≡ true)
      × (has_suffix d (codes "-") ≡ false)
unfolding is_valid_d re_d
valid_d_parts d h = (ground arith, ground arith, ground arith, ground arith)

re_named-append :
    (s d : Bytes)
    → re_b36_fifty s ≡ true
    → is_valid_d d ≡ true
    → (re_named (s ++ d) ≡ true) × (has_suffix (s ++ d) (codes "-") ≡ false)
unfolding re_named
re_named-append s d matched valid =
    let (len, chars) = fifty_long s matched in
    let (lo, hi, d_chars, no_dash) = valid_d_parts d valid in
    let len_sd : length (s ++ d) ≡ 50 + length d = omega (arith, length-append s d) in
    (
      rw (take-length_append 50 s d len, drop-length_append 50 s d len, chars, d_chars, len_sd)
          (ground arith),
      has_suffix-append_right s d (codes "-") lo ∙ no_dash,
    )

decode_named :
    (nip19 : Nip19) (c : ℕ) (t d hex : Bytes)
    → re_b36_fifty (c ∷ t) ≡ true
    → base36_decode50 (c ∷ t) ≡ some hex
    → c ≤ b'6'
    → is_valid_d d ≡ true
    → decode_label nip19 ((c ∷ t) ++ d) ≡ some (record { site_type = named; hex_id = hex; d = d })
unfolding decode_label
decode_named nip19 c t d hex matched decoded small valid =
    let (len, _) = fifty_long (c ∷ t) matched in
    let (is_named, no_dash) = re_named-append (c ∷ t) d matched valid in
    let front : take 50 ((c ∷ t) ++ d) ≡ c ∷ t = take-length_append 50 (c ∷ t) d len in
    let back : drop 50 ((c ∷ t) ++ d) ≡ d = drop-length_append 50 (c ∷ t) d len in
    ground (arith, low_first-has_prefix c (t ++ d) small)

-- Decoding the label of a named site gives the site back, its key in lower case, for every valid
-- identifier and every 32-byte key in hexadecimal, whatever package nip19 does.
pub decode_label-named_label :
    (nip19 : Nip19) (pubkey_hex b d : Bytes)
    → decode_string pubkey_hex ≡ some b
    → length b ≡ 32
    → is_valid_d d ≡ true
    → (label : Bytes) × (named_label pubkey_hex d ≡ some label)
      × (decode_label nip19 label
          ≡ some (record { site_type = named; hex_id = encode_to_string b; d = d }))
unfolding named_label
decode_label-named_label nip19 h b d e len valid =
    let (c, t, encoded, matched, decoded, small) = encode32_numeral h b e len in
    (
      (c ∷ t) ++ d,
      rw (encoded, named_label),
      decode_named nip19 c t d (encode_to_string b) matched decoded small valid,
    )

decode_snapshot :
    (nip19 : Nip19) (t hex : Bytes)
    → re_b36_fifty t ≡ true
    → base36_decode50 t ≡ some hex
    → decode_label nip19 (b'v' ∷ t) ≡ some (record { site_type = snapshot; hex_id = hex; d = [] })
unfolding decode_label has_prefix
decode_snapshot nip19 t hex matched decoded =
    let (len, _) = fifty_long t matched in rw (matched, decoded, len)

-- Decoding the label of a snapshot gives its event id back, in lower case, for every 32-byte id
-- in hexadecimal.
pub decode_label-snapshot_label :
    (nip19 : Nip19) (event_id_hex b : Bytes)
    → decode_string event_id_hex ≡ some b
    → length b ≡ 32
    → (label : Bytes) × (snapshot_label event_id_hex ≡ some label)
      × (decode_label nip19 label
          ≡ some (record { site_type = snapshot; hex_id = encode_to_string b; d = [] }))
unfolding snapshot_label
decode_label-snapshot_label nip19 h b e len =
    let (c, t, encoded, matched, decoded, small) = encode32_numeral h b e len in
    (
      b'v' ∷ c ∷ t,
      rw (encoded, snapshot_label),
      decode_snapshot nip19 (c ∷ t) (encode_to_string b) matched decoded,
    )

-- The label that a site has: the npub that package nip19 decodes to its key, or what
-- `NamedLabel` or `SnapshotLabel` makes of it.
abbrev pub LabelOf : Nip19 → Bytes → SiteType → Bytes → Bytes → Type 0
LabelOf nip19 label root pk d =
    (nip19.decode label ≡ some (codes "npub", text pk)) × (length pk ≡ 64) × (d ≡ [])
LabelOf nip19 label named pk d = (named_label pk d ≡ some label) × (is_valid_d d ≡ true)
LabelOf nip19 label snapshot id d = (snapshot_label id ≡ some label) × (d ≡ [])

abbrev pub IsLabelOf : Nip19 → Bytes → Site → Type 0
IsLabelOf nip19 label s = LabelOf nip19 label s.site_type s.hex_id s.d

root_site_sound :
    (nip19 : Nip19) (label : Bytes) (o : Option (Bytes × Nip19Value)) (s : Site)
    → nip19.decode label ≡ o
    → root_site o ≡ some s
    → IsLabelOf nip19 label s
root_site_sound nip19 label none s h e = cc
root_site_sound nip19 label (some (prefix, other)) s h e = cc
root_site_sound nip19 label (some (prefix, text pk)) s h e =
    elim (Bool-cases (beq prefix (codes "npub") && length pk == 64)) [
      | inl good ↦
          let (is_npub, len) = and_split _ _ good in
          let same : record { site_type = root; hex_id = pk; d = [] } ≡ s =
            some_inj (rw good at e) in
          subst (IsLabelOf nip19 label) same
            (rw (← beq→eq prefix _ is_npub) h, (==_iff _ _).0 len, refl)
      | inr bad ↦ absurd (none_ne_some (rw bad at e))
    ]

snapshot_site_sound :
    (nip19 : Nip19) (t : Bytes) (o : Option Bytes) (s : Site)
    → base36_decode50 t ≡ o
    → snapshot_site o ≡ some s
    → IsLabelOf nip19 (b'v' ∷ t) s
unfolding snapshot_label
snapshot_site_sound nip19 t none s h e = cc
snapshot_site_sound nip19 t (some id) s h e =
    let (b, _, _, _, encoded) = encode32-decode50 t id h in
    subst (IsLabelOf nip19 (b'v' ∷ t)) (some_inj e) (rw (encoded, snapshot_label), refl)

named_site_sound :
    (nip19 : Nip19) (t d : Bytes) (o : Option Bytes) (s : Site)
    → base36_decode50 t ≡ o
    → is_valid_d d ≡ true
    → named_site o d ≡ some s
    → IsLabelOf nip19 (t ++ d) s
unfolding named_label
named_site_sound nip19 t d none s h valid e = cc
named_site_sound nip19 t d (some pk) s h valid e =
    let (b, _, _, _, encoded) = encode32-decode50 t pk h in
    subst (IsLabelOf nip19 (t ++ d)) (some_inj e) (rw (encoded, named_label), valid)

starts_with_v_split : (s : Bytes) → starts_with_v s ≡ true → s ≡ b'v' ∷ drop 1 s
starts_with_v_split [] h = cc
starts_with_v_split (c ∷ s) h = ground arith

re_named-drop :
    (s : Bytes)
    → re_named s ≡ true
    → has_suffix s (codes "-") ≡ false
    → is_valid_d (drop 50 s) ≡ true
unfolding re_named is_valid_d re_d
re_named-drop s h no_dash =
    let (lengths, chars) = and_split _ _ h in
    let (long, short) = and_split _ _ lengths in
    let len : length (drop 50 s) ≡ length s - 50 = length-drop 50 s in
    let le_51 : 51 ≤ length s = leb→le 51 _ long in
    let le_63 : length s ≤ 63 = leb→le _ 63 short in
    let dash : has_suffix (take 50 s ++ drop 50 s) (codes "-")
        ≡ has_suffix (drop 50 s) (codes "-") =
      has_suffix-append_right (take 50 s) (drop 50 s) (codes "-") (omega arith) in
    let dash' : has_suffix (drop 50 s) (codes "-") ≡ false =
      sym dash ∙ rw take-append-drop no_dash in
    let d_chars : all is_d_char (drop 50 s) ≡ true = (and_split _ _ chars).1 in
    rw (
      le→leb 1 (length (drop 50 s)) (omega arith),
      le→leb (length (drop 50 s)) 13 (omega arith),
      d_chars,
      dash',
    )

-- A label that `DecodeLabel` accepts is the label of the site that it returns: encoding the site
-- gives the same label, so no two labels decode to one named site or to one snapshot.
pub decode_label_sound :
    (nip19 : Nip19) (label : Bytes) (s : Site)
    → decode_label nip19 label ≡ some s
    → IsLabelOf nip19 label s
unfolding decode_label
decode_label_sound nip19 label s e = elim (Bool-cases (has_prefix label (codes "npub1"))) [
  | inl is_npub ↦ root_site_sound nip19 label (nip19.decode label) s refl (rw is_npub at e)
  | inr not_npub ↦
      let e' = rw not_npub at e in
      elim (Bool-cases
        (length label == 51 && (starts_with_v label && re_b36_fifty (drop 1 label)))) [
          | inl is_snapshot ↦
              let v = starts_with_v_split label (and_split _ _ (and_split _ _ is_snapshot).1).0 in
              subst (λ l. IsLabelOf nip19 l s) (sym v)
                (snapshot_site_sound nip19 (drop 1 label) (base36_decode50 (drop 1 label)) s refl
                  (rw is_snapshot at e'))
          | inr not_snapshot ↦
              let e'' = rw not_snapshot at e' in
              elim (Bool-cases (re_named label && not (has_suffix label (codes "-")))) [
                | inl is_named ↦
                    let (matched, no_dash) = and_split _ _ is_named in
                    subst (λ l. IsLabelOf nip19 l s) (take-append-drop 50 label)
                      (named_site_sound nip19 (take 50 label) (drop 50 label)
                        (base36_decode50 (take 50 label)) s refl
                        (re_named-drop label matched (ground arith)) (rw is_named at e''))
                | inr neither ↦ absurd (none_ne_some (rw neither at e''))
              ]
        ]
]
