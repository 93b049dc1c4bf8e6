-- ===== src/Npk/Release/Tags.antt =====
-- Where `parseRelease` of internal/npk/npk.go takes name, version and digest from.
use nostrhost_nsite.Prelude.{
  ◌≡◌, refl, ◌∙◌, ◌⊎◌, inl, inr, Bool, true, ◌&&◌, ◌||◌, List, [], ◌∷◌, arith, any, map, Bytes,
  codes, beq, beq_self, ascii_lower, Bool-cases, length, ◌==◌,
}
use nostrhost_nsite.Nostr.{has_value, value_of}
use nostrhost_nsite.Npk.Release.{Release, is_hex, read_tag, read_tags}

-- A tag of that name, whose value is the text once it is written as the field is.
abbrev pub gives : Bytes → (Bytes → Bytes) → Bytes → List Bytes → Bool
gives key as_kept text t = has_value key t && beq (as_kept (value_of t)) text

-- The text is the value of such a tag.
abbrev pub IsTagged : Bytes → (Bytes → Bytes) → Bytes → List (List Bytes) → Type 0
IsTagged key as_kept text ts = any (gives key as_kept text) ts ≡ true

abbrev pub as_it_is : Bytes → Bytes
as_it_is s = s

abbrev pub in_lower_case : Bytes → Bytes
in_lower_case s = map ascii_lower s

any-here : (b c : Bool) → b ≡ true → (b || c) ≡ true
any-here b c h = ground arith

any-there : (b c : Bool) → c ≡ true → (b || c) ≡ true
any-there b c h = ground arith

module _ (key : Bytes) (as_kept : Bytes → Bytes) (field : Release → Bytes)
    (step : (t : List Bytes) (rel : Release)
      → (field (read_tag t rel) ≡ field rel)
        ⊎ (gives key as_kept (field (read_tag t rel)) t ≡ true)) where
  read_tags-IsTagged :
      (ts : List (List Bytes)) (rel : Release)
      → (field (read_tags ts rel) ≡ field rel) ⊎ IsTagged key as_kept (field (read_tags ts rel)) ts
  unfolding read_tags
  read_tags-IsTagged [] rel = inl refl
  read_tags-IsTagged (t ∷ ts) rel = elim (read_tags-IsTagged ts (read_tag t rel)) [
    | inr later ↦ inr (any-there (gives key as_kept (field (read_tags (t ∷ ts) rel)) t) _ later)
    | inl same ↦ elim (step t rel) [
      | inl kept ↦ inl (same ∙ kept)
      | inr here ↦ inr (
          any-here (gives key as_kept (field (read_tags (t ∷ ts) rel)) t)
            (any (gives key as_kept (field (read_tags (t ∷ ts) rel))) ts) (rw same here))
    ]
  ]

name_step :
    (t : List Bytes) (rel : Release)
    → ((read_tag t rel).name ≡ rel.name)
      ⊎ (gives (codes "name") as_it_is (read_tag t rel).name t ≡ true)
name_step [] rel = inl refl
name_step (key ∷ []) rel = inl refl
name_step (key ∷ value ∷ t) rel = elim (Bool-cases (beq key (codes "name"))) [
  | inl y ↦ inr (ground (arith, beq_self value))
  | inr n ↦ inl (ground arith)
]

version_step :
    (t : List Bytes) (rel : Release)
    → ((read_tag t rel).version ≡ rel.version)
      ⊎ (gives (codes "version") as_it_is (read_tag t rel).version t ≡ true)
version_step [] rel = inl refl
version_step (key ∷ []) rel = inl refl
version_step (key ∷ value ∷ t) rel = elim (Bool-cases (beq key (codes "name"))) [
  | inl y ↦ inl (ground arith)
  | inr n ↦ elim (Bool-cases (beq key (codes "version"))) [
    | inl v ↦ inr (ground (arith, beq_self value))
    | inr n' ↦ inl (ground arith)
  ]
]

digest_step :
    (t : List Bytes) (rel : Release)
    → ((read_tag t rel).sha256 ≡ rel.sha256)
      ⊎ (gives (codes "x") in_lower_case (read_tag t rel).sha256 t ≡ true)
digest_step [] rel = inl refl
digest_step (key ∷ []) rel = inl refl
digest_step (key ∷ value ∷ t) rel =
    elim (Bool-cases (beq key (codes "x") && (length value == 64 && is_hex value))) [
      | inr n ↦ inl (ground arith)
      | inl x ↦ elim (Bool-cases (beq key (codes "name") || beq key (codes "version"))) [
        | inl other ↦ inl (ground arith)
        | inr none_of ↦ inr (ground (arith, beq_self (map ascii_lower value)))
      ]
    ]

-- Each field that is read is the value of a tag.
pub record IsFrom (ts : List (List Bytes)) (start rel : Release) : Type 0 where
  pub name : (rel.name ≡ start.name) ⊎ IsTagged (codes "name") as_it_is rel.name ts
  pub version : (rel.version ≡ start.version) ⊎ IsTagged (codes "version") as_it_is rel.version ts
  pub digest : (rel.sha256 ≡ start.sha256) ⊎ IsTagged (codes "x") in_lower_case rel.sha256 ts

pub read_tags-IsFrom :
    (ts : List (List Bytes)) (start : Release) → IsFrom ts start (read_tags ts start)
read_tags-IsFrom ts start = record {
  name = read_tags-IsTagged (codes "name") as_it_is (λ r. r.name) name_step ts start;
  version = read_tags-IsTagged (codes "version") as_it_is (λ r. r.version) version_step ts start;
  digest = read_tags-IsTagged (codes "x") in_lower_case (λ r. r.sha256) digest_step ts start;
}
