-- ===== src/Server/Paths/Safety.antt =====
-- What a path that `normalisePath` of internal/server/server.go lets pass looks like.
use mathlib.Core.Path.{subst}
use nostrhost_nsite.Prelude.{
  includes, ℕ, ◌≤◌, ◌≡◌, ◌≢◌, refl, ap, ◌∙◌, inl, inr, Bool, true, false, ◌||◌, List, [], ◌∷◌, ◌++◌,
  some, arith, ◌==◌, any, All, All-append, All-append_left, Bytes, codes, has_prefix, has_suffix,
  trim_suffix, contains, split_on, Bool-cases, Option-cases, drop, has_suffix_split, ◌⊎◌, ltb,
  none_ne_some, has_prefix_split,
}
use nostrhost_nsite.Server.Paths.{
  path_unescape, collapse, is_control, is_bad_segment, last_segment, index_html, with_index,
  normalise_decoded, normalise_path,
}
use nostrhost_nsite.Server.Paths.Segments.{
  collapse_absolute, collapse-All, contains_none, split_on-All, has_dots, split_on-includes,
  includes-append, after_last-append,
}

-- A character that may stand in a path.
abbrev pub IsPlain : ℕ → Type 0
IsPlain c = (32 ≤ c) × (c ≢ 127) × (c ≢ b'\\') × (c ≢ b'%')

-- A path as the gateway looks it up: absolute, of plain characters, without "..", and with an
-- extension at its end.
pub record IsSafe (q : Bytes) : Type 0 where
  pub absolute : (t : Bytes) × (q ≡ b'/' ∷ t)
  pub plain : All IsPlain q
  pub stays_inside : includes q (codes "..") ≡ false
  pub names_file : contains b'.' (last_segment q) ≡ true

any_mono :
    {A : Type 0} (p q : A → Bool) (xs : List A)
    → ((x : A) → p x ≡ false → q x ≡ false)
    → any p xs ≡ false
    → any q xs ≡ false
any_mono p q [] f h = refl
any_mono p q (x ∷ xs) f h = ground (arith, f x, any_mono p q xs f)

any-All :
    {A : Type 0} (p : A → Bool) (P : A → Type 0) (xs : List A)
    → ((x : A) → p x ≡ false → P x)
    → any p xs ≡ false
    → All P xs
any-All p P [] f h = tt
any-All p P (x ∷ xs) f h = (f x (ground arith), any-All p P xs f (ground arith))

All-zip :
    {A : Type 0} (P Q R : A → Type 0) (xs : List A)
    → ((x : A) → P x → Q x → R x)
    → All P xs
    → All Q xs
    → All R xs
All-zip P Q R [] f _ _ = tt
All-zip P Q R (x ∷ xs) f (p, ps) (q, qs) = (f x p q, All-zip P Q R xs f ps qs)

-- A character that is no control character and no backslash.
abbrev IsPrintable : ℕ → Type 0
IsPrintable c = (32 ≤ c) × (c ≢ 127) × (c ≢ b'\\')

segment-IsPrintable : (seg : Bytes) → is_bad_segment seg ≡ false → All IsPrintable seg
segment-IsPrintable seg h =
    All-zip (λ c. is_control c ≡ false) (λ c. c ≢ b'\\') IsPrintable seg
      (λ c k b. (ground arith, ground arith, b))
      (any-All is_control (λ c. is_control c ≡ false) seg (λ c k. k) (ground arith))
      (contains_none b'\\' seg (ground arith))

trim_slash :
    (s : Bytes) → (trim_suffix s (codes "/") ≡ s) ⊎ (s ≡ trim_suffix s (codes "/") ++ codes "/")
unfolding trim_suffix
trim_slash s = elim (Bool-cases (has_suffix s (codes "/"))) [
  | inl y ↦ inr (rw y (has_suffix_split s (codes "/") y))
  | inr n ↦ inl (rw n refl)
]

with_index-cases :
    (s : Bytes)
    → (with_index s ≡ trim_suffix s (codes "/") ++ b'/' ∷ index_html)
      ⊎ ((with_index s ≡ s) × (contains b'.' (last_segment s) ≡ true))
with_index-cases s = ground arith

index-IsPlain : All IsPlain (b'/' ∷ index_html)
index-IsPlain =
    any-All (λ c. ltb c 32 || c == 127 || c == b'\\' || c == b'%') IsPlain (b'/' ∷ index_html)
      (λ c k. (ground arith, ground arith, ground arith, ground arith)) refl

trim-IsPlain : (s : Bytes) → All IsPlain s → All IsPlain (trim_suffix s (codes "/"))
trim-IsPlain s h = elim (trim_slash s) [
  | inl same ↦ rw same h
  | inr split ↦
      All-append_left IsPlain (trim_suffix s (codes "/")) (codes "/") (subst (All IsPlain) split h)
]

with_index-IsPlain : (s : Bytes) → All IsPlain s → All IsPlain (with_index s)
with_index-IsPlain s h = elim (with_index-cases s) [
  | inl e ↦ rw e (All-append IsPlain _ _ (trim-IsPlain s h) index-IsPlain)
  | inr (e, _) ↦ rw e h
]

index_dots : includes index_html (codes "..") ≡ false
unfolding includes has_prefix
index_dots = refl

trim_dots :
    (s : Bytes)
    → includes s (codes "..") ≡ false
    → includes (trim_suffix s (codes "/")) (codes "..") ≡ false
trim_dots s h = elim (trim_slash s) [
  | inl same ↦ rw same h
  | inr split ↦
      let whole : includes (trim_suffix s (codes "/") ++ codes "/") (codes "..") ≡ false =
        subst (λ t. includes t (codes "..") ≡ false) split h in
      ground (arith, includes-append (trim_suffix s (codes "/")) [])
]

with_index_dots :
    (s : Bytes) → includes s (codes "..") ≡ false → includes (with_index s) (codes "..") ≡ false
with_index_dots s h = elim (with_index-cases s) [
  | inl e ↦ rw (e, includes-append (trim_suffix s (codes "/")) index_html, trim_dots s h) index_dots
  | inr (e, _) ↦ rw e h
]

slash_head : (w x u : Bytes) → b'/' ∷ u ≡ w ++ codes "/" → (t : Bytes) × (w ++ b'/' ∷ x ≡ b'/' ∷ t)
slash_head [] x u e = (x, refl)
slash_head (c ∷ w) x u e = (w ++ b'/' ∷ x, ground arith)

with_index_absolute : (u : Bytes) → (t : Bytes) × (with_index (b'/' ∷ u) ≡ b'/' ∷ t)
with_index_absolute u = elim (with_index-cases (b'/' ∷ u)) [
  | inr (e, _) ↦ (u, e)
  | inl e ↦ elim (trim_slash (b'/' ∷ u)) [
    | inl same ↦ (u ++ b'/' ∷ index_html, e ∙ ap (λ w. w ++ b'/' ∷ index_html) same)
    | inr split ↦ let (t, k) = slash_head _ index_html u split in (t, e ∙ k)
  ]
]

index_file : contains b'/' index_html ≡ false
unfolding contains
index_file = refl

with_index_file : (s : Bytes) → contains b'.' (last_segment (with_index s)) ≡ true
unfolding last_segment contains
with_index_file s = elim (with_index-cases s) [
  | inl e ↦ rw (e, after_last-append b'/' (trim_suffix s (codes "/")) index_html index_file) refl
  | inr (e, k) ↦ rw e k
]

normalise_decoded-some :
    (decoded q : Bytes)
    → normalise_decoded decoded ≡ some q
    → (contains b'%' decoded ≡ false)
      × (has_prefix decoded (codes "/") ≡ true)
      × (any is_bad_segment (split_on b'/' (collapse decoded)) ≡ false)
      × (q ≡ with_index (collapse decoded))
normalise_decoded-some decoded q h = ground arith

normalise_decoded-IsSafe : (decoded q : Bytes) → normalise_decoded decoded ≡ some q → IsSafe q
normalise_decoded-IsSafe decoded q h =
    let (no_percent, slash, clean, same) = normalise_decoded-some decoded q h in
    let s = collapse decoded in
    let segs = split_on b'/' s in
    let printable =
      split_on-All b'/' IsPrintable s (omega arith, λ e. omega arith, λ e. omega arith)
        (any-All is_bad_segment (λ seg. All IsPrintable seg) segs segment-IsPrintable clean) in
    let plain : All IsPlain s =
      All-zip IsPrintable (λ c. c ≢ b'%') IsPlain s (λ c (a, b, d) e. (a, b, d, e)) printable
        (collapse-All (λ c. c ≢ b'%') decoded (contains_none b'%' decoded no_percent)) in
    let dots =
      split_on-includes s (any_mono is_bad_segment has_dots segs (λ seg k. ground arith) clean) in
    let (v, from_root) = collapse_absolute (drop 1 decoded) in
    let at_root : s ≡ b'/' ∷ v =
      ap collapse (has_prefix_split decoded (codes "/") slash) ∙ from_root in
    let (t, absolute) = with_index_absolute v in
    rw same (record {
      absolute = (t, ap with_index at_root ∙ absolute);
      plain = with_index-IsPlain s plain;
      stays_inside = with_index_dots s dots;
      names_file = with_index_file s;
    })

-- What `normalisePath` returns is safe.
pub normalise_path-IsSafe : (p q : Bytes) → normalise_path p ≡ some q → IsSafe q
unfolding normalise_path
normalise_path-IsSafe p q h = elim (Option-cases (path_unescape p)) [
  | inl e ↦ absurd (none_ne_some (rw (e, normalise_path) at h))
  | inr (decoded, e) ↦ normalise_decoded-IsSafe decoded q (rw (e, normalise_path) at h)
]
