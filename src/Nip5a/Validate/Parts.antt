-- ===== src/Nip5a/Validate/Parts.antt =====
-- The parts of `Validate` of internal/nip5a/manifest.go: when each gives no error.
use nostrhost_nsite.Prelude.{
  ℕ, ◌≤◌, ◌≡◌, ◌≢◌, refl, ap, ◌∙◌, ◌↔◌, ◌⊎◌, inl, inr, Bool, true, false, List, [], ◌∷◌, ◌++◌,
  arith, All, map, length, Bytes, codes, beq_iff, member, Bool-cases, filter, ==_iff, ltb, ◌==◌,
}
use nostrhost_nsite.Nostr.{value_of}
use nostrhost_nsite.Nip5a.Base36.{is_valid_d}
use nostrhost_nsite.Nip5a.Manifest.{
  kind_root, kind_named, kind_snapshot, error_if, dedupe, dedupe_from,
}
use nostrhost_nsite.Nip5a.Validate.{
  kind_errors, d_errors, x_count_errors, is_x_tag, x_errors, is_ref_tag, ref_errors, a_errors,
  first_value,
}

-- The kind is one of the three.
abbrev pub IsManifestKind : ℕ → Type 0
IsManifestKind kind = (kind ≡ kind_root) ⊎ (kind ≡ kind_named) ⊎ (kind ≡ kind_snapshot)

-- A named site has one valid identifier, a root site none.
abbrev pub HasIdentifier : ℕ → List Bytes → Type 0
HasIdentifier kind d_values =
    (kind ≡ kind_named → (d : Bytes) × (d_values ≡ d ∷ []) × (is_valid_d d ≡ true))
    × (kind ≡ kind_root → d_values ≡ [])

-- The tag gives the aggregate hash.
abbrev pub IsAggregate : Bytes → List Bytes → Type 0
IsAggregate hash t = (is_x_tag t ≡ true) × (value_of t ≡ hash)

-- The references: one `a` tag and one `A` tag, which a snapshot may leave out, or neither.
abbrev pub HasReferences : ℕ → List (List Bytes) → List (List Bytes) → Type 0
HasReferences kind a_tags upper_a_tags =
    ((length a_tags ≡ 1)
      × ((length upper_a_tags ≡ 1) ⊎ ((length upper_a_tags ≡ 0) × (kind ≡ kind_snapshot)))
      × All (λ t. is_ref_tag t ≡ true) a_tags
      × All (λ t. is_ref_tag t ≡ true) upper_a_tags)
    ⊎ ((kind ≢ kind_snapshot) × (a_tags ≡ []) × (upper_a_tags ≡ []))

pub kind_errors_iff : (kind : ℕ) → (kind_errors kind ≡ []) ↔ IsManifestKind kind
unfolding kind_errors
kind_errors_iff kind = ground arith

pub d_errors_iff :
    (kind : ℕ) (d_values : List Bytes) → (d_errors kind d_values ≡ []) ↔ HasIdentifier kind d_values
unfolding d_errors
d_errors_iff kind [] = (
  λ h. (λ k. absurd (ground arith), λ k. refl),
  λ (n, r). elim (Bool-cases (kind == kind_named)) [
    | inl y ↦ let (d, e, v) = n ((==_iff kind kind_named).0 y) in absurd (ground arith)
    | inr unnamed ↦ ground arith
  ],
)
d_errors_iff kind (d ∷ []) = (
  λ h. (λ k. (d, refl, ground arith), λ k. absurd (ground arith)),
  λ (n, r). elim (Bool-cases (kind == kind_named)) [
    | inl y ↦
        let (d', e, v) = n ((==_iff kind kind_named).0 y) in
        let v' : is_valid_d d ≡ true = ap is_valid_d (ap first_value e) ∙ v in ground arith
    | inr unnamed ↦ elim (Bool-cases (kind == kind_root)) [
      | inl y ↦ let e = r ((==_iff kind kind_root).0 y) in absurd (ground arith)
      | inr other ↦ ground arith
    ]
  ],
)
d_errors_iff kind (d ∷ e ∷ ds) = (
  λ h. (λ k. absurd (ground arith), λ k. absurd (ground arith)),
  λ (n, r). elim (Bool-cases (kind == kind_named)) [
    | inl y ↦ let (d', e, v) = n ((==_iff kind kind_named).0 y) in absurd (ground arith)
    | inr unnamed ↦ elim (Bool-cases (kind == kind_root)) [
      | inl y ↦ let e = r ((==_iff kind kind_root).0 y) in absurd (ground arith)
      | inr other ↦ ground arith
    ]
  ],
)

pub ref_errors_iff :
    (e : Bytes) (ts : List (List Bytes))
    → (ref_errors e ts ≡ []) ↔ All (λ t. is_ref_tag t ≡ true) ts
unfolding ref_errors
ref_errors_iff e [] = (λ h. tt, λ h. refl)
ref_errors_iff e (t ∷ ts) = elim (Bool-cases (is_ref_tag t)) [
  | inl y ↦ ground (arith, ref_errors_iff e ts)
  | inr n ↦ ground (arith, ref_errors_iff e ts)
]

pub x_errors_iff :
    (hash : Bytes) (ts : List (List Bytes))
    → hash ≢ []
    → (x_errors hash ts ≡ []) ↔ All (IsAggregate hash) ts
unfolding x_errors
x_errors_iff hash [] full = (λ h. tt, λ h. refl)
x_errors_iff hash (t ∷ ts) full =
    ground (arith, x_errors_iff hash ts full, beq_iff hash [], beq_iff (value_of t) hash)

pub dedupe_iff : (es : List Bytes) → (dedupe es ≡ []) ↔ (es ≡ [])
unfolding dedupe dedupe_from member
dedupe_iff [] = (λ h. refl, λ h. refl)
dedupe_iff (e ∷ es) = (λ h. absurd (ground arith), λ h. absurd (ground arith))

pub error_if_iff : (c : Bool) (e : Bytes) → (error_if c e ≡ []) ↔ (c ≡ false)
error_if_iff c e = ground arith

pub append_iff : (xs ys : List Bytes) → (xs ++ ys ≡ []) ↔ ((xs ≡ []) × (ys ≡ []))
append_iff [] ys = (λ h. (refl, h), λ (h, k). k)
append_iff (x ∷ xs) ys = (λ h. absurd (ground arith), λ (h, k). absurd (ground arith))

pub a_errors_iff :
    (kind : ℕ) (a_tags upper_a_tags : List (List Bytes))
    → (a_errors kind a_tags upper_a_tags ≡ []) ↔ HasReferences kind a_tags upper_a_tags
unfolding a_errors
a_errors_iff kind [] [] = ground arith
a_errors_iff kind [] (u ∷ us) = ground arith
a_errors_iff kind (a ∷ []) [] =
    ground (
      arith,
      ref_errors_iff (codes "bad_a_shape") (a ∷ []),
      ref_errors_iff (codes "bad_A_shape") [],
    )
a_errors_iff kind (a ∷ []) (u ∷ []) = ground (
  arith,
  ref_errors_iff (codes "bad_a_shape") (a ∷ []),
  ref_errors_iff (codes "bad_A_shape") (u ∷ []),
)
a_errors_iff kind (a ∷ []) (u ∷ w ∷ us) = ground arith
a_errors_iff kind (a ∷ b ∷ as') us = ground arith

pub x_count_errors_iff :
    (kind : ℕ) (ts : List (List Bytes))
    → (x_count_errors kind ts ≡ []) ↔ (kind ≡ kind_snapshot → length ts ≡ 1)
unfolding x_count_errors
x_count_errors_iff kind ts = (
  λ h k. ground arith,
  λ f. elim (Bool-cases (kind == kind_snapshot)) [
    | inl y ↦ let one = f ((==_iff kind kind_snapshot).0 y) in ground arith
    | inr other ↦ ground arith
  ],
)

pub length-map {ℓ κ} :
    {A : Type ℓ} {B : Type κ} (f : A → B) (xs : List A) → length (map f xs) ≡ length xs
length-map f [] = refl
length-map f (x ∷ xs) = omega (arith, length-map f xs)

pub filter-All {ℓ} : {A : Type ℓ} (p : A → Bool) (xs : List A) → All (λ x. p x ≡ true) (filter p xs)
filter-All p [] = tt
filter-All p (x ∷ xs) = elim (Bool-cases (p x)) [
  | inl y ↦ rw (y, filter) (y, filter-All p xs)
  | inr n ↦ rw (n, filter) (filter-All p xs)
]

pub append_nine :
    (a b c d e f g h i : List Bytes)
    → a ++ b ++ c ++ d ++ e ++ f ++ g ++ h ++ i ≡ []
    → (a ≡ [])
      × (b ≡ [])
      × (c ≡ [])
      × (d ≡ [])
      × (e ≡ [])
      × (f ≡ [])
      × (g ≡ [])
      × (h ≡ [])
      × (i ≡ [])
append_nine a b c d e f g h i nil =
    let (n8, ni) = (append_iff _ i).0 nil in
    let (n7, nh) = (append_iff _ h).0 n8 in
    let (n6, ng) = (append_iff _ g).0 n7 in
    let (n5, nf) = (append_iff _ f).0 n6 in
    let (n4, ne) = (append_iff _ e).0 n5 in
    let (n3, nd) = (append_iff _ d).0 n4 in
    let (n2, nc) = (append_iff _ c).0 n3 in
    let (na, nb) = (append_iff a b).0 n2 in (na, nb, nc, nd, ne, nf, ng, nh, ni)

pub some_paths : (n m : ℕ) → n ≡ m → error_if (n == 0) (codes "no_paths") ≡ [] → 1 ≤ m
some_paths n m h e = ground arith

pub few_paths : (b n m : ℕ) → n ≡ m → error_if (ltb b n) (codes "oversize_path_count") ≡ [] → m ≤ b
few_paths b n m h e = ground arith
