-- ===== src/Npk/Bundle/Rel.antt =====
-- Which file of a bundle a path of a site names: `bundleRel` of internal/npk/npk.go.
use nostrhost_nsite.Prelude.{
  ℕ, ◌≡◌, ◌≢◌, ◌↔◌, refl, sym, ap, ◌∙◌, inl, inr, Bool, true, false, not, ◌||◌, List, [], ◌∷◌, ◌++◌,
  none, some, ◌==◌, arith, if◌then◌else◌, filter, All, Bytes, codes, beq, beq_iff, has_prefix,
  trim_prefix, contains, split_on, cons_head, member, append_assoc, append-nil, some_inj,
  none_ne_some, Bool-cases,
}
use nostrhost_nsite.Filepath.{clean, clean_segments, join_back, add_segment, is_abs}
use nostrhost_nsite.Npk.Bundle.{bundle_rel, checked_rel, first_segment}

-- A segment that is not empty and not ".".
abbrev pub is_named : Bytes → Bool
is_named seg = not (beq seg [] || beq seg (codes "."))

abbrev slash_each : List Bytes → Bytes
slash_each [] = []
slash_each (seg ∷ segs) = b'/' ∷ seg ++ slash_each segs

-- The segments with a slash between each two.
abbrev pub join_slash : List Bytes → Bytes
join_slash [] = []
join_slash (seg ∷ segs) = seg ++ slash_each segs

abbrev rev_onto : List Bytes → List Bytes → List Bytes
rev_onto [] stack = stack
rev_onto (seg ∷ segs) stack = rev_onto segs (seg ∷ stack)

add_segment-push :
    (rooted : Bool) (seg : Bytes) (stack : List Bytes)
    → beq seg (codes "..") ≡ false
    → add_segment rooted seg stack ≡ (if is_named seg then seg ∷ stack else stack)
add_segment-push rooted seg stack h = ground arith

filter_yes :
    (seg : Bytes) (segs : List Bytes)
    → is_named seg ≡ true
    → filter is_named (seg ∷ segs) ≡ seg ∷ filter is_named segs
filter_yes seg segs h = rw (h, filter) refl

filter_no :
    (seg : Bytes) (segs : List Bytes)
    → is_named seg ≡ false
    → filter is_named (seg ∷ segs) ≡ filter is_named segs
filter_no seg segs h = rw (h, filter) refl

clean_segments-filter :
    (rooted : Bool) (segs stack : List Bytes)
    → member (codes "..") segs ≡ false
    → clean_segments rooted segs stack ≡ rev_onto (filter is_named segs) stack
unfolding clean_segments member
clean_segments-filter rooted [] stack h = refl
clean_segments-filter rooted (seg ∷ segs) stack h =
    let here = add_segment-push rooted seg stack (ground arith) in
    elim (Bool-cases (is_named seg)) [
      | inl y ↦
          ap (clean_segments rooted segs) (here ∙ rw y refl)
          ∙ (clean_segments-filter rooted segs (seg ∷ stack) (ground arith)
              ∙ ap (λ xs. rev_onto xs stack) (sym (filter_yes seg segs y)))
      | inr n ↦
          ap (clean_segments rooted segs) (here ∙ rw n refl)
          ∙ (clean_segments-filter rooted segs stack (ground arith)
              ∙ ap (λ xs. rev_onto xs stack) (sym (filter_no seg segs n)))
    ]

join_back-rev :
    (segs : List Bytes) (seg : Bytes) (stack : List Bytes)
    → join_back (rev_onto segs (seg ∷ stack)) ≡ join_back (seg ∷ stack) ++ slash_each segs
unfolding join_back
join_back-rev [] seg stack = sym (append-nil (join_back (seg ∷ stack)))
join_back-rev (s ∷ segs) seg stack =
    join_back-rev segs s (seg ∷ stack)
    ∙ append_assoc (join_back (seg ∷ stack)) (b'/' ∷ s) (slash_each segs)

join_back-join_slash : (segs : List Bytes) → join_back (rev_onto segs []) ≡ join_slash segs
unfolding join_back
join_back-join_slash [] = refl
join_back-join_slash (seg ∷ segs) = join_back-rev segs seg []

no_dots : (s : Bytes) → has_prefix (b'/' ∷ s) (codes "..") ≡ false
unfolding has_prefix
no_dots s = refl

without_slash : (s : Bytes) → trim_prefix (b'/' ∷ s) (codes "/") ≡ s
unfolding trim_prefix has_prefix
without_slash s = refl

cons_head-none :
    (c x : ℕ) (segs : List Bytes)
    → (x == c) ≡ false
    → All (λ seg. contains c seg ≡ false) segs
    → All (λ seg. contains c seg ≡ false) (cons_head x segs)
unfolding contains
cons_head-none c x [] h k = (ground arith, tt)
cons_head-none c x (seg ∷ segs) h (k, ks) = (ground arith, ks)

split_on-none : (c : ℕ) (s : Bytes) → All (λ seg. contains c seg ≡ false) (split_on c s)
unfolding split_on contains
split_on-none c [] = (refl, tt)
split_on-none c (x ∷ s) = elim (Bool-cases (x == c)) [
  | inl y ↦ rw y (refl, split_on-none c s)
  | inr n ↦ rw n (cons_head-none c x (split_on c s) n (split_on-none c s))
]

filter-none :
    (c : ℕ) (segs : List Bytes)
    → All (λ seg. contains c seg ≡ false) segs
    → All (λ seg. contains c seg ≡ false) (filter is_named segs)
filter-none c [] h = tt
filter-none c (seg ∷ segs) (h, hs) = elim (Bool-cases (is_named seg)) [
  | inl y ↦ rw (filter_yes seg segs y) (h, filter-none c segs hs)
  | inr n ↦ rw (filter_no seg segs n) (filter-none c segs hs)
]

first_segment-cons_head :
    (x : ℕ) (segs : List Bytes) → first_segment (cons_head x segs) ≡ x ∷ first_segment segs
first_segment-cons_head x [] = refl
first_segment-cons_head x (seg ∷ segs) = refl

first_segment-join :
    (seg : Bytes) (segs : List Bytes)
    → contains b'/' seg ≡ false
    → first_segment (split_on b'/' (seg ++ slash_each segs)) ≡ seg
unfolding split_on contains
first_segment-join [] [] h = refl
first_segment-join [] (s ∷ segs) h = refl
first_segment-join (x ∷ seg) segs h =
    let other : (x == b'/') ≡ false = ground arith in
    rw other (
      first_segment-cons_head x (split_on b'/' (seg ++ slash_each segs))
      ∙ ap (λ s. x ∷ s) (first_segment-join seg segs (ground arith)))

-- The segments of a site path that name something.
abbrev pub kept_segments : Bytes → List Bytes
kept_segments path = filter is_named (split_on b'/' path)

clean-join_slash :
    (path : Bytes)
    → is_abs path ≡ true
    → member (codes "..") (split_on b'/' path) ≡ false
    → clean path ≡ b'/' ∷ join_slash (kept_segments path)
unfolding clean
clean-join_slash path root no_up = rw root (
    ap (λ s. b'/' ∷ s)
      (ap join_back (clean_segments-filter true (split_on b'/' path) [] no_up)
        ∙ join_back-join_slash (kept_segments path)))

-- The path of the segments: there is one, and the first is not the directory of metadata.
abbrev pub IsRel : List Bytes → Bytes → Type 0
IsRel [] rel = ⊥
IsRel (seg ∷ rest) rel = (seg ≢ codes ".npack") × (rel ≡ join_slash (seg ∷ rest))

append_nonempty : (seg rest : Bytes) → is_named seg ≡ true → beq (seg ++ rest) [] ≡ false
unfolding beq
append_nonempty [] rest h = absurd (ground arith)
append_nonempty (x ∷ seg) rest h = refl

checked_rel-join_slash :
    (seg : Bytes) (rest : List Bytes)
    → contains b'/' seg ≡ false
    → is_named seg ≡ true
    → checked_rel (join_slash (seg ∷ rest))
      ≡ (if beq seg (codes ".npack") then none else some (join_slash (seg ∷ rest)))
checked_rel-join_slash seg rest plain named =
    rw (append_nonempty seg (slash_each rest) named, first_segment-join seg rest plain) refl

checked_rel_iff :
    (segs : List Bytes) (rel : Bytes)
    → All (λ seg. contains b'/' seg ≡ false) segs
    → All (λ seg. is_named seg ≡ true) segs
    → (checked_rel (join_slash segs) ≡ some rel) ↔ IsRel segs rel
unfolding beq
checked_rel_iff [] rel plain named = (λ h. absurd (none_ne_some h), λ h. absurd h)
checked_rel_iff (seg ∷ rest) rel (plain, _) (named, _) =
    let same = checked_rel-join_slash seg rest plain named in
    rw same (elim (Bool-cases (beq seg (codes ".npack"))) [
      | inl y ↦ rw y (
        λ h. absurd (none_ne_some h),
        λ (other, _). absurd (other ((beq_iff seg (codes ".npack")).0 y)),
      )
      | inr n ↦ rw n (
        λ h. (λ e. absurd (ground (arith, (beq_iff seg (codes ".npack")).1 e)), sym (some_inj h)),
        λ (_, e). ap some (sym e),
      )
    ])

filter-named : (segs : List Bytes) → All (λ seg. is_named seg ≡ true) (filter is_named segs)
filter-named [] = tt
filter-named (seg ∷ segs) = elim (Bool-cases (is_named seg)) [
  | inl y ↦ rw (filter_yes seg segs y) (y, filter-named segs)
  | inr n ↦ rw (filter_no seg segs n) (filter-named segs)
]

-- A site path names a file of the bundle exactly when it is absolute, without backslash and without
-- segment "..", and some segment names something, the first of them not ".npack"; the name is the
-- naming segments, with a slash between each two.
pub bundle_rel_iff :
    (path rel : Bytes)
    → (bundle_rel path ≡ some rel) ↔ (
        (has_prefix path (codes "/") ≡ true)
        × (contains b'\\' path ≡ false)
        × (member (codes "..") (split_on b'/' path) ≡ false)
        × IsRel (kept_segments path) rel)
unfolding bundle_rel
bundle_rel_iff path rel = elim (Bool-cases (has_prefix path (codes "/"))) [
  | inr n ↦ (λ h. absurd (none_ne_some (rw n at h)), λ (y, _, _, _). absurd (ground arith))
  | inl root ↦ elim (Bool-cases (contains b'\\' path)) [
    | inl y ↦
        (λ h. absurd (none_ne_some (rw (root, y) at h)), λ (_, n, _, _). absurd (ground arith))
    | inr plain ↦ elim (Bool-cases (member (codes "..") (split_on b'/' path))) [
      | inl y ↦ (
        λ h. absurd (none_ne_some (rw (root, plain, y) at h)),
        λ (_, _, n, _). absurd (ground arith),
      )
      | inr no_up ↦
          let rest =
            checked_rel_iff (kept_segments path) rel
              (filter-none b'/' (split_on b'/' path) (split_on-none b'/' path))
              (filter-named (split_on b'/' path)) in
          rw
            (
              root,
              plain,
              no_up,
              clean-join_slash path root no_up,
              no_dots (join_slash (kept_segments path)),
              without_slash (join_slash (kept_segments path)),
            )
            (λ h. (refl, refl, refl, rest.0 h), λ (_, _, _, i). rest.1 i)
    ]
  ]
]
