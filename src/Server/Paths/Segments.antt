-- ===== src/Server/Paths/Segments.antt =====
-- How `normalisePath` of internal/server/server.go takes a path apart: collapsing, segments, suffixes.
use nostrhost_nsite.Prelude.{
  includes, ℕ, ◌≡◌, ◌≢◌, refl, inl, inr, Bool, true, false, ◌&&◌, ◌||◌, List, [], ◌∷◌, ◌++◌, arith,
  ◌==◌, any, All, Bytes, codes, has_prefix, contains, after_last, split_on, cons_head, Bool-cases,
}
use nostrhost_nsite.Server.Paths.{collapse}

pub collapse_slashes :
    (c d : ℕ) (s : Bytes)
    → (c == b'/' && d == b'/') ≡ true
    → collapse (c ∷ d ∷ s) ≡ b'/' ∷ collapse s
unfolding collapse
collapse_slashes c d s h = rw (h, collapse) refl

pub collapse_other :
    (c d : ℕ) (s : Bytes)
    → (c == b'/' && d == b'/') ≡ false
    → collapse (c ∷ d ∷ s) ≡ c ∷ collapse (d ∷ s)
unfolding collapse
collapse_other c d s h = rw (h, collapse) refl

pub collapse_absolute : (t : Bytes) → (u : Bytes) × (collapse (b'/' ∷ t) ≡ b'/' ∷ u)
collapse_absolute [] = ([], unfold collapse in refl)
collapse_absolute (d ∷ s) = elim (Bool-cases (d == b'/')) [
  | inl y ↦ (collapse s, collapse_slashes b'/' d s (ground arith))
  | inr n ↦ (collapse (d ∷ s), collapse_other b'/' d s (ground arith))
]

pub collapse-All : (P : ℕ → Type 0) (s : Bytes) → All P s → All P (collapse s)
collapse-All P [] h = unfold collapse in tt
collapse-All P (c ∷ []) h = unfold collapse in h
collapse-All P (c ∷ d ∷ s) (hc, (hd, hs)) = elim (Bool-cases (c == b'/' && d == b'/')) [
  | inl y ↦
      let is_slash : c ≡ b'/' = ground arith in
      rw (collapse_slashes c d s y) (rw is_slash at hc, collapse-All P s hs)
  | inr n ↦ rw (collapse_other c d s n) (hc, collapse-All P (d ∷ s) (hd, hs))
]

pub contains_none : (c : ℕ) (s : Bytes) → contains c s ≡ false → All (λ x. x ≢ c) s
unfolding contains
contains_none c [] h = tt
contains_none c (x ∷ s) h = (ground arith, contains_none c s (ground arith))

pub cons_head-All :
    (P : ℕ → Type 0) (x : ℕ) (segs : List Bytes)
    → All (λ seg. All P seg) (cons_head x segs)
    → P x × All (λ seg. All P seg) segs
cons_head-All P x [] ((px, _), _) = (px, tt)
cons_head-All P x (seg ∷ segs) ((px, h), hs) = (px, (h, hs))

pub split_on_here : (c x : ℕ) (s : Bytes) → (x == c) ≡ true → split_on c (x ∷ s) ≡ [] ∷ split_on c s
unfolding split_on
split_on_here c x s h = rw (h, split_on) refl

pub split_on_later :
    (c x : ℕ) (s : Bytes) → (x == c) ≡ false → split_on c (x ∷ s) ≡ cons_head x (split_on c s)
unfolding split_on
split_on_later c x s h = rw (h, split_on) refl

-- What holds of the characters of every segment, and of the separator, holds of all characters.
pub split_on-All :
    (c : ℕ) (P : ℕ → Type 0) (s : Bytes) → P c → All (λ seg. All P seg) (split_on c s) → All P s
split_on-All c P [] pc h = tt
split_on-All c P (x ∷ s) pc h = elim (Bool-cases (x == c)) [
  | inl y ↦
      let same : x ≡ c = ground arith in
      let (_, hs) : All (λ seg. All P seg) ([] ∷ split_on c s) = rw (split_on_here c x s y) at h in
      (rw same pc, split_on-All c P s pc hs)
  | inr n ↦
      let (px, hs) = cons_head-All P x (split_on c s) (rw (split_on_later c x s n) at h) in
      (px, split_on-All c P s pc hs)
]

abbrev pub has_dots : Bytes → Bool
has_dots seg = includes seg (codes "..")

pub cons_head-dots :
    (x : ℕ) (segs : List Bytes)
    → any has_dots (cons_head x segs) ≡ false
    → any has_dots segs ≡ false
unfolding includes
cons_head-dots x [] h = refl
cons_head-dots x (seg ∷ segs) h = ground arith

pub cons_head_two_dots :
    (segs : List Bytes) → any has_dots (cons_head b'.' (cons_head b'.' segs)) ≡ true
unfolding includes has_prefix
cons_head_two_dots [] = refl
cons_head_two_dots (seg ∷ segs) = refl

-- When no segment has "..", the whole has none.
pub split_on-includes :
    (s : Bytes) → any has_dots (split_on b'/' s) ≡ false → includes s (codes "..") ≡ false
unfolding split_on includes has_prefix
split_on-includes [] h = refl
split_on-includes (c ∷ []) h = ground arith
split_on-includes (c ∷ d ∷ s) h = elim (Bool-cases (c == b'/')) [
  | inl y ↦
      let h' : any has_dots ([] ∷ split_on b'/' (d ∷ s)) ≡ false =
        rw (split_on_here b'/' c (d ∷ s) y) at h in
      ground (arith, split_on-includes (d ∷ s))
  | inr n ↦
      let h' = rw (split_on_later b'/' c (d ∷ s) n) at h in
      let rest = split_on-includes (d ∷ s) (cons_head-dots c (split_on b'/' (d ∷ s)) h') in
      elim (Bool-cases (c == b'.' && d == b'.')) [
        | inl two ↦
            let is_c : c ≡ b'.' = ground arith in
            let is_d : d ≡ b'.' = ground arith in
            let found = cons_head_two_dots (split_on b'/' s) in
            absurd (ground (arith, split_on_later b'/' d s (ground arith)))
        | inr other ↦ ground arith
      ]
]

pub includes-append :
    (s t : Bytes)
    → includes (s ++ b'/' ∷ t) (codes "..") ≡ (includes s (codes "..") || includes t (codes ".."))
unfolding includes has_prefix
includes-append [] t = refl
includes-append (c ∷ []) t = ground arith
includes-append (c ∷ d ∷ s) t = ground (arith, includes-append (d ∷ s) t)

pub contains-append : (c : ℕ) (s t : Bytes) → contains c (s ++ c ∷ t) ≡ true
unfolding contains
contains-append c [] t = ground arith
contains-append c (x ∷ s) t = ground (arith, contains-append c s t)

pub after_last-append : (c : ℕ) (s t : Bytes) → contains c t ≡ false → after_last c (s ++ c ∷ t) ≡ t
unfolding after_last
after_last-append c [] t h = ground arith
after_last-append c (x ∷ s) t h = ground (arith, contains-append c s t, after_last-append c s t h)
