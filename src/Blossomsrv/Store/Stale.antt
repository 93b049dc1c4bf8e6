-- ===== src/Blossomsrv/Store/Stale.antt =====
-- Which files the retention sweep of internal/blossomsrv/server.go removes.
use mathlib.Core.Path.{subst}
use nostrhost_nsite.Prelude.{
  ℕ, ◌+◌, ◌≤◌, ◌≡◌, ◌↔◌, ◌⊎◌, sym, ltb, none_ne_some, some_inj, refl, ◌∙◌, true, false, ◌&&◌,
  Option, none, some, if◌then◌else◌, Bytes, arith, Bool-cases, inl, inr, and_split,
}
use nostrhost_nsite.Blossomsrv.Store.{File, SweepIo, is_stale, valid_sha}

-- What the sweep leaves of a file: nothing when it is stale and can be removed.
abbrev pub swept : SweepIo → ℕ → Bytes → Option File → Option File
swept io retain k o = if is_stale io retain k o && io.remove_ok k then none else o

pub stale_file :
    (io : SweepIo) (retain : ℕ) (name : Bytes) (o : Option File)
    → is_stale io retain name o ≡ true
    → (f : File) × (o ≡ some f) × (valid_sha name ≡ true)
unfolding is_stale
stale_file io retain name none h = cc
stale_file io retain name (some f) h = (f, refl, (and_split _ _ h).0)

pub stale_none : (io : SweepIo) (retain : ℕ) (name : Bytes) → is_stale io retain name none ≡ false
unfolding is_stale
stale_none io retain name = refl

-- The file is no blob, is not older than the window, or is out of reach.
abbrev pub Stays : SweepIo → ℕ → Bytes → File → Type 0
Stays io retain k f =
    (valid_sha k ≡ false)
    ⊎ (io.now ≤ f.mod_time + retain)
    ⊎ (io.info_ok k ≡ false)
    ⊎ (io.remove_ok k ≡ false)

swept_kept :
    (io : SweepIo) (retain : ℕ) (k : Bytes) (f : File)
    → Stays io retain k f
    → swept io retain k (some f) ≡ some f
unfolding is_stale
swept_kept io retain k f (inl h) = rw h refl
swept_kept io retain k f (inr (inl h)) = ground arith
swept_kept io retain k f (inr (inr (inl h))) = ground arith
swept_kept io retain k f (inr (inr (inr h))) = ground arith

swept-some :
    (io : SweepIo) (retain : ℕ) (k : Bytes) (f g : File)
    → swept io retain k (some g) ≡ some f
    → (some g ≡ some f) × Stays io retain k g
unfolding is_stale
swept-some io retain k f g h = elim (Bool-cases (valid_sha k)) [
  | inr unnamed ↦ (rw unnamed at h, inl unnamed)
  | inl named ↦ elim (Bool-cases (io.info_ok k)) [
    | inr unread ↦ (rw (named, unread) at h, inr (inr (inl unread)))
    | inl read ↦ elim (Bool-cases (io.remove_ok k)) [
      | inr locked ↦ (ground arith, inr (inr (inr locked)))
      | inl free ↦ elim (Bool-cases (ltb (g.mod_time + retain) io.now)) [
        | inl old ↦ absurd (none_ne_some (rw (named, read, free, old) at h))
        | inr young ↦ (rw (named, read, young) at h, inr (inl (ground arith)))
      ]
    ]
  ]
]

pub swept_iff :
    (io : SweepIo) (retain : ℕ) (k : Bytes) (o : Option File) (f : File)
    → (swept io retain k o ≡ some f) ↔ ((o ≡ some f) × Stays io retain k f)
unfolding is_stale
swept_iff io retain k none f = (λ h. cc, λ h. cc)
swept_iff io retain k (some g) f = (
  λ h.
      let (same, stays) = swept-some io retain k f g h in
      (same, subst (Stays io retain k) (some_inj same) stays),
  λ h.
      let (same, stays) = h in
      swept_kept io retain k g (subst (Stays io retain k) (sym (some_inj same)) stays) ∙ same,
)
