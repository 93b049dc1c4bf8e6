-- ===== src/Npk/Bundle/Outside.antt =====
-- Unpacking and opening a bundle in internal/npk/npk.go touches nothing outside the bundle.
use mathlib.Core.Path.{subst}
use nostrhost_nsite.Prelude.{
  ℕ, ◌≡◌, refl, sym, ap, ◌∙◌, inl, inr, Bool, true, false, not, ◌||◌, List, [], ◌∷◌, ◌++◌, Option,
  none, some, ◌==◌, arith, if◌then◌else◌, length, drop, drop-length_append, map, Bytes, codes, beq,
  beq_self, beq_iff, has_prefix, has_prefix-append, has_prefix_split, append_assoc, append-nil,
  Bool-cases, Option-cases, ascii_lower,
}
use nostrhost_nsite.Assoc.{lookup, lookup-insert}
use nostrhost_nsite.Hex.{encode_to_string}
use nostrhost_nsite.Filepath.{clean, join, dir, is_abs, abs}
use nostrhost_nsite.Blossom.Fetch.{Stream}
use nostrhost_nsite.Npk.Release.{is_sha256}
use nostrhost_nsite.Npk.Bundle.{
  Tree, Os, Member, Archive, Codecs, is_below, decompress, located, within, is_dir, is_blocked,
  make_all, outside, remove_all, moved, move_files, rename, write_file, write_in, extract_flag,
  extract_member, extract_tar, extract_archive, then_do, cleaned, bundle_path, unpack,
}

apart : (root f q : Bytes) → is_below root f ≡ true → is_below root q ≡ false → beq f q ≡ false
apart root f q y n = elim (Bool-cases (beq f q)) [
  | inr other ↦ other
  | inl same ↦
      let is_q : f ≡ q = (beq_iff f q).0 same in
      absurd (ground (arith, subst (λ x. is_below root x ≡ true) is_q y))
]

drop_root : (a rest : Bytes) → drop (length a) (a ++ codes "/" ++ rest) ≡ codes "/" ++ rest
drop_root a rest =
    ap (drop (length a)) (append_assoc a (codes "/") rest)
    ∙ drop-length_append (length a) a (codes "/" ++ rest) refl

drop_all : (a : Bytes) → drop (length a) a ≡ []
drop_all [] = refl
drop_all (x ∷ a) = drop_all a

-- What is moved stands below the new name.
moved-is_below : (a b f : Bytes) → is_below a f ≡ true → is_below b (moved a b f) ≡ true
moved-is_below a b f h = elim (Bool-cases (beq f a)) [
  | inl same ↦
      let is_a : f ≡ a = (beq_iff f a).0 same in
      let at_b : moved a b f ≡ b =
        rw h (
          ap (λ x. b ++ drop (length a) x) is_a ∙ (ap (λ r. b ++ r) (drop_all a) ∙ append-nil b)) in
      subst (λ x. is_below b x ≡ true) (sym at_b) (ground (arith, beq_self b))
  | inr other ↦
      let rest = drop (length (a ++ codes "/")) f in
      let split : f ≡ a ++ codes "/" ++ rest = has_prefix_split f (a ++ codes "/") (ground arith) in
      let at_b : moved a b f ≡ b ++ codes "/" ++ rest = rw h (
        ap (λ x. b ++ drop (length a) x) split
        ∙ (ap (λ r. b ++ r) (drop_root a rest) ∙ sym (append_assoc b (codes "/") rest))) in
      subst (λ x. is_below b x ≡ true) (sym at_b)
        (ground (arith, has_prefix-append (b ++ codes "/") rest))
]

lookup-move_files :
    (a b q : Bytes) (files : List (Bytes × Bytes))
    → is_below a q ≡ false
    → is_below b q ≡ false
    → lookup q (move_files a b files) ≡ lookup q files
unfolding lookup
lookup-move_files a b q [] na nb = refl
lookup-move_files a b q ((f, body) ∷ files) na nb = elim (Bool-cases (is_below a f)) [
  | inr n ↦ rw n (ground (arith, lookup-move_files a b q files na nb))
  | inl y ↦
      let old : beq f q ≡ false = apart a f q y na in
      let new : beq (moved a b f) q ≡ false = apart b (moved a b f) q (moved-is_below a b f y) nb in
      rw (new, old) (lookup-move_files a b q files na nb)
]

module _ (os : Os) where
  -- The step leaves the file of this name as it was.
  pub record IsKept (q : Bytes) (t : Tree) (res : Tree × Bool) : Type 0 where
    pub same : lookup q res.0.files ≡ lookup q t.files

  kept : {q : Bytes} {t : Tree} {b : Bool} → IsKept q t (t, b)
  kept = record { same = refl }

  after :
      {q : Bytes} {t : Tree} {step res : Tree × Bool}
      → IsKept q t step
      → IsKept q step.0 res
      → IsKept q t res
  after h k = record { same = k.same ∙ h.same }

  if-IsKept :
      (b : Bool) (q : Bytes) (t : Tree) {x y : Tree × Bool}
      → IsKept q t x
      → IsKept q t y
      → IsKept q t (if b then x else y)
  if-IsKept true q t h k = h
  if-IsKept false q t h k = k

  lookup-outside :
      (root q : Bytes) (files : List (Bytes × Bytes))
      → is_below root q ≡ false
      → lookup q (outside os root files) ≡ lookup q files
  unfolding lookup
  lookup-outside root q [] n = refl
  lookup-outside root q ((f, body) ∷ files) n = elim (Bool-cases (is_below root f)) [
    | inl y ↦ ground (arith, apart root f q y n, lookup-outside root q files n)
    | inr other ↦ ground (arith, lookup-outside root q files n)
  ]

  remove_all-IsKept :
      (path q : Bytes) (t : Tree)
      → is_below (located os path) q ≡ false
      → IsKept q t (remove_all os path t)
  unfolding remove_all
  remove_all-IsKept path q t n = record { same = lookup-outside (located os path) q t.files n }

  make_all-IsKept : (path q : Bytes) (t : Tree) → IsKept q t (make_all os path t)
  make_all-IsKept path q t =
      if-IsKept (is_blocked (located os path) t.files || not (os.can_make (located os path))) q t
        (record { same = refl }) (record { same = refl })

  rename-IsKept :
      (from to q : Bytes) (t : Tree)
      → is_below (located os from) q ≡ false
      → is_below (located os to) q ≡ false
      → IsKept q t (rename os from to t)
  unfolding rename
  rename-IsKept from to q t na nb = elim (Bool-cases (os.can_rename (located os to))) [
    | inl y ↦
        rw y (record { same = lookup-move_files (located os from) (located os to) q t.files na nb })
    | inr n ↦ rw n (record { same = refl })
  ]

  write_file-IsKept :
      (target q : Bytes) (content : Stream) (t : Tree)
      → beq (located os target) q ≡ false
      → IsKept q t (write_file os target content t)
  unfolding write_file
  write_file-IsKept target q content t other =
      elim (Bool-cases (is_dir os target t || not (os.can_open (located os target)))) [
        | inl y ↦ rw y (record { same = refl })
        | inr n ↦ rw n (record {
          same =
              lookup-insert (located os target) q content.bytes t.files
              ∙ ap (λ (b : Bool). if b then some content.bytes else lookup q t.files) other;
        })
      ]

  write_in-IsKept :
      (target q : Bytes) (content : Stream) (made : Tree × Bool)
      → beq (located os target) q ≡ false
      → IsKept q made.0 (write_in os target content made)
  write_in-IsKept target q content (t, false) other = record { same = refl }
  write_in-IsKept target q content (t, true) other = write_file-IsKept target q content t other

  extract_flag-IsKept :
      (target q : Bytes) (typeflag : ℕ) (content : Stream) (t : Tree)
      → beq (located os target) q ≡ false
      → IsKept q t (extract_flag os target typeflag content t)
  extract_flag-IsKept target q typeflag content t other =
      let file =
        after (make_all-IsKept (dir target) q t)
          (write_in-IsKept target q content (make_all os (dir target) t) other) in
      if-IsKept (typeflag == b'5') q t (make_all-IsKept target q t) (
        if-IsKept (typeflag == b'0') q t file (
          if-IsKept
            (typeflag == b'1'
              || typeflag == b'2'
              || typeflag == b'3'
              || typeflag == b'4'
              || typeflag == b'6')
            q t kept kept))

  within-is_below :
      (root target : Bytes)
      → within os root target ≡ true
      → is_below (located os root) (located os target) ≡ true
  unfolding within
  within-is_below root target h = elim (Option-cases (abs os.wd root)) [
    | inl e ↦ absurd (ground arith)
    | inr (a, e) ↦ elim (Option-cases (abs os.wd target)) [
      | inl f ↦ absurd (ground arith)
      | inr (b, f) ↦ ground arith
    ]
  ]

  extract_member-IsKept :
      (dest q : Bytes) (m : Member) (t : Tree)
      → is_below (located os dest) q ≡ false
      → IsKept q t (extract_member os dest m t)
  unfolding extract_member
  extract_member-IsKept dest q m t n =
      let target = join dest (clean m.name) in
      if-IsKept (has_prefix (clean m.name) (codes "..") || is_abs (clean m.name)) q t kept
        (elim (Bool-cases (within os dest target)) [
          | inr out ↦ rw out kept
          | inl inside ↦ rw inside (
              extract_flag-IsKept target q m.typeflag m.content t (
                apart (located os dest) (located os target) q (within-is_below dest target inside)
                  n))
        ])

  extract_tar-IsKept :
      (dest q : Bytes) (is_whole : Bool) (ms : List Member) (t : Tree)
      → is_below (located os dest) q ≡ false
      → IsKept q t (extract_tar os dest is_whole ms t)
  unfolding extract_tar
  extract_tar-IsKept dest q is_whole [] t n = kept
  extract_tar-IsKept dest q is_whole (m ∷ ms) t n =
      let first = extract_member-IsKept dest q m t n in
      if-IsKept (extract_member os dest m t).1 q t
        (after first (extract_tar-IsKept dest q is_whole ms (extract_member os dest m t).0 n)) first

  extract_archive-IsKept :
      (dest q : Bytes) (o : Option Archive) (t : Tree)
      → is_below (located os dest) q ≡ false
      → IsKept q t (extract_archive os dest o t)
  extract_archive-IsKept dest q none t n = kept
  extract_archive-IsKept dest q (some a) t n = extract_tar-IsKept dest q a.is_whole a.members t n

  then_do-IsKept :
      (q : Bytes) (t : Tree) (step : Tree × Bool) (next : Tree → Tree × Bool)
      → IsKept q t step
      → ((t' : Tree) → IsKept q t' (next t'))
      → IsKept q t (then_do os step next)
  then_do-IsKept q t (t', false) next h k = h
  then_do-IsKept q t (t', true) next h k = after h (k t')

  cleaned-IsKept :
      (tmp q : Bytes) (t : Tree) (step : Tree × Bool)
      → is_below (located os tmp) q ≡ false
      → IsKept q t step
      → IsKept q t (cleaned os tmp step)
  cleaned-IsKept tmp q t (t', done) n h = record {
    same = (remove_all-IsKept tmp q t' n).same ∙ h.same;
  }

  -- Whatever an archive holds and wherever unpacking it stops, only files below the directory of the
  -- bundle and below the one it is unpacked in are written, moved or removed.
  pub unpack-IsKept :
      (codecs : Codecs) (store sha body q : Bytes) (t : Tree)
      → is_below (located os (bundle_path os store sha)) q ≡ false
      → is_below (located os (bundle_path os store (sha ++ codes ".unpacking"))) q ≡ false
      → IsKept q t (unpack os codecs store sha body t)
  unfolding unpack
  unpack-IsKept codecs store sha body q t not_dest not_tmp =
      let tmp = bundle_path os store (sha ++ codes ".unpacking") in
      let dest = bundle_path os store sha in
      if-IsKept (not (is_sha256 sha)) q t kept (
        if-IsKept (not (beq (encode_to_string (codecs.sha256 body)) (map ascii_lower sha))) q t kept
          (then_do-IsKept q t _ _
            (then_do-IsKept q t _ _ (remove_all-IsKept tmp q t not_tmp)
              (λ t'. make_all-IsKept tmp q t'))
            (λ made. cleaned-IsKept tmp q made _ not_tmp (
              then_do-IsKept q made _ _
                (extract_archive-IsKept tmp q (decompress codecs body) made not_tmp)
                (λ t'.
                  then_do-IsKept q t' _ _ (remove_all-IsKept dest q t' not_dest)
                    (λ t''. rename-IsKept tmp dest q t'' not_tmp not_dest))))))
