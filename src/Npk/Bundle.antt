-- ===== src/Npk/Bundle.antt =====
-- internal/npk/npk.go, lines 169 to 365: the store of unpacked bundles. The directory tree is the
-- state, with names made absolute; what the system refuses is the parameter `Os`. What package tar
-- reads from the decompressed archive is the parameter `Codecs`. Permissions are left out.
pub mod Outside
pub mod Rel
use nostrhost_nsite.Prelude.{
  ℕ, Bool, true, false, not, ◌&&◌, ◌||◌, List, [], ◌∷◌, ◌++◌, Option, none, some, ◌==◌,
  if◌then◌else◌, length, drop, any, map, filter, Bytes, codes, beq, has_prefix, trim_prefix,
  contains, split_on, member, ascii_lower,
}
use nostrhost_nsite.Assoc.{lookup, insert}
use nostrhost_nsite.Hex.{encode_to_string}
use nostrhost_nsite.Filepath.{clean, join, dir, is_abs, abs}
use nostrhost_nsite.Blossom.Fetch.{Stream}
use nostrhost_nsite.Npk.Release.{is_sha256}

-- The tree: files with their content, and directories; what is above a directory is one too.
pub record Tree : Type 0 where
  pub files : List (Bytes × Bytes)
  pub dirs : List Bytes

-- What the system answers: the working directory, names it refuses to make, open, close or rename,
-- and names that `os.RemoveAll` cannot remove.
pub record Os : Type 0 where
  pub wd : Option Bytes
  pub can_make : Bytes → Bool
  pub can_open : Bytes → Bool
  pub can_close : Bytes → Bool
  pub can_rename : Bytes → Bool
  pub is_stuck : Bytes → Bool

-- One header of the archive with its content.
pub record Member : Type 0 where
  pub name : Bytes
  pub typeflag : ℕ
  pub content : Stream

-- The members in turn, and whether the end of the archive follows, or else an error.
pub record Archive : Type 0 where
  pub members : List Member
  pub is_whole : Bool

-- What is read of a body by way of gzip or zstd; `none` when there is no reader.
pub record Codecs : Type 0 where
  pub sha256 : Bytes → Bytes
  pub gzip : Bytes → Option Archive
  pub zstd : Bytes → Option Archive

-- `p == root || strings.HasPrefix(p, root + "/")`
abbrev pub is_below : Bytes → Bytes → Bool
is_below root p = beq p root || has_prefix p (root ++ codes "/")

abbrev or_self : Bytes → Option Bytes → Bytes
or_self path none = path
or_self path (some p) = p

abbrev pub starts_gzip : Bytes → Bool
starts_gzip (a ∷ b ∷ body) = a == 31 && b == 139
starts_gzip (a ∷ []) = false
starts_gzip [] = false

unfoldable pub decompress : Codecs → Bytes → Option Archive
decompress codecs body = if starts_gzip body then codecs.gzip body else codecs.zstd body

-- The segment before the first slash.
abbrev pub first_segment : List Bytes → Bytes
first_segment [] = []
first_segment (seg ∷ segs) = seg

abbrev pub checked_rel : Bytes → Option Bytes
checked_rel rel =
    if beq rel []
    then none
    else if beq (first_segment (split_on b'/' rel)) (codes ".npack")
    then none
    else some rel

unfoldable pub bundle_rel : Bytes → Option Bytes
bundle_rel site_path =
    if not (has_prefix site_path (codes "/")) || contains b'\\' site_path
    then none
    else if member (codes "..") (split_on b'/' site_path)
    then none
    else if has_prefix (clean site_path) (codes "..")
    then none
    else checked_rel (trim_prefix (clean site_path) (codes "/"))

abbrev pub both_below : Option Bytes → Option Bytes → Bool
both_below none target = false
both_below (some root) none = false
both_below (some root) (some target) = is_below root target

-- A file stands where a directory is wanted.
abbrev pub is_blocked : Bytes → List (Bytes × Bytes) → Bool
is_blocked path [] = false
is_blocked path ((f, body) ∷ files) = is_below f path || is_blocked path files

-- The new name of what stands at `p`, when `a` is renamed to `b`.
abbrev pub moved : Bytes → Bytes → Bytes → Bytes
moved a b p = if is_below a p then b ++ drop (length a) p else p

abbrev pub move_files : Bytes → Bytes → List (Bytes × Bytes) → List (Bytes × Bytes)
move_files a b [] = []
move_files a b ((f, body) ∷ files) = (moved a b f, body) ∷ move_files a b files

module _ (os : Os) where
  -- The absolute name that the system looks a path up by.
  abbrev pub located : Bytes → Bytes
  located path = or_self path (abs os.wd path)

  -- `within` gives no error.
  unfoldable pub within : Bytes → Bytes → Bool
  within root target = both_below (abs os.wd root) (abs os.wd target)

  abbrev pub is_dir : Bytes → Tree → Bool
  is_dir path t = any (is_below (located path)) t.dirs

  -- `os.MkdirAll`
  abbrev pub make_all : Bytes → Tree → Tree × Bool
  make_all path t =
      if is_blocked (located path) t.files || not (os.can_make (located path))
      then (t, false)
      else (record t { dirs = located path ∷ t.dirs }, true)

  abbrev pub outside : Bytes → List (Bytes × Bytes) → List (Bytes × Bytes)
  outside root [] = []
  outside root ((f, body) ∷ files) =
      if is_below root f && not (os.is_stuck f)
      then outside root files
      else (f, body) ∷ outside root files

  abbrev some_stuck : Bytes → List (Bytes × Bytes) → Bool
  some_stuck root [] = false
  some_stuck root ((f, body) ∷ files) = (is_below root f && os.is_stuck f) || some_stuck root files

  -- `os.RemoveAll`
  unfoldable pub remove_all : Bytes → Tree → Tree × Bool
  remove_all path t =
      let root = located path in
      (
        record {
          files = outside root t.files;
          dirs = filter (λ d. not (is_below root d && not (os.is_stuck d))) t.dirs;
        },
        not (some_stuck root t.files || any (λ d. is_below root d && os.is_stuck d) t.dirs),
      )

  -- `os.Rename` of a directory to a free name
  unfoldable pub rename : Bytes → Bytes → Tree → Tree × Bool
  rename from to t =
      let a = located from in
      let b = located to in
      if not (os.can_rename b)
      then (t, false)
      else (record { files = move_files a b t.files; dirs = map (moved a b) t.dirs }, true)

  -- `os.OpenFile`, `io.Copy` and `f.Close`
  unfoldable pub write_file : Bytes → Stream → Tree → Tree × Bool
  write_file target content t =
      if is_dir target t || not (os.can_open (located target)) then (t, false) else (
        record t { files = insert (located target) content.bytes t.files },
        not content.broken && os.can_close (located target),
      )

  abbrev pub write_in : Bytes → Stream → Tree × Bool → Tree × Bool
  write_in target content (t, false) = (t, false)
  write_in target content (t, true) = write_file target content t

  -- `switch hdr.Typeflag`
  abbrev pub extract_flag : Bytes → ℕ → Stream → Tree → Tree × Bool
  extract_flag target typeflag content t =
      if typeflag == b'5'
      then make_all target t
      else if typeflag == b'0'
      then write_in target content (make_all (dir target) t)
      else if typeflag == b'1'
          || typeflag == b'2'
          || typeflag == b'3'
          || typeflag == b'4'
          || typeflag == b'6'
      then (t, false)
      else (t, true)

  -- One round of the loop of `extractTar`.
  unfoldable pub extract_member : Bytes → Member → Tree → Tree × Bool
  extract_member dest m t =
      let name = clean m.name in
      if has_prefix name (codes "..") || is_abs name
      then (t, false)
      else if not (within dest (join dest name))
      then (t, false)
      else extract_flag (join dest name) m.typeflag m.content t

  unfoldable pub extract_tar : Bytes → Bool → List Member → Tree → Tree × Bool
  extract_tar dest is_whole [] t = (t, is_whole)
  extract_tar dest is_whole (m ∷ ms) t =
      let step = extract_member dest m t in
      let rest = extract_tar dest is_whole ms step.0 in if step.1 then rest else step

  abbrev pub extract_archive : Bytes → Option Archive → Tree → Tree × Bool
  extract_archive dest none t = (t, false)
  extract_archive dest (some a) t = extract_tar dest a.is_whole a.members t

  -- What a call of a step that fails leaves, or else the next step.
  abbrev pub then_do : Tree × Bool → (Tree → Tree × Bool) → Tree × Bool
  then_do (t, false) next = (t, false)
  then_do (t, true) next = next t

  abbrev pub replace : Bytes → Bytes → Tree → Tree × Bool
  replace tmp dest t = then_do (remove_all dest t) (rename tmp dest)

  -- `os.RemoveAll(tmp)`, deferred, whose error is not looked at.
  abbrev pub cleaned : Bytes → Tree × Bool → Tree × Bool
  cleaned tmp (t, done) = ((remove_all tmp t).0, done)

  -- `s.path`
  abbrev pub bundle_path : Bytes → Bytes → Bytes
  bundle_path store sha = join store sha

  unfoldable pub has : Bytes → Bytes → Tree → Bool
  has store sha t = is_dir (bundle_path store sha) t

  -- `Unpack` into the store's directory; true when a bundle is returned.
  unfoldable pub unpack : Codecs → Bytes → Bytes → Bytes → Tree → Tree × Bool
  unpack codecs store sha body t =
      let tmp = bundle_path store (sha ++ codes ".unpacking") in
      let dest = bundle_path store sha in
      if not (is_sha256 sha)
      then (t, false)
      else if not (beq (encode_to_string (codecs.sha256 body)) (map ascii_lower sha))
      then (t, false)
      else then_do (then_do (remove_all tmp t) (make_all tmp)) (λ made.
        cleaned tmp
          (then_do (extract_archive tmp (decompress codecs body) made) (replace tmp dest)))

  abbrev pub read_rel : Bytes → Option Bytes → Tree → Option Bytes
  read_rel root none t = none
  read_rel root (some rel) t =
      if not (within root (join root rel)) || not (os.can_open (located (join root rel)))
      then none
      else lookup (located (join root rel)) t.files

  -- `Open`
  unfoldable pub open_bundle : Bytes → Bytes → Bytes → Tree → Option Bytes
  open_bundle store sha site_path t =
      if not (has store sha t)
      then none
      else read_rel (bundle_path store sha) (bundle_rel site_path) t
