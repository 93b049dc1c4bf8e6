-- ===== src/Blossomsrv/Store/Sweeping.antt =====
-- The retention sweep of internal/blossomsrv/server.go.
use nostrhost_nsite.Prelude.{
  ℕ, ◌+◌, ◌≡◌, ◌↔◌, refl, ap, ◌∙◌, true, false, ◌&&◌, ◌||◌, List, [], ◌∷◌, none, some,
  if◌then◌else◌, length, Bytes, beq, beq→eq, arith, Bool-cases, inl, inr, member, and_split,
}
use nostrhost_nsite.Assoc.{lookup, delete, keys, lookup-delete, Distinct-delete}
use nostrhost_nsite.Int64.{sub64, leb64, sub64_exact}
use nostrhost_nsite.Nostr.{Checks}
use nostrhost_nsite.Blossomsrv.Store.{
  Server, File, SweepIo, is_stale, sweep_loop, sweep, size_of_file,
}
use nostrhost_nsite.Blossomsrv.Store.Stale.{swept, stale_file, stale_none, Stays, swept_iff}
use nostrhost_nsite.Blossomsrv.Store.Invariant.{IsConsistent, blob_bytes, blob_bytes-delete}

-- one file removed, as a round of the loop does it
abbrev without_file : Bytes → Server → Server
without_file name s = record s {
  files = delete name s.files;
  used = sub64 s.used (size_of_file (lookup name s.files));
}

sweep_gone :
    (io : SweepIo) (name : Bytes) (names : List Bytes) (s : Server) (removed : ℕ)
    → (is_stale io s.retain name (lookup name s.files) && io.remove_ok name) ≡ true
    → sweep_loop io (name ∷ names) s removed
      ≡ sweep_loop io names (without_file name s) (removed + 1)
unfolding sweep_loop
sweep_gone io name names s removed h =
    ap
      (λ b.
        sweep_loop io names (if b then without_file name s else s)
          (if b then removed + 1 else removed))
      h

sweep_stays :
    (io : SweepIo) (name : Bytes) (names : List Bytes) (s : Server) (removed : ℕ)
    → (is_stale io s.retain name (lookup name s.files) && io.remove_ok name) ≡ false
    → sweep_loop io (name ∷ names) s removed ≡ sweep_loop io names s removed
unfolding sweep_loop
sweep_stays io name names s removed h =
    ap
      (λ b.
        sweep_loop io names (if b then without_file name s else s)
          (if b then removed + 1 else removed))
      h

sweep_runs :
    (io : SweepIo) (s : Server)
    → io.read_dir_ok ≡ true
    → leb64 s.retain 0 ≡ false
    → sweep io s ≡ sweep_loop io (keys s.files) s 0
unfolding sweep
sweep_runs io s reads window = ground arith

module _ (checks : Checks) (sha256 : Bytes → Bytes) where
  without_file-IsConsistent :
      (io : SweepIo) (name : Bytes) (s : Server)
      → is_stale io s.retain name (lookup name s.files) ≡ true
      → IsConsistent checks sha256 s
      → IsConsistent checks sha256 (without_file name s)
  without_file-IsConsistent io name s stale v =
      let (f, held, named) = stale_file io s.retain name (lookup name s.files) stale in
      let sum : blob_bytes (delete name s.files) + length f.content ≡ blob_bytes s.files =
        blob_bytes-delete name f s.files named held in
      let counted = v.counted in
      let in_range = v.in_range in
      record {
        files_once = Distinct-delete name s.files v.files_once;
        addressed = λ k g named' held'.
            ground (arith, lookup-delete name k s.files v.files_once, v.addressed k g);
        counted =
            rw held (
              omega
                (arith, sub64_exact s.used (length f.content) (omega arith) (omega arith), sum));
        in_range = omega (arith, sum);
      }

  after_removal :
      (io : SweepIo) (name : Bytes) (names : List Bytes) (k : Bytes) (s : Server)
      → (is_stale io s.retain name (lookup name s.files) && io.remove_ok name) ≡ true
      → IsConsistent checks sha256 s
      → (if member k names
          then swept io s.retain k (lookup k (delete name s.files))
          else lookup k (delete name s.files))
        ≡ (if beq name k || member k names
            then swept io s.retain k (lookup k s.files)
            else lookup k s.files)
  after_removal io name names k s gone v = elim (Bool-cases (beq name k)) [
    | inl same ↦
        let e = beq→eq name k same in
        let gone' : (is_stale io s.retain k (lookup k s.files) && io.remove_ok k) ≡ true =
          rw e at gone in
        let deleted : lookup k (delete name s.files) ≡ none =
          lookup-delete name k s.files v.files_once ∙ rw same refl in
        ground (arith, gone', deleted, stale_none io s.retain k)
    | inr other ↦
        let kept : lookup k (delete name s.files) ≡ lookup k s.files =
          lookup-delete name k s.files v.files_once ∙ rw other refl in
        rw (kept, other) refl
  ]

  after_stay :
      (io : SweepIo) (name : Bytes) (names : List Bytes) (k : Bytes) (s : Server)
      → (is_stale io s.retain name (lookup name s.files) && io.remove_ok name) ≡ false
      → (if member k names then swept io s.retain k (lookup k s.files) else lookup k s.files) ≡ (
          if beq name k || member k names
          then swept io s.retain k (lookup k s.files)
          else lookup k s.files)
  after_stay io name names k s stays = elim (Bool-cases (beq name k)) [
    | inl same ↦
        let e = beq→eq name k same in
        let stays' : (is_stale io s.retain k (lookup k s.files) && io.remove_ok k) ≡ false =
          rw e at stays in
        rw (same, stays') (ground arith)
    | inr other ↦ rw other refl
  ]

  not_member : (k : Bytes) (m : List (Bytes × File)) → member k (keys m) ≡ false → lookup k m ≡ none
  unfolding member lookup
  not_member k [] h = refl
  not_member k ((i, f) ∷ m) h = ground (arith, not_member k m)

  sweep_loop_lem :
      (io : SweepIo) (names : List Bytes) (s : Server) (removed : ℕ) (k : Bytes)
      → IsConsistent checks sha256 s
      → IsConsistent checks sha256 (sweep_loop io names s removed).0
        × (lookup k (sweep_loop io names s removed).0.files
            ≡ (if member k names then swept io s.retain k (lookup k s.files) else lookup k s.files))
  unfolding member
  sweep_loop_lem io [] s removed k v = unfold sweep_loop in (v, refl)
  sweep_loop_lem io (name ∷ names) s removed k v =
      elim (Bool-cases (is_stale io s.retain name (lookup name s.files) && io.remove_ok name)) [
        | inl gone ↦
            let (stale, _) = and_split _ _ gone in
            let (v', rest) =
              sweep_loop_lem io names (without_file name s) (removed + 1) k
                (without_file-IsConsistent io name s stale v) in
            rw (sweep_gone io name names s removed gone)
              (v', rest ∙ after_removal io name names k s gone v)
        | inr stays ↦
            let (v', rest) = sweep_loop_lem io names s removed k v in
            rw (sweep_stays io name names s removed stays)
              (v', rest ∙ after_stay io name names k s stays)
      ]

  swept_files :
      (io : SweepIo) (s : Server) (k : Bytes)
      → IsConsistent checks sha256 s
      → io.read_dir_ok ≡ true
      → leb64 s.retain 0 ≡ false
      → IsConsistent checks sha256 (sweep io s).0
        × (lookup k (sweep io s).0.files ≡ swept io s.retain k (lookup k s.files))
  swept_files io s k v reads window =
      let (v', files) = sweep_loop_lem io (keys s.files) s 0 k v in
      rw (sweep_runs io s reads window) (
        v',
        files ∙ (elim (Bool-cases (member k (keys s.files))) [
          | inl listed ↦ rw listed refl
          | inr absent ↦ rw (absent, not_member k s.files absent, stale_none io s.retain k) refl
        ]),
      )

  -- Where there is a window and the directory can be read, the sweep leaves exactly these files: of
  -- those that were there, the ones whose name is no digest, the ones that are not older than the
  -- window, and the ones that the file system does not let it look at or remove. It keeps the store
  -- valid: the bytes that it removes are counted off.
  pub sweep_removes_stale :
      (io : SweepIo) (s : Server) (k : Bytes) (f : File)
      → IsConsistent checks sha256 s
      → io.read_dir_ok ≡ true
      → leb64 s.retain 0 ≡ false
      → IsConsistent checks sha256 (sweep io s).0
        × ((lookup k (sweep io s).0.files ≡ some f)
            ↔ ((lookup k s.files ≡ some f) × Stays io s.retain k f))
  sweep_removes_stale io s k f v reads window =
      let (v', files) = swept_files io s k v reads window in
      (v', rw files (swept_iff io s.retain k (lookup k s.files) f))
