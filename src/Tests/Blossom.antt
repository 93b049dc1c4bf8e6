-- ===== src/Tests/Blossom.antt =====
-- Tests of the local Blossom store of internal/blossomsrv/server.go.
use nostrhost_nsite.Prelude.{
  ℕ, ◌+◌, ◌≤◌, ◌≡◌, ◌↔◌, refl, true, false, [], ◌∷◌, some, none, Bytes, codes, length, arith, beq,
  beq_iff, member, ◌<◌, ◌^◌, sym, ◌∙◌, some_inj,
}
use nostrhost_nsite.Hex.{encode_to_string, decode_string}
use nostrhost_nsite.Assoc.{lookup, insert}
use nostrhost_nsite.Int64.{ltb64, leb64, add64}
use nostrhost_nsite.Nostr.{Event}
use nostrhost_nsite.Blossomsrv.Store.{
  Server, File, PutIo, stored, refused, WriteResult, written, write_failed, write_error, SweepIo,
  authorize, put, get, sweep, new_server, used_bytes, valid_sha, commit, read_upload, scan,
}
use nostrhost_nsite.Blossomsrv.Store.Auth.{IsAdmitted, authorize_iff}
use nostrhost_nsite.Blossomsrv.Store.Invariant.{
  IsConsistent, blob_bytes, put-IsConsistent, new_server-IsConsistent,
}
use nostrhost_nsite.Blossomsrv.Store.Uploads.{put_within_quota, put_partial_write}
use nostrhost_nsite.Blossomsrv.Store.Stale.{Stays}
use nostrhost_nsite.Blossomsrv.Store.Sweeping.{sweep_removes_stale}
use nostrhost_nsite.Tests.Fixtures.{toy_sha256, two_sha, three_sha, trusting}

abbrev pub upload_event : Event
upload_event = record {
  id = [];
  pubkey = codes "alice";
  created_at = 1;
  kind = 24242;
  tags = (codes "t" ∷ codes "upload" ∷ []) ∷ (codes "x" ∷ two_sha ∷ []) ∷ [];
}

abbrev pub empty_store : Server
empty_store = record {
  quota = 10;
  max_blob = 4;
  retain = 50;
  allow = codes "alice" ∷ [];
  used = 0;
  files = [];
}

abbrev old_file : File
old_file = record { content = codes "yes"; mod_time = 20 }

abbrev old_store : Server
old_store = record {
  quota = 10;
  max_blob = 4;
  retain = 50;
  allow = codes "alice" ∷ [];
  used = 3;
  files = (three_sha, old_file) ∷ [];
}

abbrev pub io_of : WriteResult → PutIo
io_of w = record { stream = record { content = codes "ok"; fails = false }; write = w; now = 100 }

pub empty_store-IsConsistent : IsConsistent trusting toy_sha256 empty_store
unfolding lookup blob_bytes
empty_store-IsConsistent = record {
  files_once = tt;
  addressed = λ k f named held. cc;
  counted = refl;
  in_range = omega arith;
}

three_valid : valid_sha three_sha ≡ true
unfolding valid_sha decode_string
three_valid = refl

old_store_bytes : blob_bytes old_store.files ≡ 3
unfolding blob_bytes valid_sha decode_string
old_store_bytes = refl

old_addressed :
    (k : Bytes) (f : File)
    → valid_sha k ≡ true
    → lookup k old_store.files ≡ some f
    → encode_to_string (toy_sha256 f.content) ≡ k
unfolding lookup encode_to_string
old_addressed k f named held = ground (arith, beq_iff three_sha k)

old_store-IsConsistent : IsConsistent trusting toy_sha256 old_store
old_store-IsConsistent = record {
  files_once = (unfold lookup in refl, tt);
  addressed = old_addressed;
  counted = omega (arith, old_store_bytes);
  in_range = omega (arith, old_store_bytes);
}

pub ok_read : read_upload 4 (record { content = codes "ok"; fails = false }) ≡ some (codes "ok")
unfolding read_upload ltb64 add64
ok_read = refl

ok_fits :
    (s : Server) (n : ℕ)
    → blob_bytes s.files ≡ n
    → n ≤ 3
    → (body : Bytes) → some (codes "ok") ≡ some body
    → blob_bytes s.files + length body < 2 ^ 63
ok_fits s n e h body same = rw (← some_inj same) (omega (arith, e))

authorize_iff_example :
    (authorize trusting empty_store (some upload_event) two_sha ≡ none)
    ↔ ((ev : Event) × (some upload_event ≡ some ev) × IsAdmitted trusting empty_store ev two_sha)
authorize_iff_example = authorize_iff trusting empty_store (some upload_event) two_sha

put-IsConsistent_example :
    IsConsistent trusting toy_sha256
      (put trusting toy_sha256 (io_of written) two_sha (some upload_event) old_store).0
put-IsConsistent_example =
    put-IsConsistent trusting toy_sha256 (io_of written) two_sha (some upload_event) old_store
      old_store-IsConsistent (λ part e. cc)
      (λ body e. ok_fits old_store 3 old_store_bytes (omega arith) body (sym ok_read ∙ e))

put_within_quota_example :
    (blob_bytes
        (put trusting toy_sha256 (io_of written) two_sha (some upload_event) old_store).0.files
      ≤ 10)
    × (used_bytes (put trusting toy_sha256 (io_of written) two_sha (some upload_event) old_store).0
        ≤ 10)
put_within_quota_example =
    put_within_quota trusting toy_sha256 (io_of written) two_sha (some upload_event) old_store
      old_store-IsConsistent (omega arith) (omega arith) (λ part e. cc)
      (λ body e. ok_fits old_store 3 old_store_bytes (omega arith) body (sym ok_read ∙ e))
      (omega (arith, old_store_bytes))

abbrev torn : PutIo
torn = io_of (write_failed (some (codes "o")))

torn_refused :
    (put trusting toy_sha256 torn two_sha (some upload_event) empty_store).1 ≡ refused write_error
unfolding put valid_sha decode_string authorize member beq read_upload ltb64 add64 encode_to_string
    commit lookup
torn_refused = refl

after_torn :
    (put trusting toy_sha256
      (io_of written)
      two_sha
      (some upload_event)
      (put trusting toy_sha256 torn two_sha (some upload_event) empty_store).0).1
    ≡ stored 2
unfolding put valid_sha decode_string authorize member beq read_upload ltb64 add64 encode_to_string
    commit lookup insert
after_torn = refl

put_partial_write_example :
    (get true two_sha (put trusting toy_sha256 torn two_sha (some upload_event) empty_store).0
      ≡ some (codes "o"))
    × ((put trusting toy_sha256
          (io_of written)
          two_sha
          (some upload_event)
          (put trusting toy_sha256 torn two_sha (some upload_event) empty_store).0).0
        ≡ (put trusting toy_sha256 torn two_sha (some upload_event) empty_store).0)
put_partial_write_example =
    put_partial_write trusting toy_sha256 torn (io_of written) two_sha (codes "o")
      (some upload_event) (some upload_event) empty_store 2 refl torn_refused after_torn

new_server-IsConsistent_example : IsConsistent trusting toy_sha256 old_store
new_server-IsConsistent_example =
    new_server-IsConsistent trusting toy_sha256 (codes "/d") true (λ k. true) 10 4 50
      (codes "alice" ∷ []) old_store.files old_store
      (unfold new_server scan valid_sha decode_string beq add64 in refl) (λ k named. refl)
      (unfold lookup in refl, tt) old_addressed (omega (arith, old_store_bytes))

abbrev sweep_now : SweepIo
sweep_now = record { now = 100; read_dir_ok = true; info_ok = λ k. true; remove_ok = λ k. true }

sweep_removes_stale_example :
    IsConsistent trusting toy_sha256 (sweep sweep_now old_store).0
    × ((lookup three_sha (sweep sweep_now old_store).0.files ≡ some old_file) ↔ (
        (lookup three_sha old_store.files ≡ some old_file) × Stays sweep_now 50 three_sha old_file))
sweep_removes_stale_example =
    sweep_removes_stale trusting toy_sha256 sweep_now old_store three_sha old_file
      old_store-IsConsistent refl (unfold leb64 in refl)
