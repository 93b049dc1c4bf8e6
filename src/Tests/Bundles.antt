-- ===== src/Tests/Bundles.antt =====
-- Tests of the bundles of internal/npk/npk.go.
use nostrhost_nsite.Prelude.{
  ◌≡◌, ◌↔◌, refl, true, false, [], ◌∷◌, ◌++◌, none, some, codes, beq, has_prefix, contains, member,
  split_on, trim_prefix, before_last,
}
use nostrhost_nsite.Assoc.{lookup, insert}
use nostrhost_nsite.Hex.{encode_to_string, hex_char}
use nostrhost_nsite.Filepath.{clean, clean_segments, join_back, join, dir, abs}
use nostrhost_nsite.Npk.Release.{is_sha256, is_hex}
use nostrhost_nsite.Npk.Bundle.{
  Tree, Os, Archive, Codecs, is_below, decompress, located, bundle_path, bundle_rel, unpack,
  open_bundle, within, remove_all, rename, write_file, extract_member, extract_tar, has,
}
use nostrhost_nsite.Npk.Bundle.Outside.{IsKept, unpack-IsKept}
use nostrhost_nsite.Npk.Bundle.Rel.{IsRel, kept_segments, bundle_rel_iff}
use nostrhost_nsite.Tests.Fixtures.{toy_sha256, two_sha}

abbrev willing : Os
willing = record {
  wd = some (codes "/");
  can_make = λ p. true;
  can_open = λ p. true;
  can_close = λ p. true;
  can_rename = λ p. true;
  is_stuck = λ p. false;
}

-- one page, and then a member that tries to get out
abbrev two_members : Archive
two_members = record {
  members =
      record {
        name = codes "a/b.js";
        typeflag = b'0';
        content = record { bytes = 7 ∷ []; broken = false };
      }
      ∷ record {
        name = codes "a/../../x";
        typeflag = b'0';
        content = record { bytes = 8 ∷ []; broken = false };
      }
      ∷ [];
  is_whole = true;
}

abbrev one_member : Archive
one_member = record {
  members =
      record {
        name = codes "a/b.js";
        typeflag = b'0';
        content = record { bytes = 7 ∷ []; broken = false };
      }
      ∷ [];
  is_whole = true;
}

abbrev evil_codecs : Codecs
evil_codecs = record { sha256 = toy_sha256; gzip = λ b. none; zstd = λ b. some two_members }

abbrev good_codecs : Codecs
good_codecs = record { sha256 = toy_sha256; gzip = λ b. none; zstd = λ b. some one_member }

abbrev old_tree : Tree
old_tree = record { files = (codes "/x", 9 ∷ []) ∷ []; dirs = codes "/npk" ∷ [] }

-- The page is read from the bundle.
page_read :
    open_bundle willing
      (codes "/npk")
      two_sha
      (codes "/a//b.js")
      (unpack willing good_codecs (codes "/npk") two_sha (1 ∷ 2 ∷ []) old_tree).0
    ≡ some (7 ∷ [])
unfolding open_bundle unpack has is_sha256 is_hex beq encode_to_string hex_char decompress
    remove_all rename write_file extract_member extract_tar within abs join dir clean clean_segments
    join_back bundle_rel has_prefix contains member split_on trim_prefix before_last lookup insert
page_read = refl

evil_refused : (unpack willing evil_codecs (codes "/npk") two_sha (1 ∷ 2 ∷ []) old_tree).1 ≡ false
unfolding open_bundle unpack has is_sha256 is_hex beq encode_to_string hex_char decompress
    remove_all rename write_file extract_member extract_tar within abs join dir clean clean_segments
    join_back bundle_rel has_prefix contains member split_on trim_prefix before_last lookup insert
evil_refused = refl

x_not_in_bundle :
    is_below (located willing (bundle_path willing (codes "/npk") two_sha)) (codes "/x") ≡ false
unfolding abs join clean clean_segments join_back has_prefix split_on beq
x_not_in_bundle = refl

x_not_in_tmp :
    is_below
      (located willing (bundle_path willing (codes "/npk") (two_sha ++ codes ".unpacking")))
      (codes "/x")
    ≡ false
unfolding abs join clean clean_segments join_back has_prefix split_on beq
x_not_in_tmp = refl

unpack-IsKept_example :
    IsKept willing
      (codes "/x")
      old_tree
      (unpack willing evil_codecs (codes "/npk") two_sha (1 ∷ 2 ∷ []) old_tree)
unpack-IsKept_example =
    unpack-IsKept willing evil_codecs (codes "/npk") two_sha (1 ∷ 2 ∷ []) (codes "/x") old_tree
      x_not_in_bundle x_not_in_tmp

bundle_rel_iff_example : (bundle_rel (codes "/a//b.js") ≡ some (codes "a/b.js")) ↔ (
    (has_prefix (codes "/a//b.js") (codes "/") ≡ true)
    × (contains b'\\' (codes "/a//b.js") ≡ false)
    × (member (codes "..") (split_on b'/' (codes "/a//b.js")) ≡ false)
    × IsRel (kept_segments (codes "/a//b.js")) (codes "a/b.js"))
bundle_rel_iff_example = bundle_rel_iff (codes "/a//b.js") (codes "a/b.js")
