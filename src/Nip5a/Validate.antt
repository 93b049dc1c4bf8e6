-- ===== src/Nip5a/Validate.antt =====
-- internal/nip5a/manifest.go, lines 115 to 287: `Validate`, part by part in its order. The errors of
-- a part are appended to those of the parts before.
pub mod Paths
pub mod Parts
pub mod Rules
pub mod Verdicts
use nostrhost_nsite.Prelude.{
  ℕ, Bool, true, false, not, ◌&&◌, ◌||◌, List, [], ◌∷◌, ◌++◌, Option, none, some, ◌==◌, ltb,
  if◌then◌else◌, length, Bytes, codes, beq, has_prefix, member,
}
use nostrhost_nsite.Nostr.{Event, Checks, value_of}
use nostrhost_nsite.Nip5a.Base36.{is_valid_d}
use nostrhost_nsite.Nip5a.Label.{
  SiteType, root, named, snapshot, Nip19, npub, named_label, snapshot_label,
}
use nostrhost_nsite.Nip5a.Manifest.{
  kind_root, kind_named, kind_snapshot, SitePath, Options, Verdict, is_sha256_hex, re_ref,
  aggregate_hash, tag_values, filter_tags, has_path_extension, bad_path_chars, error_if, dedupe,
}

unfoldable pub kind_errors : ℕ → List Bytes
kind_errors kind =
    error_if (not (kind == kind_root || kind == kind_named || kind == kind_snapshot))
      (codes "bad_kind")

abbrev named_d_errors : List Bytes → List Bytes
named_d_errors [] = codes "missing_d" ∷ []
named_d_errors (d ∷ ds) = error_if (ltb 1 (length (d ∷ ds)) || not (is_valid_d d)) (codes "bad_d")

unfoldable pub d_errors : ℕ → List Bytes → List Bytes
d_errors kind d_values =
    if kind == kind_named
    then named_d_errors d_values
    else error_if (kind == kind_root && ltb 0 (length d_values)) (codes "d_on_root")

-- One `path` tag: the error, or the path.
pub data PathCheck : Type 0 where
  bad : Bytes → PathCheck
  good : SitePath → PathCheck

abbrev pub check_pair : Bytes → Bytes → PathCheck
check_pair path blob_hash =
    if not (has_prefix path (codes "/"))
    then bad (codes "relative_path")
    else if not (has_path_extension path)
    then bad (codes "no_extension")
    else if bad_path_chars path
    then bad (codes "bad_path_chars")
    else if not (is_sha256_hex blob_hash)
    then bad (codes "bad_hash_hex")
    else good (record { path = path; hash = blob_hash })

unfoldable pub check_path : List Bytes → PathCheck
check_path [] = bad (codes "bad_path_shape")
check_path (name ∷ []) = bad (codes "bad_path_shape")
check_path (name ∷ path ∷ []) = bad (codes "bad_path_shape")
check_path (name ∷ path ∷ blob_hash ∷ []) = check_pair path blob_hash
check_path (name ∷ path ∷ blob_hash ∷ x ∷ t) = bad (codes "bad_path_shape")

-- The loop over the `path` tags: the errors and the valid paths. `seen` are the paths so far.
unfoldable pub scan_paths : List Bytes → List (List Bytes) → List Bytes × List SitePath
scan_paths seen [] = ([], [])
scan_paths seen (t ∷ ts) = elim (check_path t) [
  | bad e ↦ let rest = scan_paths seen ts in (e ∷ rest.0, rest.1)
  | good p ↦
      let rest = scan_paths (p.path ∷ seen) ts in
      (error_if (member p.path seen) (codes "duplicate_path") ++ rest.0, p ∷ rest.1)
]

unfoldable pub x_count_errors : ℕ → List (List Bytes) → List Bytes
x_count_errors kind x_tags =
    if kind == kind_snapshot
    then if length x_tags == 0
      then codes "missing_aggregate_x" ∷ []
      else error_if (ltb 1 (length x_tags)) (codes "multiple_aggregate_x")
    else []

-- `len(t) == 3 && t[2] == "aggregate" && IsSHA256Hex(t[1])`
abbrev pub is_x_tag : List Bytes → Bool
is_x_tag [] = false
is_x_tag (name ∷ []) = false
is_x_tag (name ∷ x ∷ []) = false
is_x_tag (name ∷ x ∷ mark ∷ []) = beq mark (codes "aggregate") && is_sha256_hex x
is_x_tag (name ∷ x ∷ mark ∷ y ∷ t) = false

unfoldable pub x_errors : Bytes → List (List Bytes) → List Bytes
x_errors computed [] = []
x_errors computed (t ∷ ts) =
    (if not (is_x_tag t)
      then codes "bad_x_shape" ∷ []
      else error_if (not (beq computed []) && not (beq (value_of t) computed))
          (codes "bad_aggregate_x"))
    ++ x_errors computed ts

-- `len(t) >= 2 && reRef.MatchString(t[1])`
abbrev pub is_ref_tag : List Bytes → Bool
is_ref_tag [] = false
is_ref_tag (name ∷ []) = false
is_ref_tag (name ∷ ref ∷ t) = re_ref ref

unfoldable pub ref_errors : Bytes → List (List Bytes) → List Bytes
ref_errors e [] = []
ref_errors e (t ∷ ts) = error_if (not (is_ref_tag t)) e ++ ref_errors e ts

unfoldable pub a_errors : ℕ → List (List Bytes) → List (List Bytes) → List Bytes
a_errors kind a_tags upper_a_tags =
    if kind == kind_snapshot || ltb 0 (length a_tags) || ltb 0 (length upper_a_tags)
    then (if length a_tags == 0
        then codes "missing_a" ∷ []
        else error_if (ltb 1 (length a_tags)) (codes "multiple_a"))
      ++ error_if (ltb 1 (length upper_a_tags)) (codes "multiple_A")
      ++ error_if
          (ltb 0 (length a_tags) && (length upper_a_tags == 0 && not (kind == kind_snapshot)))
          (codes "missing_A")
      ++ ref_errors (codes "bad_a_shape") a_tags
      ++ ref_errors (codes "bad_A_shape") upper_a_tags
    else []

abbrev or_empty : Option Bytes → Bytes
or_empty none = []
or_empty (some label) = label

abbrev pub first_value : List Bytes → Bytes
first_value [] = []
first_value (d ∷ ds) = d

abbrev pub site_type_of : ℕ → Option SiteType
site_type_of kind =
    if kind == kind_root
    then some root
    else if kind == kind_named
    then some named
    else if kind == kind_snapshot
    then some snapshot
    else none

-- The label of the last switch.
unfoldable pub label_of : Nip19 → Event → Bytes → Bytes
label_of nip19 ev d =
    if ev.kind == kind_root
    then or_empty (npub nip19 ev.pubkey)
    else if ev.kind == kind_named
    then if beq d [] then [] else or_empty (named_label ev.pubkey d)
    else if ev.kind == kind_snapshot
    then or_empty (snapshot_label ev.id)
    else []

-- `maxPaths`
abbrev pub max_paths_of : ℕ → ℕ
max_paths_of n = if n == 0 then 5000 else n

abbrev pub path_tags : Event → List (List Bytes)
path_tags ev = filter_tags ev.tags (codes "path")

-- `computed`
unfoldable pub computed_hash : (Bytes → Bytes) → List SitePath → Bytes
computed_hash sha256 paths = if ltb 0 (length paths) then aggregate_hash sha256 paths else []

module _ (sha256 : Bytes → Bytes) (opts : Options) where
  -- The errors that `Validate` collects after the two checks of the event, before `dedupe`.
  unfoldable pub rule_errors : Event → List Bytes
  rule_errors ev =
      let d_values = tag_values ev.tags (codes "d") in
      let scanned = scan_paths [] (path_tags ev) in
      let x_tags = filter_tags ev.tags (codes "x") in
      error_if (member ev.pubkey opts.forbidden_pubkeys) (codes "forbidden_signer")
      ++ kind_errors ev.kind
      ++ d_errors ev.kind d_values
      ++ error_if (length (path_tags ev) == 0) (codes "no_paths")
      ++ scanned.0
      ++ error_if (ltb (max_paths_of opts.max_paths) (length (path_tags ev)))
          (codes "oversize_path_count")
      ++ x_count_errors ev.kind x_tags
      ++ x_errors (computed_hash sha256 scanned.1) x_tags
      ++ a_errors ev.kind (filter_tags ev.tags (codes "a")) (filter_tags ev.tags (codes "A"))

  abbrev pub early_verdict : Event → Bytes → Verdict
  early_verdict ev e = record {
    valid = false;
    errors = e ∷ [];
    site_type = none;
    pubkey = ev.pubkey;
    event_id = ev.id;
    d = [];
    paths = [];
    aggregate_hash = [];
    label = [];
  }

  unfoldable pub full_verdict : Nip19 → Event → Verdict
  full_verdict nip19 ev =
      let errors = dedupe (rule_errors ev) in
      let paths = (scan_paths [] (path_tags ev)).1 in
      let d = first_value (tag_values ev.tags (codes "d")) in
      record {
        valid = length errors == 0;
        errors = errors;
        site_type = site_type_of ev.kind;
        pubkey = ev.pubkey;
        event_id = ev.id;
        d = d;
        paths = paths;
        aggregate_hash = computed_hash sha256 paths;
        label = label_of nip19 ev d;
      }

  unfoldable pub validate : Checks → Nip19 → Event → Verdict
  validate checks nip19 ev =
      if not (checks.check_id ev)
      then early_verdict ev (codes "bad_id")
      else if not (checks.check_signature ev)
      then early_verdict ev (codes "bad_signature")
      else full_verdict nip19 ev
