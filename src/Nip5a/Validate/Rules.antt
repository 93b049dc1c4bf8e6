-- ===== src/Nip5a/Validate/Rules.antt =====
-- The rules of a manifest that `Validate` of internal/nip5a/manifest.go tests, stated one by one.
use nostrhost_nsite.Prelude.{
  ◌≤◌, ◌≡◌, ◌≢◌, refl, ap, ◌∙◌, false, List, [], ◌∷◌, arith, All, map, length, Bytes, codes, member,
  ltb, ◌==◌,
}
use nostrhost_nsite.Hex.{length-encode}
use nostrhost_nsite.Nostr.{Event}
use nostrhost_nsite.Nip5a.Manifest.{
  kind_snapshot, SitePath, Options, aggregate_hash, tag_values, filter_tags, error_if, join_lines,
  sort_strings, path_line,
}
use nostrhost_nsite.Nip5a.Validate.{
  kind_errors, d_errors, scan_paths, x_count_errors, x_errors, a_errors, max_paths_of, path_tags,
  computed_hash, rule_errors,
}
use nostrhost_nsite.Nip5a.Validate.Paths.{
  IsSafe, AreFresh, path_tag, scan_paths_sound, scan_paths_complete, scan_paths-All,
}
use nostrhost_nsite.Nip5a.Validate.Parts.{
  IsManifestKind, HasIdentifier, IsAggregate, HasReferences, kind_errors_iff, d_errors_iff,
  x_errors_iff, error_if_iff, a_errors_iff, x_count_errors_iff, length-map, filter-All, append_nine,
  some_paths, few_paths,
}

-- What `Validate` asks of a manifest, besides the two checks of the event.
module _ (sha256 : Bytes → Bytes) (opts : Options) where
  pub record IsManifest (ev : Event) : Type 0 where
    pub paths : List SitePath
    pub not_forbidden : member ev.pubkey opts.forbidden_pubkeys ≡ false
    pub kind_known : IsManifestKind ev.kind
    pub identifier : HasIdentifier ev.kind (tag_values ev.tags (codes "d"))
    pub some_path : 1 ≤ length paths
    pub not_oversize : length paths ≤ max_paths_of opts.max_paths
    pub tags_are_paths : path_tags ev ≡ map path_tag paths
    pub safe : All IsSafe paths
    pub fresh : AreFresh [] paths
    pub aggregate :
        All (IsAggregate (aggregate_hash sha256 paths)) (filter_tags ev.tags (codes "x"))
    pub one_aggregate : ev.kind ≡ kind_snapshot → length (filter_tags ev.tags (codes "x")) ≡ 1
    pub references :
        HasReferences ev.kind (filter_tags ev.tags (codes "a")) (filter_tags ev.tags (codes "A"))

module _ (sha256 : Bytes → Bytes) (opts : Options) where
  computed_hash_full :
      ((b : Bytes) → length (sha256 b) ≡ 32)
      → (ps : List SitePath) → 1 ≤ length ps
      → (computed_hash sha256 ps ≡ aggregate_hash sha256 ps) × (aggregate_hash sha256 ps ≢ [])
  unfolding computed_hash aggregate_hash
  computed_hash_full len [] h = absurd (omega arith)
  computed_hash_full len (p ∷ ps) h = (
    ground arith,
    λ e. absurd (
        ground (
          arith,
          len (join_lines (sort_strings (map path_line (p ∷ ps)))),
          length-encode (sha256 (join_lines (sort_strings (map path_line (p ∷ ps))))),
        )),
  )

  pub rule_errors_sound :
      (ev : Event)
      → ((b : Bytes) → length (sha256 b) ≡ 32)
      → rule_errors sha256 opts ev ≡ []
      → IsManifest sha256 opts ev
  unfolding rule_errors
  rule_errors_sound ev len h =
      let ps = (scan_paths [] (path_tags ev)).1 in
      let x_tags = filter_tags ev.tags (codes "x") in
      let (e1, e2, e3, e4, e5, e6, e7, e8, e9) =
        append_nine (error_if (member ev.pubkey opts.forbidden_pubkeys) (codes "forbidden_signer"))
          (kind_errors ev.kind) (d_errors ev.kind (tag_values ev.tags (codes "d")))
          (error_if (length (path_tags ev) == 0) (codes "no_paths"))
          (scan_paths [] (path_tags ev)).0
          (error_if (ltb (max_paths_of opts.max_paths) (length (path_tags ev)))
            (codes "oversize_path_count"))
          (x_count_errors ev.kind x_tags) (x_errors (computed_hash sha256 ps) x_tags)
          (a_errors ev.kind (filter_tags ev.tags (codes "a")) (filter_tags ev.tags (codes "A")))
          h in
      let (same, fresh) =
        scan_paths_sound [] (path_tags ev) (unfold filter_tags in filter-All _ ev.tags) e5 in
      let same_length : length (path_tags ev) ≡ length ps =
        ap length same ∙ length-map path_tag ps in
      let nonempty : 1 ≤ length ps = some_paths _ _ same_length e4 in
      let (computed, full) = computed_hash_full len ps nonempty in
      record {
        paths = ps;
        not_forbidden = (error_if_iff _ _).0 e1;
        kind_known = (kind_errors_iff ev.kind).0 e2;
        identifier = (d_errors_iff ev.kind _).0 e3;
        some_path = nonempty;
        not_oversize = few_paths _ _ _ same_length e6;
        tags_are_paths = same;
        safe = scan_paths-All [] (path_tags ev);
        fresh = fresh;
        aggregate = (x_errors_iff _ _ full).0 (rw (← computed) e8);
        one_aggregate = (x_count_errors_iff ev.kind _).0 e7;
        references = (a_errors_iff ev.kind _ _).0 e9;
      }

  pub rule_errors_complete :
      (ev : Event)
      → ((b : Bytes) → length (sha256 b) ≡ 32)
      → IsManifest sha256 opts ev
      → rule_errors sha256 opts ev ≡ []
  unfolding rule_errors
  rule_errors_complete ev len m =
      let scanned : scan_paths [] (path_tags ev) ≡ ([], m.paths) =
        rw m.tags_are_paths (scan_paths_complete [] m.paths m.safe m.fresh) in
      let same_length : length (path_tags ev) ≡ length m.paths =
        ap length m.tags_are_paths ∙ length-map path_tag m.paths in
      let (computed, full) = computed_hash_full len m.paths m.some_path in
      let e1 = (error_if_iff _ (codes "forbidden_signer")).1 m.not_forbidden in
      let e4 : error_if (length (path_tags ev) == 0) (codes "no_paths") ≡ [] =
        ground (arith, m.some_path) in
      let e6 : error_if (ltb (max_paths_of opts.max_paths) (length (path_tags ev)))
            (codes "oversize_path_count")
          ≡ [] =
        ground (arith, m.not_oversize) in
      rw
        (
          e1,
          (kind_errors_iff ev.kind).1 m.kind_known,
          (d_errors_iff ev.kind _).1 m.identifier,
          e4,
          scanned,
          e6,
          (x_count_errors_iff ev.kind _).1 m.one_aggregate,
          computed,
          (x_errors_iff _ _ full).1 m.aggregate,
          (a_errors_iff ev.kind _ _).1 m.references,
        )
        refl
