-- ===== src/Npk/Release/Sources.antt =====
-- What a release of internal/npk/npk.go is worth, and that the catalogue of catalogue.go gives the
-- same releases as relays that hold its events.
use mathlib.Core.Path.{subst}
use nostrhost_nsite.Prelude.{
  ℕ, ◌≡◌, ◌≢◌, refl, sym, ap, ◌∙◌, inl, inr, Bool, true, false, not, ◌&&◌, ◌||◌, List, [], ◌∷◌,
  Option, none, some, arith, ◌==◌, length, any, filter, Bytes, beq, member, Bool-cases,
  Option-cases, none_ne_some,
}
use nostrhost_nsite.Nostr.{Event, Pool, value_of}
use nostrhost_nsite.Npk.Release.{
  kind_release, kind_revocation, Release, newest_named, revokes, is_revoked, author_filter,
  unless_revoked, release_of, newest_release, Catalogue, add_revoked, revoked_ids, newest_listed,
  listed_release, newest,
}
use nostrhost_nsite.Npk.Release.Parsed.{IsReleaseOf, parse_release-IsReleaseOf}
use nostrhost_nsite.Npk.Release.Newest.{
  present, pick, IsLatest, pick-IsLatest, pick-filter, is_named, newest_named-pick,
}

unless_revoked-some :
    (b : Bool) (o : Option Release) (rel : Release)
    → unless_revoked b o ≡ some rel
    → (b ≡ false) × (o ≡ some rel)
unless_revoked-some b none rel h = absurd (none_ne_some h)
unless_revoked-some true (some r) rel h = absurd (none_ne_some h)
unless_revoked-some false (some r) rel h = (refl, h)

any-revokes :
    (id : Bytes) (hits : List (Option Event))
    → is_revoked id hits ≡ any (λ (e : Event). any (revokes id) e.tags) (present hits)
unfolding is_revoked
any-revokes id [] = refl
any-revokes id (none ∷ hits) = any-revokes id hits
any-revokes id (some e ∷ hits) = rw (any-revokes id hits) refl

member-add_revoked :
    (id : Bytes) (ts : List (List Bytes)) (ids : List Bytes)
    → member id (add_revoked ts ids) ≡ (any (revokes id) ts || member id ids)
unfolding member
member-add_revoked id [] ids = refl
member-add_revoked id (t ∷ ts) ids =
    ground (arith, member-add_revoked id ts (value_of t ∷ ids), member-add_revoked id ts ids)

-- Events of a kind and an author.
abbrev pub is_by : ℕ → Bytes → Event → Bool
is_by kind publisher e = e.kind == kind && beq e.pubkey publisher

skip_is_by :
    (kind : ℕ) (publisher : Bytes) (e : Event)
    → (not (e.kind == kind) || not (beq e.pubkey publisher)) ≡ not (is_by kind publisher e)
skip_is_by kind publisher e = ground arith

member-revoked_ids :
    (id publisher : Bytes) (revs : List Event) (ids : List Bytes)
    → member id (revoked_ids publisher revs ids) ≡ (
        any (λ (e : Event). any (revokes id) e.tags) (filter (is_by kind_revocation publisher) revs)
        || member id ids)
unfolding revoked_ids
member-revoked_ids id publisher [] ids = refl
member-revoked_ids id publisher (rev ∷ revs) ids =
    elim (Bool-cases (is_by kind_revocation publisher rev)) [
      | inl y ↦
          rw (skip_is_by kind_revocation publisher rev, y, filter)
            (ground (
              arith,
              member-revoked_ids id publisher revs (add_revoked rev.tags ids),
              member-add_revoked id rev.tags ids,
            ))
      | inr n ↦
          rw (skip_is_by kind_revocation publisher rev, n, filter)
            (member-revoked_ids id publisher revs ids)
    ]

newest_listed-pick :
    (publisher name : Bytes) (evs : List Event) (best : Option Event)
    → newest_listed publisher name evs best
      ≡ pick (λ e. is_by kind_release publisher e && is_named name e) evs best
unfolding newest_listed pick
newest_listed-pick publisher name [] best = refl
newest_listed-pick publisher name (e ∷ evs) best =
    let p : Event → Bool = λ x. is_by kind_release publisher x && is_named name x in
    let same : (not (e.kind == kind_release)
          || not (beq e.pubkey publisher)
          || not (is_named name e))
        ≡ not (p e) =
      ground arith in
    rw same (newest_listed-pick publisher name evs _)

-- A release that the relays give is of the newest event of that name, the first of equals. It has
-- the author and the id of that event, a name and a version, neither empty, and a digest of 64
-- lower-case hexadecimal digits, each from a tag of the event; and no revocation that the relays
-- deliver names it.
pub newest_release_sound :
    (pool : Pool) (relays : List Bytes) (publisher name : Bytes) (rel : Release)
    → newest_release pool relays publisher name ≡ some rel
    → (e : Event) × IsLatest
        (is_named name)
        (present (pool relays (author_filter kind_release publisher)))
        (some e)
      × IsReleaseOf e rel
      × (is_revoked e.id (pool relays (author_filter kind_revocation publisher)) ≡ false)
unfolding newest_release
newest_release_sound pool relays publisher name rel h =
    let hits = pool relays (author_filter kind_release publisher) in
    let best = newest_named name hits none in
    let latest = pick-IsLatest (is_named name) (present hits) in
    let same = newest_named-pick name hits none in
    let found : release_of pool relays publisher best ≡ some rel = ground arith in
    elim (Option-cases best) [
      | inl e ↦ absurd (none_ne_some (rw e at found))
      | inr (e, is_best) ↦
          let (kept, parsed) = unless_revoked-some _ _ rel (rw is_best at found) in
          (
            e,
            subst (IsLatest (is_named name) (present hits)) (sym same ∙ is_best) latest,
            parse_release-IsReleaseOf e rel parsed,
            kept,
          )
    ]

listed_release-release_of :
    (pool : Pool) (relays : List Bytes) (publisher : Bytes) (ids : List Bytes) (o : Option Event)
    → ((id : Bytes)
        → member id ids ≡ is_revoked id (pool relays (author_filter kind_revocation publisher)))
    → listed_release ids o ≡ release_of pool relays publisher o
listed_release-release_of pool relays publisher ids none agree = refl
listed_release-release_of pool relays publisher ids (some e) agree = rw (agree e.id) refl

or_member_nil : (id : Bytes) (b : Bool) → (b || member id []) ≡ b
unfolding member
or_member_nil id b = ground arith

relays_nonempty : (relays : List Bytes) → relays ≢ [] → (length relays == 0) ≡ false
relays_nonempty [] h = absurd (h refl)
relays_nonempty (r ∷ rs) h = ground arith

-- The catalogue gives the release that relays give which deliver exactly its events of the author.
pub newest-newest_release :
    (pool : Pool) (relays : List Bytes) (c : Catalogue) (publisher name : Bytes)
    → relays ≢ []
    → present (pool relays (author_filter kind_release publisher))
      ≡ filter (is_by kind_release publisher) c.releases
    → present (pool relays (author_filter kind_revocation publisher))
      ≡ filter (is_by kind_revocation publisher) c.revocations
    → newest c publisher name ≡ newest_release pool relays publisher name
unfolding newest newest_release
newest-newest_release pool relays c publisher name some_relay same_releases same_revocations =
    let is_revocation = is_by kind_revocation publisher in
    let hits = pool relays (author_filter kind_revocation publisher) in
    let agree : (id : Bytes)
        → member id (revoked_ids publisher c.revocations []) ≡ is_revoked id hits =
      λ id.
        let names : Event → Bool = λ e. any (revokes id) e.tags in
        member-revoked_ids id publisher c.revocations []
        ∙ (or_member_nil id (any names (filter is_revocation c.revocations))
            ∙ sym (any-revokes id hits ∙ ap (any names) same_revocations)) in
    let best = newest_listed-pick publisher name c.releases none in
    let best' =
      newest_named-pick name (pool relays (author_filter kind_release publisher)) none
      ∙ (ap (λ es. pick (is_named name) es none) same_releases
          ∙ pick-filter (is_named name) (is_by kind_release publisher) c.releases none) in
    rw (best, best', relays_nonempty relays some_relay)
      (listed_release-release_of pool relays publisher _ _ agree)

-- A release that the catalogue gives stands for an event.
pub newest_sound :
    (c : Catalogue) (publisher name : Bytes) (rel : Release)
    → newest c publisher name ≡ some rel
    → (e : Event) × IsReleaseOf e rel
unfolding newest
newest_sound c publisher name rel h =
    let best = newest_listed publisher name c.releases none in
    elim (Option-cases best) [
      | inl e ↦ absurd (none_ne_some (rw e at h))
      | inr (e, is_best) ↦
          let (kept, parsed) = unless_revoked-some _ _ rel (rw is_best at h) in
          (e, parse_release-IsReleaseOf e rel parsed)
    ]
