-- ===== src/Npk/Release/Newest.antt =====
-- What internal/npk/npk.go and catalogue.go take for the newest release.
use nostrhost_nsite.Prelude.{
  ◌≤◌, ◌<◌, ◌≡◌, refl, ap, ◌∙◌, inl, inr, Bool, true, false, not, ◌&&◌, List, [], ◌∷◌, ◌++◌, Option,
  none, some, arith, if◌then◌else◌, filter, All, All-map, All-append, Bytes, beq, Bool-cases,
  append_assoc, append-nil, leb,
}
use nostrhost_nsite.Nostr.{Event}
use nostrhost_nsite.Npk.Release.{release_name, is_older, newest_named}

-- The events delivered, without the nil ones.
abbrev pub present : List (Option Event) → List Event
present [] = []
present (none ∷ hits) = present hits
present (some e ∷ hits) = e ∷ present hits

-- The first of the newest events that pass a test, as a loop.
unfoldable pub pick : (Event → Bool) → List Event → Option Event → Option Event
pick p [] best = best
pick p (e ∷ es) best =
    pick p es (if not (p e) then best else if is_older e best then best else some e)

-- `best` is the first of the newest events of the list that pass the test, or none passes.
abbrev pub IsLatest : (Event → Bool) → List Event → Option Event → Type 0
IsLatest p es none = All (λ x. p x ≡ false) es
IsLatest p es (some e) =
    (before : List Event) × (after : List Event) × (es ≡ before ++ e ∷ after)
    × (p e ≡ true)
    × All (λ (x : Event). p x ≡ true → x.created_at < e.created_at) before
    × All (λ (x : Event). p x ≡ true → x.created_at ≤ e.created_at) after

abbrev test_step : (Event → Bool) → Event → Option Event → Option Event
test_step p x best = if not (p x) then best else if is_older x best then best else some x

snoc_cons {ℓ} : {A : Type ℓ} (xs : List A) (x : A) (ys : List A) → xs ++ x ∷ [] ++ ys ≡ xs ++ x ∷ ys
snoc_cons xs x ys = append_assoc xs (x ∷ []) ys

IsLatest-later :
    (p : Event → Bool) (seen : List Event) (x b : Event)
    → IsLatest p seen (some b)
    → (p x ≡ true → x.created_at ≤ b.created_at)
    → IsLatest p (seen ++ x ∷ []) (some b)
IsLatest-later p seen x b (before, after, same, pb, old, older) h = (
  before,
  after ++ x ∷ [],
  ap (λ s. s ++ x ∷ []) same ∙ append_assoc before (b ∷ after) (x ∷ []),
  pb,
  old,
  All-append _ after (x ∷ []) older (h, tt),
)

IsLatest-now :
    (p : Event → Bool) (seen : List Event) (x b : Event)
    → IsLatest p seen (some b)
    → p x ≡ true
    → b.created_at < x.created_at
    → IsLatest p (seen ++ x ∷ []) (some x)
IsLatest-now p seen x b (before, after, same, pb, old, older) px h =
    let less : Event → Type 0 = λ e. p e ≡ true → e.created_at < x.created_at in
    (
      seen,
      [],
      refl,
      px,
      rw same (
          All-append less before (b ∷ after)
            (All-map _ less before (λ e k t. let lt = k t in omega arith) old)
            ((λ _. h), All-map _ less after (λ e k t. let le = k t in omega arith) older)),
      tt,
    )

keeps_IsLatest :
    (p : Event → Bool) (seen : List Event) (x : Event) (best : Option Event)
    → IsLatest p seen best
    → IsLatest p (seen ++ x ∷ []) (test_step p x best)
keeps_IsLatest p seen x none h = elim (Bool-cases (p x)) [
  | inl y ↦ rw y (seen, [], refl, y, All-map _ _ seen (λ e n k. absurd (ground arith)) h, tt)
  | inr n ↦ rw n (All-append (λ e. p e ≡ false) seen (x ∷ []) h (n, tt))
]
keeps_IsLatest p seen x (some b) h = elim (Bool-cases (p x)) [
  | inr n ↦ rw n (IsLatest-later p seen x b h (λ k. absurd (ground arith)))
  | inl y ↦ elim (Bool-cases (leb x.created_at b.created_at)) [
    | inl o ↦ rw (y, o) (IsLatest-later p seen x b h (λ k. ground arith))
    | inr new ↦ rw (y, new) (IsLatest-now p seen x b h y (ground arith))
  ]
]

pub pick-IsLatest_from :
    (p : Event → Bool) (seen es : List Event) (best : Option Event)
    → IsLatest p seen best
    → IsLatest p (seen ++ es) (pick p es best)
unfolding pick
pick-IsLatest_from p seen [] best h = rw (append-nil seen) h
pick-IsLatest_from p seen (e ∷ es) best h =
    rw (← snoc_cons seen e es)
      (pick-IsLatest_from p (seen ++ e ∷ []) es _ (keeps_IsLatest p seen e best h))

pub pick-IsLatest : (p : Event → Bool) (es : List Event) → IsLatest p es (pick p es none)
pick-IsLatest p es = pick-IsLatest_from p [] es none tt

pub pick-filter :
    (p q : Event → Bool) (es : List Event) (best : Option Event)
    → pick p (filter q es) best ≡ pick (λ e. q e && p e) es best
unfolding pick
pick-filter p q [] best = refl
pick-filter p q (e ∷ es) best = elim (Bool-cases (q e)) [
  | inl y ↦ rw (y, filter) (pick-filter p q es _)
  | inr n ↦ rw (n, filter) (pick-filter p q es best)
]

-- The name of the release's event.
abbrev pub is_named : Bytes → Event → Bool
is_named name e = beq (release_name e.tags) name

pub newest_named-pick :
    (name : Bytes) (hits : List (Option Event)) (best : Option Event)
    → newest_named name hits best ≡ pick (is_named name) (present hits) best
unfolding newest_named pick
newest_named-pick name [] best = refl
newest_named-pick name (none ∷ hits) best = newest_named-pick name hits best
newest_named-pick name (some e ∷ hits) best = newest_named-pick name hits _
