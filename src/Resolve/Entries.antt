-- ===== src/Resolve/Entries.antt =====
-- The entries of the manifest cache of internal/cache/cache.go, as internal/resolve/resolve.go uses it:
-- what holds of every entry goes on to hold.
use mathlib.Core.Path.{subst}
use nostrhost_nsite.Prelude.{
  ℕ, ◌+◌, ◌≡◌, sym, ap, ◌∙◌, inl, inr, Bool, some, arith, if◌then◌else◌, Bytes, beq, beq_iff,
  some_inj, none_ne_some, Bool-cases, Option-cases,
}
use nostrhost_nsite.Assoc.{lookup, insert, lookup-insert, lookup-delete}
use nostrhost_nsite.Cache.ManifestCache.{ManifestEntry, ManifestCache, get, put, put_negative}
use nostrhost_nsite.Cache.ManifestCache.Views.{get_cases, IsExclusive}

module _ {E : Type 0} where
  pub get-some :
      (now : ℕ) (key : Bytes) (m : ManifestCache E) (c : E)
      → (get now key m).1 ≡ some c
      → (en : ManifestEntry E) × (lookup key m.items ≡ some en) × (en.event ≡ c)
  unfolding get
  get-some now key m c h = elim (Option-cases (lookup key m.items)) [
    | inl e ↦ absurd (none_ne_some (rw e at h))
    | inr (en, e) ↦ (en, e, ground arith)
  ]

  -- Every entry has a property of its key and its event.
  abbrev pub AllEntries : (Bytes → E → Type 0) → ManifestCache E → Type 0
  AllEntries P m = (k : Bytes) (en : ManifestEntry E) → lookup k m.items ≡ some en → P k en.event

  module _ (P : Bytes → E → Type 0) where
    pub put-AllEntries :
        (now : ℕ) (key : Bytes) (e : E) (m : ManifestCache E)
        → P key e
        → AllEntries P m
        → AllEntries P (put now key e m)
    unfolding put
    put-AllEntries now key e m pe all_m k en h = elim (Bool-cases (beq key k)) [
      | inl y ↦
          let same_key : key ≡ k = (beq_iff key k).0 y in
          let entry : ManifestEntry E = record { event = e; expires = now + m.ttl } in
          let at_k : lookup k (insert key entry m.items) ≡ some entry =
            lookup-insert key k entry m.items
            ∙ ap (λ (b : Bool). if b then some entry else lookup k m.items) y in
          let same_entry : entry ≡ en = some_inj (sym at_k ∙ h) in
          subst (λ (x : ManifestEntry E). P k x.event) same_entry (subst (λ j. P j e) same_key pe)
      | inr n ↦ all_m k en (
          ground (arith, lookup-insert key k (record { event = e; expires = now + m.ttl }) m.items))
    ]

    pub put_negative-AllEntries :
        (now : ℕ) (key : Bytes) (m : ManifestCache E)
        → IsExclusive m
        → AllEntries P m
        → AllEntries P (put_negative now key m)
    unfolding put_negative
    put_negative-AllEntries now key m v all_m k en h =
        all_m k en (ground (arith, lookup-delete key k m.items v.items_once))

    pub get-AllEntries :
        (now : ℕ) (key : Bytes) (m : ManifestCache E)
        → IsExclusive m
        → AllEntries P m
        → AllEntries P (get now key m).0
    get-AllEntries now key m v all_m = elim (get_cases now key m) [
      | inl same ↦ subst (AllEntries P) (sym same) all_m
      | inr (dropped, _) ↦
          subst (AllEntries P) (sym dropped)
            (λ k en h. all_m k en (ground (arith, lookup-delete key k m.items v.items_once)))
    ]
