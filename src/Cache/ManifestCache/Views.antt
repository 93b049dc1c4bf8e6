-- ===== src/Cache/ManifestCache/Views.antt =====
-- `ManifestCache` against what a reader of the cache sees of a key at a time.
use mathlib.Core.Path.{subst}
use nostrhost_nsite.Prelude.{
  ℕ, ◌+◌, ◌≡◌, refl, Bool, true, false, Option, none, some, if◌then◌else◌, ltb, leb, Bytes, beq,
  beq_iff, arith, sym, Bool-cases, Option-cases, ◌⊎◌, inl, inr,
}
use nostrhost_nsite.Assoc.{
  lookup, delete, Distinct, lookup-insert, lookup-delete, Distinct-insert, Distinct-delete,
}
use nostrhost_nsite.Cache.ManifestCache.{ManifestCache, get, negative, put, put_negative}

-- What the resolver learns of a key: a cached event, a fresh miss, or nothing.
pub data Answer (E : Type 0) : Type 0 where
  hit : E → Answer E
  missing : Answer E
  unknown : Answer E

module _ {E : Type 0} where
  abbrev entry_answer : Option E → Bool → Answer E
  entry_answer (some e) neg = hit e
  entry_answer none true = missing
  entry_answer none false = unknown

  -- The answer to `Get`, and to `Negative` after it.
  abbrev pub answer : ℕ → Bytes → ManifestCache E → Answer E
  answer now key m = entry_answer (get now key m).1 (negative now key m)

  -- Each map holds a key once, and no key stands in both.
  pub record IsExclusive (m : ManifestCache E) : Type 0 where
    pub items_once : Distinct m.items
    pub negated_once : Distinct m.negated
    pub apart : (k : Bytes) → (lookup k m.items ≡ none) ⊎ (lookup k m.negated ≡ none)

  pub put-IsExclusive :
      (now : ℕ) (key : Bytes) (e : E) (m : ManifestCache E)
      → IsExclusive m
      → IsExclusive (put now key e m)
  unfolding put
  put-IsExclusive now key e m v = record {
    items_once = Distinct-insert key _ m.items v.items_once;
    negated_once = Distinct-delete key m.negated v.negated_once;
    apart = λ k. ground (
      arith,
      lookup-insert key k (record { event = e; expires = now + m.ttl }) m.items,
      lookup-delete key k m.negated v.negated_once,
      v.apart k,
    );
  }

  pub put_negative-IsExclusive :
      (now : ℕ) (key : Bytes) (m : ManifestCache E)
      → IsExclusive m
      → IsExclusive (put_negative now key m)
  unfolding put_negative
  put_negative-IsExclusive now key m v = record {
    items_once = Distinct-delete key m.items v.items_once;
    negated_once = Distinct-insert key _ m.negated v.negated_once;
    apart = λ k. ground (
      arith,
      lookup-insert key k (now + m.neg_ttl) m.negated,
      lookup-delete key k m.items v.items_once,
      v.apart k,
    );
  }

  abbrev pub without_item : Bytes → ManifestCache E → ManifestCache E
  without_item key m = record m { items = delete key m.items }

  without_item-IsExclusive :
      (key : Bytes) (m : ManifestCache E) → IsExclusive m → IsExclusive (without_item key m)
  without_item-IsExclusive key m v = record {
    items_once = Distinct-delete key m.items v.items_once;
    negated_once = v.negated_once;
    apart = λ k. ground (arith, lookup-delete key k m.items v.items_once, v.apart k);
  }

  pub get_cases :
      (now : ℕ) (key : Bytes) (m : ManifestCache E)
      → ((get now key m).0 ≡ m)
        ⊎ (((get now key m).0 ≡ without_item key m) × ((get now key m).1 ≡ none))
  unfolding get
  get_cases now key m = elim (Option-cases (lookup key m.items)) [
    | inl absent ↦ inr (rw absent (refl, refl))
    | inr (e, found) ↦ elim (Bool-cases (ltb e.expires now)) [
      | inl stale ↦ inr (rw (found, stale) (refl, refl))
      | inr fresh ↦ inl (rw (found, fresh) refl)
    ]
  ]

  pub get-IsExclusive :
      (now : ℕ) (key : Bytes) (m : ManifestCache E) → IsExclusive m → IsExclusive (get now key m).0
  get-IsExclusive now key m v = elim (get_cases now key m) [
    | inl same ↦ subst IsExclusive (sym same) v
    | inr (dropped, _) ↦ subst IsExclusive (sym dropped) (without_item-IsExclusive key m v)
  ]

  -- After `Put` the key answers with the event until its lifetime is over and with nothing later,
  -- and every other key answers as before.
  pub answer-put :
      (then' now : ℕ) (key k : Bytes) (e : E) (m : ManifestCache E)
      → IsExclusive m
      → answer now k (put then' key e m) ≡ (
          if beq key k
          then (if leb now (then' + m.ttl) then hit e else unknown)
          else answer now k m)
  unfolding put get negative
  answer-put then' now key k e m v = ground (
    arith,
    lookup-insert key k (record { event = e; expires = then' + m.ttl }) m.items,
    lookup-delete key k m.negated v.negated_once,
  )

  -- After `PutNegative` the key answers with a miss until that lifetime is over and with nothing
  -- later, and every other key answers as before.
  pub answer-put_negative :
      (then' now : ℕ) (key k : Bytes) (m : ManifestCache E)
      → IsExclusive m
      → answer now k (put_negative then' key m) ≡ (
          if beq key k
          then (if leb now (then' + m.neg_ttl) then missing else unknown)
          else answer now k m)
  unfolding put_negative get negative
  answer-put_negative then' now key k m v = ground (
    arith,
    lookup-insert key k (then' + m.neg_ttl) m.negated,
    lookup-delete key k m.items v.items_once,
  )

  -- `Get` drops a stale entry, and that changes no answer then or later.
  pub answer-get :
      (then' now : ℕ) (key k : Bytes) (m : ManifestCache E)
      → IsExclusive m
      → ltb now then' ≡ false
      → answer now k (get then' key m).0 ≡ answer now k m
  unfolding get negative
  answer-get then' now key k m v later = elim (Option-cases (lookup key m.items)) [
    | inl absent ↦
        rw absent (ground (arith, lookup-delete key k m.items v.items_once, beq_iff key k))
    | inr (e, found) ↦ elim (Bool-cases (ltb e.expires then')) [
      | inl stale ↦
          rw (found, stale)
            (ground (arith, lookup-delete key k m.items v.items_once, beq_iff key k))
      | inr fresh ↦ rw (found, fresh) refl
    ]
  ]
