-- ===== src/Metrics/Again.antt =====
-- A family of internal/metrics/metrics.go is registered once.
use nostrhost_nsite.Prelude.{
  ◌≡◌, refl, sym, ap, ◌∙◌, inl, inr, Option, none, some, List, Bytes, beq_self, Option-cases,
  some_inj, none_ne_some, if◌then◌else◌, Bool,
}
use nostrhost_nsite.Assoc.{lookup, insert, lookup-insert}
use nostrhost_nsite.Metrics.{Collectors, Family, Registry, new_family, family}

module _ {P V : Type 0} (col : Collectors P V) where
  new_family-lookup :
      (name : Bytes) (label_keys : List Bytes) (r r' : Registry P) (o : Option P) (f : Family)
      → new_family col name label_keys r o ≡ some (r', f)
      → lookup name r'.families ≡ some f
  new_family-lookup name label_keys r r' none f h = absurd (none_ne_some h)
  new_family-lookup name label_keys r r' (some p) f h =
      let g : Family = record { name = name; label_keys = label_keys; cur = none } in
      let same = some_inj h in
      let at_name : lookup name (insert name g r.families) ≡ some g =
        lookup-insert name name g r.families
        ∙ ap (λ (b : Bool). if b then some g else lookup name r.families) (beq_self name) in
      ap (λ (x : Registry P × Family). lookup name x.0.families) (sym same)
      ∙ (at_name ∙ ap (λ (x : Registry P × Family). some x.1) same)

  family-lookup :
      (name help : Bytes) (label_keys : List Bytes) (r r' : Registry P) (f : Family)
      → family col name help label_keys r ≡ some (r', f)
      → lookup name r'.families ≡ some f
  unfolding family
  family-lookup name help label_keys r r' f h = elim (Option-cases (lookup name r.families)) [
    | inl e ↦ new_family-lookup name label_keys r r' _ f (rw e at h)
    | inr (g, e) ↦
        let same = some_inj (rw e at h) in
        ap (λ (x : Registry P × Family). lookup name x.0.families) (sym same)
        ∙ (e ∙ ap (λ (x : Registry P × Family). some x.1) same)
  ]

  -- Asking for a family once more, with whatever help and label keys, gives the first one and leaves
  -- the registry as it is.
  pub family_again :
      (name help help' : Bytes) (label_keys label_keys' : List Bytes) (r r' : Registry P)
      (f : Family)
      → family col name help label_keys r ≡ some (r', f)
      → family col name help' label_keys' r' ≡ some (r', f)
  unfolding family
  family_again name help help' label_keys label_keys' r r' f h =
      rw (family-lookup name help label_keys r r' f h) refl
