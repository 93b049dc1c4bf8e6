-- ===== src/Metrics.antt =====
-- internal/metrics/metrics.go: the registry of counters and histograms. The collectors of
-- client_golang are the parameter `Collectors`, over a state `P` of their own; a panic is `none`. The
-- two kinds differ only in the collector, and in that a counter adds and a histogram observes.
pub mod Again
use nostrhost_nsite.Prelude.{
  ℕ, Bool, true, false, not, List, [], ◌∷◌, Option, none, some, ◌==◌, if◌then◌else◌, length, Bytes,
}
use nostrhost_nsite.Assoc.{lookup, insert}

-- `NewCounterVec` or `NewHistogramVec` with `MustRegister`, which may panic, `vec.With`, and `Add` or
-- `Observe`. Labels are pairs of a key and a value.
pub record Collectors (P V : Type 0) : Type 0 where
  pub register : Bytes → Bytes → List Bytes → P → Option P
  pub touch : Bytes → List (Bytes × Bytes) → P → P
  pub note : Bytes → List (Bytes × Bytes) → V → P → P

-- `Counter` or `Histogram`; `cur` holds the labels of a scoped view. The handle that a call of `Add`
-- changes is returned; the registry's own finds the same child again when it is asked.
pub record Family : Type 0 where
  pub name : Bytes
  pub label_keys : List Bytes
  pub cur : Option (List (Bytes × Bytes))

-- `Registry`, one of its two maps with the collectors behind it.
pub record Registry (P : Type 0) : Type 0 where
  pub collectors : P
  pub families : List (Bytes × Family)

abbrev pair_labels : List Bytes → List Bytes → List (Bytes × Bytes)
pair_labels [] values = []
pair_labels (k ∷ ks) [] = []
pair_labels (k ∷ ks) (v ∷ values) = (k, v) ∷ pair_labels ks values

module _ {P V : Type 0} (col : Collectors P V) where
  -- `With`, which makes the child exist.
  unfoldable pub with_values : List Bytes → Family → P → Option (P × Family)
  with_values values f p =
      let labels = pair_labels f.label_keys values in
      if not (length values == length f.label_keys)
      then none
      else some (col.touch f.name labels p, record f { cur = some labels })

  abbrev note_unlabelled : V → Family → List Bytes → P → Option (P × Family)
  note_unlabelled v f [] p =
      some (col.note f.name [] v (col.touch f.name [] p), record f { cur = some [] })
  note_unlabelled v f (k ∷ ks) p = none

  abbrev note_at : V → Family → Option (List (Bytes × Bytes)) → P → Option (P × Family)
  note_at v f none p = note_unlabelled v f f.label_keys p
  note_at v f (some labels) p = some (col.note f.name labels v p, f)

  -- `Add` and `Observe`
  unfoldable pub note_value : V → Family → P → Option (P × Family)
  note_value v f p = note_at v f f.cur p

  abbrev materialise : Bytes → List Bytes → P → P
  materialise name [] p = col.touch name [] p
  materialise name (k ∷ ks) p = p

  abbrev new_family : Bytes → List Bytes → Registry P → Option P → Option (Registry P × Family)
  new_family name label_keys r none = none
  new_family name label_keys r (some p) =
      let f : Family = record { name = name; label_keys = label_keys; cur = none } in
      some (
        record { collectors = materialise name label_keys p; families = insert name f r.families },
        f,
      )

  abbrev found_family :
      Bytes → Bytes → List Bytes → Registry P → Option Family → Option (Registry P × Family)
  found_family name help label_keys r (some f) = some (r, f)
  found_family name help label_keys r none =
      new_family name label_keys r (col.register name help label_keys r.collectors)

  -- `Registry.Counter` and `Registry.Histogram`
  unfoldable pub family : Bytes → Bytes → List Bytes → Registry P → Option (Registry P × Family)
  family name help label_keys r = found_family name help label_keys r (lookup name r.families)
