-- ===== src/Assoc.antt =====
-- A Go `map[string]V` as an association list, with its laws. `insert` is `m[k] = v`, `delete` is
-- `delete(m, k)`, and a lookup returns `none` for a missing key.
use nostrhost_nsite.Prelude.{
  ℕ, ◌+◌, ◌≡◌, refl, List, [], ◌∷◌, Option, none, some, arith, if◌then◌else◌, Bytes, beq, beq_iff,
}

module _ {V : Type 0} where
  unfoldable pub lookup : Bytes → List (Bytes × V) → Option V
  lookup k [] = none
  lookup k ((j, v) ∷ m) = if beq j k then some v else lookup k m

  unfoldable pub insert : Bytes → V → List (Bytes × V) → List (Bytes × V)
  insert k v [] = (k, v) ∷ []
  insert k v ((j, w) ∷ m) = if beq j k then (k, v) ∷ m else (j, w) ∷ insert k v m

  unfoldable pub delete : Bytes → List (Bytes × V) → List (Bytes × V)
  delete k [] = []
  delete k ((j, w) ∷ m) = if beq j k then m else (j, w) ∷ delete k m

  abbrev pub keys : List (Bytes × V) → List Bytes
  keys [] = []
  keys ((j, w) ∷ m) = j ∷ keys m

  -- Every key stands once.
  abbrev pub Distinct : List (Bytes × V) → Type 0
  Distinct [] = Unit
  Distinct ((j, w) ∷ m) = (lookup j m ≡ none) × Distinct m

  pub lookup-insert :
      (k j : Bytes) (v : V) (m : List (Bytes × V))
      → lookup j (insert k v m) ≡ (if beq k j then some v else lookup j m)
  unfolding lookup insert
  lookup-insert k j v [] = refl
  lookup-insert k j v ((i, w) ∷ m) =
      ground (arith, beq_iff k j, beq_iff i k, beq_iff i j, lookup-insert k j v m)

  pub lookup-delete :
      (k j : Bytes) (m : List (Bytes × V))
      → Distinct m
      → lookup j (delete k m) ≡ (if beq k j then none else lookup j m)
  unfolding lookup delete
  lookup-delete k j [] _ = ground arith
  lookup-delete k j ((i, w) ∷ m) (fresh, h) =
      ground (arith, beq_iff k j, beq_iff i k, beq_iff i j, lookup-delete k j m h)

  pub Distinct-insert :
      (k : Bytes) (v : V) (m : List (Bytes × V)) → Distinct m → Distinct (insert k v m)
  unfolding insert
  Distinct-insert k v [] _ = (unfold lookup in refl, tt)
  Distinct-insert k v ((i, w) ∷ m) (fresh, h) =
      ground (arith, beq_iff i k, beq_iff k i, lookup-insert k i v m, Distinct-insert k v m h)

  pub Distinct-delete : (k : Bytes) (m : List (Bytes × V)) → Distinct m → Distinct (delete k m)
  unfolding delete
  Distinct-delete k [] _ = tt
  Distinct-delete k ((i, w) ∷ m) (fresh, h) =
      ground (arith, lookup-delete k i m h, Distinct-delete k m h)

-- `m[k]` of a map to numbers: the zero value for a missing key
abbrev pub value_at : Option ℕ → ℕ
value_at none = 0
value_at (some v) = v

abbrev pub total : List (Bytes × ℕ) → ℕ
total [] = 0
total ((j, v) ∷ m) = v + total m

pub total-insert :
    (k : Bytes) (v : ℕ) (m : List (Bytes × ℕ))
    → total (insert k v m) + value_at (lookup k m) ≡ total m + v
unfolding lookup insert
total-insert k v [] = omega arith
total-insert k v ((i, w) ∷ m) = ground (arith, total-insert k v m)

pub total-delete :
    (k : Bytes) (m : List (Bytes × ℕ)) → total (delete k m) + value_at (lookup k m) ≡ total m
unfolding lookup delete
total-delete k [] = omega arith
total-delete k ((i, w) ∷ m) = ground (arith, total-delete k m)
