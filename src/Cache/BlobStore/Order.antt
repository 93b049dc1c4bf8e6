-- ===== src/Cache/BlobStore/Order.antt =====
-- The order that `evictLocked` of internal/cache/cache.go gives the blobs by their last use.
use mathlib.Core.Path.{subst}
use mathlib.Core.Bool.{false≢true}
use nostrhost_nsite.Prelude.{
  ℕ, ◌≤◌, ◌≡◌, refl, ◌∙◌, Bool, true, ◌||◌, List, [], ◌∷◌, ltb, Bytes, beq, beq→eq, arith,
  Bool-cases, inl, inr, All, member,
}
use nostrhost_nsite.Assoc.{lookup, value_at}
use nostrhost_nsite.Cache.BlobStore.{insert_by, sort_slice, used_before, is_some}

-- One `range` over a map gives every key.
abbrev pub Ranges : List (Bytes × ℕ) → List Bytes → Type 0
Ranges m names = (k : Bytes) → is_some (lookup k m) ≡ true → member k names ≡ true

-- Ascending by time.
abbrev pub SortedBy : (Bytes → ℕ) → List Bytes → Type 0
SortedBy time [] = Unit
SortedBy time (x ∷ xs) = All (λ y. time x ≤ time y) xs × SortedBy time xs

abbrev pub time_in : List (Bytes × ℕ) → Bytes → ℕ
time_in last_use k = value_at (lookup k last_use)

pub member-All {ℓ} :
    (P : Bytes → Type ℓ) (k : Bytes) (xs : List Bytes) → All P xs → member k xs ≡ true → P k
unfolding member
member-All P k [] h m = absurd (false≢true m)
member-All P k (x ∷ xs) (p, h) m = elim (Bool-cases (beq x k)) [
  | inl e ↦ subst P (beq→eq x k e) p
  | inr e ↦ member-All P k xs h (rw e at m)
]

member-insert_by :
    (less : Bytes → Bytes → Bool) (k x : Bytes) (xs : List Bytes)
    → member k (insert_by less x xs) ≡ (beq x k || member k xs)
unfolding insert_by member
member-insert_by less k x [] = refl
member-insert_by less k x (y ∷ ys) = ground (arith, member-insert_by less k x ys)

pub member-sort_slice :
    (less : Bytes → Bytes → Bool) (k : Bytes) (xs : List Bytes)
    → member k (sort_slice less xs) ≡ member k xs
unfolding sort_slice member
member-sort_slice less k [] = refl
member-sort_slice less k (x ∷ xs) =
    member-insert_by less k x (sort_slice less xs) ∙ rw (member-sort_slice less k xs) refl

All-insert_by {ℓ} :
    (P : Bytes → Type ℓ) (less : Bytes → Bytes → Bool) (x : Bytes) (xs : List Bytes)
    → P x
    → All P xs
    → All P (insert_by less x xs)
unfolding insert_by
All-insert_by P less x [] p h = (p, tt)
All-insert_by P less x (y ∷ ys) p (q, h) = elim (Bool-cases (less y x)) [
  | inl e ↦ rw e (q, All-insert_by P less x ys p h)
  | inr e ↦ rw e (p, (q, h))
]

All-later :
    (time : Bytes → ℕ) (x y : Bytes) (xs : List Bytes)
    → time x ≤ time y
    → All (λ z. time y ≤ time z) xs
    → All (λ z. time x ≤ time z) xs
All-later time x y [] le h = tt
All-later time x y (z ∷ xs) le (p, h) = (omega arith, All-later time x y xs le h)

insert_by-sorted :
    (last_use : List (Bytes × ℕ)) (x : Bytes) (xs : List Bytes)
    → SortedBy (time_in last_use) xs
    → SortedBy (time_in last_use) (insert_by (used_before last_use) x xs)
unfolding insert_by used_before
insert_by-sorted last_use x [] h = (tt, tt)
insert_by-sorted last_use x (y ∷ ys) (least, h) =
    let time = time_in last_use in
    elim (Bool-cases (ltb (time y) (time x))) [
      | inl e ↦ rw e (
        All-insert_by (λ z. time y ≤ time z) (used_before last_use) x ys (ground arith) least,
        insert_by-sorted last_use x ys h,
      )
      | inr e ↦
          let le : time x ≤ time y = ground arith in
          rw e ((le, All-later time x y ys le least), (least, h))
    ]

-- The least recently used blobs come first.
pub sort_slice-sorted :
    (last_use : List (Bytes × ℕ)) (xs : List Bytes)
    → SortedBy (time_in last_use) (sort_slice (used_before last_use) xs)
unfolding sort_slice
sort_slice-sorted last_use [] = tt
sort_slice-sorted last_use (x ∷ xs) = insert_by-sorted last_use x _ (sort_slice-sorted last_use xs)
