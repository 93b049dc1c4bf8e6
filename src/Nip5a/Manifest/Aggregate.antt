-- ===== src/Nip5a/Manifest/Aggregate.antt =====
-- The aggregate hash of internal/nip5a/manifest.go does not depend on the order of the paths.
use nostrhost_nsite.Prelude.{◌≡◌, refl, ap, ◌∙◌, true, false, List, [], ◌∷◌, arith, map, Bytes}
use nostrhost_nsite.Hex.{encode_to_string}
use mathlib.Core.List.{Perm, Permᴰ}
use nostrhost_nsite.Nip5a.Manifest.{
  SitePath, path_line, bytes_le, insert_line, sort_strings, join_lines, aggregate_hash,
}

bytes_le_total : (a b : Bytes) → bytes_le a b ≡ false → bytes_le b a ≡ true
unfolding bytes_le
bytes_le_total [] b h = absurd (ground arith)
bytes_le_total (x ∷ a) [] h = refl
bytes_le_total (x ∷ a) (y ∷ b) h = ground (arith, bytes_le_total a b)

bytes_le_antisymm : (a b : Bytes) → bytes_le a b ≡ true → bytes_le b a ≡ true → a ≡ b
unfolding bytes_le
bytes_le_antisymm [] [] h k = refl
bytes_le_antisymm [] (y ∷ b) h k = absurd (ground arith)
bytes_le_antisymm (x ∷ a) [] h k = absurd (ground arith)
bytes_le_antisymm (x ∷ a) (y ∷ b) h k = ground (arith, bytes_le_antisymm a b)

bytes_le_trans : (a b c : Bytes) → bytes_le a b ≡ true → bytes_le b c ≡ true → bytes_le a c ≡ true
unfolding bytes_le
bytes_le_trans [] b c h k = refl
bytes_le_trans (x ∷ a) [] c h k = absurd (ground arith)
bytes_le_trans (x ∷ a) (y ∷ b) [] h k = absurd (ground arith)
bytes_le_trans (x ∷ a) (y ∷ b) (z ∷ c) h k = ground (arith, bytes_le_trans a b c)

insert_line_comm :
    (x y : Bytes) (zs : List Bytes)
    → insert_line x (insert_line y zs) ≡ insert_line y (insert_line x zs)
unfolding insert_line
insert_line_comm x y [] =
    ground (arith, bytes_le_total x y, bytes_le_total y x, bytes_le_antisymm x y)
insert_line_comm x y (z ∷ zs) = ground (
  arith,
  insert_line_comm x y zs,
  bytes_le_total x y,
  bytes_le_total y x,
  bytes_le_total x z,
  bytes_le_total y z,
  bytes_le_antisymm x y,
  bytes_le_trans x y z,
  bytes_le_trans y x z,
)

sort-Permᴰ :
    {xs ys : List SitePath}
    → Permᴰ xs ys
    → sort_strings (map path_line xs) ≡ sort_strings (map path_line ys)
unfolding sort_strings
sort-Permᴰ Permᴰ.nil = refl
sort-Permᴰ (Permᴰ.cons e d) = rw (e, sort-Permᴰ d) refl
sort-Permᴰ (Permᴰ.swap e f) = rw (e, f) (insert_line_comm _ _ _)
sort-Permᴰ (Permᴰ.trans d e) = sort-Permᴰ d ∙ sort-Permᴰ e

Bytes_set : IsSet Bytes
Bytes_set = hlevel

-- Paths in another order have the same aggregate hash.
pub aggregate_hash-Perm :
    (sha256 : Bytes → Bytes) (xs ys : List SitePath)
    → Perm xs ys
    → aggregate_hash sha256 xs ≡ aggregate_hash sha256 ys
unfolding aggregate_hash
aggregate_hash-Perm sha256 xs ys p =
    ∥∥₁_rec (Bytes_set _ _)
      (λ d. ap (λ lines. encode_to_string (sha256 (join_lines lines))) (sort-Permᴰ d)) p
