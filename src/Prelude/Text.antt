-- ===== src/Prelude/Text.antt =====
-- Go strings as lists of bytes, and the functions of the package `strings` that the program calls.
use Prim.Native.Nat.{◌≤◌, ℕ, ◌+◌, ◌-◌}
use Prim.Native.Char.{code}
use Prim.Native.String.{String}
use mathlib.Core.Path.{◌≡◌, refl, sym, ap, ◌∙◌}
use mathlib.Core.Logic.{◌↔◌}
use mathlib.Core.Bool.{Bool, true, false, ◌&&◌, ◌||◌}
use mathlib.Core.List.{List, [], ◌∷◌, ◌++◌}
use native.Mathlib.Omega.{arith}
use nostrhost_nsite.Prelude.Tests.{leb, le→leb, ◌==◌, if◌then◌else◌}
use nostrhost_nsite.Prelude.Lists.{
  length, drop, length-append, drop-length_append, drop-append_right, take, take-append-drop,
}

abbrev pub Bytes : Type 0
Bytes = List ℕ

-- A literal: its code points are its bytes, as every literal of the program is ASCII.
abbrev pub codes : String → Bytes
codes String.[] = []
codes (String.◌∷◌ c s) = code c ∷ codes s

-- `a == b` on strings
unfoldable pub beq : Bytes → Bytes → Bool
beq [] [] = true
beq [] (b ∷ bs) = false
beq (a ∷ as') [] = false
beq (a ∷ as') (b ∷ bs) = (a == b) && beq as' bs

pub beq_self : (a : Bytes) → beq a a ≡ true
unfolding beq
beq_self [] = refl
beq_self (x ∷ xs) = ground (arith, beq_self xs)

pub beq→eq : (a b : Bytes) → beq a b ≡ true → a ≡ b
unfolding beq
beq→eq [] [] h = refl
beq→eq [] (b ∷ bs) h = cc
beq→eq (a ∷ as') [] h = cc
beq→eq (a ∷ as') (b ∷ bs) h = ground (arith, beq→eq as' bs)

pub eq→beq : (a b : Bytes) → a ≡ b → beq a b ≡ true
eq→beq a b e = rw e (beq_self b)

pub beq_iff : (a b : Bytes) → (beq a b ≡ true) ↔ (a ≡ b)
beq_iff a b = (beq→eq a b, eq→beq a b)

-- `strings.HasPrefix(s, p)`
unfoldable pub has_prefix : Bytes → Bytes → Bool
has_prefix s [] = true
has_prefix [] (p ∷ ps) = false
has_prefix (c ∷ s) (p ∷ ps) = (c == p) && has_prefix s ps

pub has_prefix-append : (p t : Bytes) → has_prefix (p ++ t) p ≡ true
unfolding has_prefix
has_prefix-append [] [] = refl
has_prefix-append [] (c ∷ t) = refl
has_prefix-append (c ∷ p) t = ground (arith, has_prefix-append p t)

pub has_prefix_split : (s p : Bytes) → has_prefix s p ≡ true → s ≡ p ++ drop (length p) s
unfolding has_prefix
has_prefix_split [] [] h = refl
has_prefix_split (c ∷ s) [] h = refl
has_prefix_split [] (p ∷ ps) h = cc
has_prefix_split (c ∷ s) (p ∷ ps) h = ground (arith, has_prefix_split s ps)

-- `strings.HasSuffix(s, p)`: `len(s) >= len(p) && s[len(s)-len(p):] == p`
unfoldable pub has_suffix : Bytes → Bytes → Bool
has_suffix s p = leb (length p) (length s) && beq (drop (length s - length p) s) p

pub has_suffix-append : (t p : Bytes) → has_suffix (t ++ p) p ≡ true
unfolding has_suffix
has_suffix-append t p =
    rw
      (
        drop-length_append (length (t ++ p) - length p) t p (omega (arith, length-append t p)),
        beq_self,
      )
      (ground (arith, length-append t p))

pub has_suffix_split : (s p : Bytes) → has_suffix s p ≡ true → s ≡ take (length s - length p) s ++ p
unfolding has_suffix
has_suffix_split s p h =
    let e : drop (length s - length p) s ≡ p = beq→eq _ _ (ground arith) in
    sym (take-append-drop (length s - length p) s) ∙ ap (λ t. take (length s - length p) s ++ t) e

-- A suffix that fits in the last part is looked for there alone.
pub has_suffix-append_right :
    (xs ys p : Bytes) → length p ≤ length ys → has_suffix (xs ++ ys) p ≡ has_suffix ys p
unfolding has_suffix
has_suffix-append_right xs ys p h =
    let len = length-append xs ys in
    let at_ys : drop (length (xs ++ ys) - length p) (xs ++ ys) ≡ drop (length ys - length p) ys =
      drop-append_right _ xs ys (omega arith) ∙ ap (λ (n : ℕ). drop n ys) (omega arith) in
    rw (at_ys, le→leb (length p) (length (xs ++ ys)) (omega arith), le→leb (length p) (length ys) h)

-- `strings.TrimSuffix(s, p)`, `strings.TrimPrefix(s, p)`
unfoldable pub trim_suffix : Bytes → Bytes → Bytes
trim_suffix s p = if has_suffix s p then take (length s - length p) s else s

unfoldable pub trim_prefix : Bytes → Bytes → Bytes
trim_prefix s p = if has_prefix s p then drop (length p) s else s

-- membership in a `map[string]struct{}` given by its keys
unfoldable pub member : Bytes → List Bytes → Bool
member k [] = false
member k (x ∷ xs) = beq x k || member k xs

-- one character of `strings.ToLower`, where it is ASCII
abbrev pub ascii_lower : ℕ → ℕ
ascii_lower c = if leb b'A' c && leb c b'Z' then c + 32 else c
