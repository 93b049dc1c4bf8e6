-- ===== src/Prelude/Split.antt =====
-- `strings.Split`, `strings.LastIndex` and `strings.Contains` for a separator of one byte.
use Prim.Native.Nat.{ℕ}
use mathlib.Core.Bool.{Bool, false, ◌||◌}
use mathlib.Core.List.{List, [], ◌∷◌}
use nostrhost_nsite.Prelude.Tests.{◌==◌, if◌then◌else◌}
use nostrhost_nsite.Prelude.Text.{Bytes, has_prefix}

-- `strings.Contains(s, string(c))`
unfoldable pub contains : ℕ → Bytes → Bool
contains c [] = false
contains c (x ∷ s) = x == c || contains c s

-- What follows the last `c` of `s`: `s[strings.LastIndex(s, string(c))+1:]`, all of `s` without one.
unfoldable pub after_last : ℕ → Bytes → Bytes
after_last c [] = []
after_last c (x ∷ s) =
    let rest = after_last c s in if contains c s then rest else if x == c then s else x ∷ s

-- What precedes the last `c` of `s`: `s[:strings.LastIndex(s, string(c))]`, all of `s` without one.
unfoldable pub before_last : ℕ → Bytes → Bytes
before_last c [] = []
before_last c (x ∷ s) =
    let rest = before_last c s in if contains c s then x ∷ rest else if x == c then [] else x ∷ s

abbrev pub cons_head : ℕ → List Bytes → List Bytes
cons_head x [] = (x ∷ []) ∷ []
cons_head x (seg ∷ segs) = (x ∷ seg) ∷ segs

-- `strings.Split(s, string(c))`
unfoldable pub split_on : ℕ → Bytes → List Bytes
split_on c [] = [] ∷ []
split_on c (x ∷ s) = let rest = split_on c s in if x == c then [] ∷ rest else cons_head x rest

-- `strings.Contains(s, p)`
unfoldable pub includes : Bytes → Bytes → Bool
includes [] p = has_prefix [] p
includes (c ∷ s) p = has_prefix (c ∷ s) p || includes s p
