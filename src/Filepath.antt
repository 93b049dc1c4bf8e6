-- ===== src/Filepath.antt =====
-- Package `path/filepath` on Unix as internal/npk/npk.go calls it: Clean, Join, Dir, IsAbs and Abs.
use nostrhost_nsite.Prelude.{
  Bool, true, false, ◌||◌, List, [], ◌∷◌, ◌++◌, Option, none, some, if◌then◌else◌, Bytes, codes,
  beq, has_prefix, contains, before_last, split_on,
}

-- A segment ".." takes the one before it away, if there is one.
abbrev pub go_up : Bool → List Bytes → List Bytes
go_up true [] = []
go_up false [] = codes ".." ∷ []
go_up rooted (top ∷ stack) = if beq top (codes "..") then codes ".." ∷ top ∷ stack else stack

abbrev pub add_segment : Bool → Bytes → List Bytes → List Bytes
add_segment rooted seg stack =
    if beq seg [] || beq seg (codes ".")
    then stack
    else if beq seg (codes "..")
    then go_up rooted stack
    else seg ∷ stack

-- The loop of `Clean`; the segments kept so far stand last first.
unfoldable pub clean_segments : Bool → List Bytes → List Bytes → List Bytes
clean_segments rooted [] stack = stack
clean_segments rooted (seg ∷ segs) stack = clean_segments rooted segs (add_segment rooted seg stack)

-- `strings.Join(segs, "/")` of the segments, which stand last first.
unfoldable pub join_back : List Bytes → Bytes
join_back [] = []
join_back (seg ∷ []) = seg
join_back (seg ∷ s ∷ stack) = join_back (s ∷ stack) ++ b'/' ∷ seg

abbrev pub is_abs : Bytes → Bool
is_abs path = has_prefix path (codes "/")

abbrev pub or_dot : Bytes → Bytes
or_dot path = if beq path [] then codes "." else path

unfoldable pub clean : Bytes → Bytes
clean path =
    let kept = join_back (clean_segments (is_abs path) (split_on b'/' path) []) in
    if is_abs path then b'/' ∷ kept else or_dot kept

-- `Join` of two elements; empty ones are left out.
unfoldable pub join : Bytes → Bytes → Bytes
join a b = if beq a [] then if beq b [] then [] else clean b else clean (a ++ b'/' ∷ b)

unfoldable pub dir : Bytes → Bytes
dir path = clean (if contains b'/' path then before_last b'/' path ++ codes "/" else [])

abbrev pub join_to : Option Bytes → Bytes → Option Bytes
join_to none path = none
join_to (some wd) path = some (join wd path)

-- `Abs`; `wd` is the working directory, `none` when the system does not give it.
unfoldable pub abs : Option Bytes → Bytes → Option Bytes
abs wd path = if is_abs path then some (clean path) else join_to wd path
