-- ===== src/Nostr.antt =====
-- What the program uses of the package github.com/nbd-wtf/go-nostr: events with their tags, and the
-- two checks of an event, which are parameters.
use nostrhost_nsite.Prelude.{ℕ, Bool, false, List, [], ◌∷◌, Option, Bytes, beq}

pub record Event : Type 0 where
  pub id : Bytes
  pub pubkey : Bytes
  pub created_at : ℕ
  pub kind : ℕ
  pub tags : List (List Bytes)

-- The part of `Filter` that the program fills in; an empty list leaves the field out.
pub record Filter : Type 0 where
  pub kinds : List ℕ
  pub authors : List Bytes
  pub ids : List Bytes
  pub d_values : List Bytes

-- `SubManyEose` of a new pool: what the relays deliver for a filter until the end of what they hold.
abbrev pub Pool : Type 0
Pool = List Bytes → Filter → List (Option Event)

-- `CheckID` and `CheckSignature`
pub record Checks : Type 0 where
  pub check_id : Event → Bool
  pub check_signature : Event → Bool

-- `t[0] == name`, where the length of the tag was tested
abbrev pub tag_is : Bytes → List Bytes → Bool
tag_is name [] = false
tag_is name (x ∷ t) = beq x name

-- `len(t) >= 2 && t[0] == name`
abbrev pub has_value : Bytes → List Bytes → Bool
has_value name [] = false
has_value name (x ∷ []) = false
has_value name (x ∷ y ∷ t) = beq x name

-- `t[1]`, asked of a tag of length 2 or more
abbrev pub value_of : List Bytes → Bytes
value_of [] = []
value_of (x ∷ []) = []
value_of (x ∷ y ∷ t) = y
