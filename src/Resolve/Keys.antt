-- ===== src/Resolve/Keys.antt =====
-- The cache keys of internal/resolve/resolve.go: which events a key stands for, and that a key stands
-- for one site.
use mathlib.Core.Path.{subst}
use nostrhost_nsite.Prelude.{
  ◌≡◌, sym, ap, ◌∙◌, Bool, true, false, ◌&&◌, ◌||◌, List, [], ◌∷◌, ◌++◌, none, some, arith,
  if◌then◌else◌, length, drop, take, take-length_append, drop-length_append, any, Bytes, codes, beq,
  beq_iff, ◌==◌, some_inj, none_ne_some,
}
use nostrhost_nsite.Nostr.{Event, Filter, has_value, value_of}
use nostrhost_nsite.Nip5a.Label.{SiteType, root, named, snapshot}
use nostrhost_nsite.Nip5a.Manifest.{kind_root, kind_named, kind_snapshot}
use nostrhost_nsite.Resolve.{key_and_filter}

abbrev is_nil {ℓ} : {A : Type ℓ} → List A → Bool
is_nil [] = true
is_nil (x ∷ xs) = false

abbrev pub has_d : Bytes → Event → Bool
has_d d e = any (λ t. has_value (codes "d") t && beq (value_of t) d) e.tags

-- `Filter.Matches` of go-nostr for the fields that the program fills in.
abbrev pub matches : Filter → Event → Bool
matches f e =
    (is_nil f.kinds || any (λ k. k == e.kind) f.kinds)
    && (is_nil f.authors || any (λ a. beq a e.pubkey) f.authors)
    && (is_nil f.ids || any (λ i. beq i e.id) f.ids)
    && (is_nil f.d_values || any (λ d. has_d d e) f.d_values)

-- The event is of the site asked for.
abbrev pub IsOf : SiteType → Bytes → Bytes → Bytes → Event → Type 0
IsOf root pubkey d id e = (e.kind ≡ kind_root) × (e.pubkey ≡ pubkey)
IsOf named pubkey d id e = (e.kind ≡ kind_named) × (e.pubkey ≡ pubkey) × (has_d d e ≡ true)
IsOf snapshot pubkey d id e = (e.kind ≡ kind_snapshot) × (e.id ≡ id)

-- The key and the filter of a site, where there are any.
abbrev key_text : SiteType → Bytes → Bytes → Bytes → Bytes
key_text root pubkey d id = codes "root:" ++ pubkey
key_text named pubkey d id = codes "named:" ++ (pubkey ++ (codes ":" ++ d))
key_text snapshot pubkey d id = codes "snap:" ++ id

abbrev filter_of : SiteType → Bytes → Bytes → Bytes → Filter
filter_of root pubkey d id = record {
  kinds = kind_root ∷ [];
  authors = pubkey ∷ [];
  ids = [];
  d_values = [];
}
filter_of named pubkey d id = record {
  kinds = kind_named ∷ [];
  authors = pubkey ∷ [];
  ids = [];
  d_values = d ∷ [];
}
filter_of snapshot pubkey d id = record {
  kinds = kind_snapshot ∷ [];
  authors = [];
  ids = id ∷ [];
  d_values = [];
}

abbrev key_filter : SiteType → Bytes → Bytes → Bytes → Bytes × Filter
key_filter t pubkey d id = (key_text t pubkey d id, filter_of t pubkey d id)

if-some {ℓ} : {A : Type ℓ} (b : Bool) (x y : A) → (if b then none else some x) ≡ some y → x ≡ y
if-some true x y h = absurd (none_ne_some h)
if-some false x y h = some_inj h

key_and_filter-some :
    (t : SiteType) (pubkey d id key : Bytes) (flt : Filter)
    → key_and_filter t pubkey d id ≡ some (key, flt)
    → key_filter t pubkey d id ≡ (key, flt)
unfolding key_and_filter
key_and_filter-some root pubkey d id key flt h = some_inj h
key_and_filter-some named pubkey d id key flt h = if-some (beq d []) _ _ h
key_and_filter-some snapshot pubkey d id key flt h = if-some (beq id []) _ _ h

matches-IsOf :
    (t : SiteType) (pubkey d id : Bytes) (e : Event)
    → matches (filter_of t pubkey d id) e ≡ true
    → IsOf t pubkey d id e
matches-IsOf root pubkey d id e m = ground (arith, beq_iff pubkey e.pubkey)
matches-IsOf named pubkey d id e m = ground (arith, beq_iff pubkey e.pubkey)
matches-IsOf snapshot pubkey d id e m = ground (arith, beq_iff id e.id)

-- What matches the filter of a site is of the site.
pub key_and_filter-IsOf :
    (t : SiteType) (pubkey d id key : Bytes) (flt : Filter) (e : Event)
    → key_and_filter t pubkey d id ≡ some (key, flt)
    → matches flt e ≡ true
    → IsOf t pubkey d id e
key_and_filter-IsOf t pubkey d id key flt e h m =
    let same = ap (λ (kf : Bytes × Filter). kf.1) (key_and_filter-some t pubkey d id key flt h) in
    matches-IsOf t pubkey d id e (subst (λ f. matches f e ≡ true) (sym same) m)

same_rest : (p a b : Bytes) → p ++ a ≡ p ++ b → a ≡ b
same_rest [] a b h = h
same_rest (x ∷ p) a b h = same_rest p a b (ap (drop 1) h)

same_fields :
    (a b c d : Bytes)
    → length a ≡ 64
    → length b ≡ 64
    → a ++ (codes ":" ++ c) ≡ b ++ (codes ":" ++ d)
    → (a ≡ b) × (c ≡ d)
same_fields a b c d l l' h = (
  sym (take-length_append 64 a (codes ":" ++ c) l)
      ∙ (ap (take 64) h ∙ take-length_append 64 b (codes ":" ++ d) l'),
  ap (drop 1) (
      sym (drop-length_append 64 a (codes ":" ++ c) l)
      ∙ (ap (drop 64) h ∙ drop-length_append 64 b (codes ":" ++ d) l')),
)

key_text-same :
    (t t' : SiteType) (pubkey d id pubkey' d' id' : Bytes) (e : Event)
    → length pubkey ≡ 64
    → length pubkey' ≡ 64
    → key_text t pubkey d id ≡ key_text t' pubkey' d' id'
    → IsOf t' pubkey' d' id' e
    → IsOf t pubkey d id e
key_text-same root root pubkey d id pubkey' d' id' e l l' h (k, p) =
    (k, p ∙ sym (same_rest (codes "root:") pubkey pubkey' h))
key_text-same named named pubkey d id pubkey' d' id' e l l' h (k, p, v) =
    let (ps, ds) = same_fields pubkey pubkey' d d' l l' (same_rest (codes "named:") _ _ h) in
    (k, p ∙ sym ps, subst (λ x. has_d x e ≡ true) (sym ds) v)
key_text-same snapshot snapshot pubkey d id pubkey' d' id' e l l' h (k, p) =
    (k, p ∙ sym (same_rest (codes "snap:") id id' h))
key_text-same root named pubkey d id pubkey' d' id' e l l' h _ = absurd (ground arith)
key_text-same root snapshot pubkey d id pubkey' d' id' e l l' h _ = absurd (ground arith)
key_text-same named root pubkey d id pubkey' d' id' e l l' h _ = absurd (ground arith)
key_text-same named snapshot pubkey d id pubkey' d' id' e l l' h _ = absurd (ground arith)
key_text-same snapshot root pubkey d id pubkey' d' id' e l l' h _ = absurd (ground arith)
key_text-same snapshot named pubkey d id pubkey' d' id' e l l' h _ = absurd (ground arith)

-- A key that two requests share is of one site.
pub key_and_filter-same :
    (t t' : SiteType) (pubkey d id pubkey' d' id' key : Bytes) (flt flt' : Filter) (e : Event)
    → length pubkey ≡ 64
    → length pubkey' ≡ 64
    → key_and_filter t pubkey d id ≡ some (key, flt)
    → key_and_filter t' pubkey' d' id' ≡ some (key, flt')
    → IsOf t' pubkey' d' id' e
    → IsOf t pubkey d id e
key_and_filter-same t t' pubkey d id pubkey' d' id' key flt flt' e l l' h h' i =
    let key_is = ap (λ (kf : Bytes × Filter). kf.0) (key_and_filter-some t pubkey d id key flt h) in
    let key_is' =
      ap (λ (kf : Bytes × Filter). kf.0) (key_and_filter-some t' pubkey' d' id' key flt' h') in
    key_text-same t t' pubkey d id pubkey' d' id' e l l' (key_is ∙ sym key_is') i

-- No site has the key of a release.
pub key_and_filter-release :
    (t : SiteType) (pubkey d id rest : Bytes) (flt : Filter)
    → key_and_filter t pubkey d id ≡ some (codes "release:" ++ rest, flt)
    → ⊥
key_and_filter-release t pubkey d id rest flt h =
    go t (ap (λ (kf : Bytes × Filter). kf.0) (key_and_filter-some t pubkey d id _ flt h))
  where
    go : (t : SiteType) → key_text t pubkey d id ≡ codes "release:" ++ rest → ⊥
    go root e = ground arith
    go named e = ground arith
    go snapshot e = ground arith
