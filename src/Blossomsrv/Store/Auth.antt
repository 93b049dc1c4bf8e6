-- ===== src/Blossomsrv/Store/Auth.antt =====
-- Who may upload: `authorize` of internal/blossomsrv/server.go.
use mathlib.Core.Path.{subst}
use nostrhost_nsite.Prelude.{
  ◌≡◌, ◌↔◌, ◌⊎◌, inl, inr, refl, sym, true, List, [], ◌∷◌, ◌++◌, Option, none, some, any, Bytes,
  codes, beq, beq_self, beq→eq, member, arith, Bool-cases, and_split, some_inj, ap,
}
use nostrhost_nsite.Nostr.{Event, Checks}
use nostrhost_nsite.Blossomsrv.Store.{Server, authorize, covers, is_empty}

-- A tag `["x", sha, ...]` stands among the tags.
pub record HasTag (tags : List (List Bytes)) (name value : Bytes) : Type 0 where
  pub before : List (List Bytes)
  pub rest : List Bytes
  pub after : List (List Bytes)
  pub split : tags ≡ before ++ (name ∷ value ∷ rest) ∷ after

HasTag-cons :
    (t : List Bytes) {tags : List (List Bytes)} {name value : Bytes}
    → HasTag tags name value
    → HasTag (t ∷ tags) name value
HasTag-cons t h = record {
  before = t ∷ h.before;
  rest = h.rest;
  after = h.after;
  split = rw h.split refl;
}

covers_shape :
    (sha : Bytes) (t : List Bytes)
    → covers sha t ≡ true
    → (rest : List Bytes) × (t ≡ codes "x" ∷ sha ∷ rest)
covers_shape sha [] h = cc
covers_shape sha (x ∷ []) h = cc
covers_shape sha (x ∷ y ∷ t) h =
    let (e, f) = and_split (beq x (codes "x")) (beq y sha) h in
    (t, rw (beq→eq x _ e, beq→eq y sha f) refl)

pub any-covers_sound :
    (sha : Bytes) (tags : List (List Bytes))
    → any (covers sha) tags ≡ true
    → HasTag tags (codes "x") sha
any-covers_sound sha [] h = cc
any-covers_sound sha (t ∷ tags) h = elim (Bool-cases (covers sha t)) [
  | inl e ↦
      let (rest, shape) = covers_shape sha t e in
      record { before = []; rest = rest; after = tags; split = rw shape refl }
  | inr e ↦ HasTag-cons t (any-covers_sound sha tags (rw e at h))
]

any-covers_complete :
    (sha : Bytes) (before : List (List Bytes)) (rest : List Bytes) (after : List (List Bytes))
    → any (covers sha) (before ++ (codes "x" ∷ sha ∷ rest) ∷ after) ≡ true
any-covers_complete sha [] rest after = rw (beq_self (codes "x"), beq_self sha) refl
any-covers_complete sha (t ∷ before) rest after =
    ground (arith, any-covers_complete sha before rest after)

module _ (checks : Checks) where
  -- A signed event of kind 24242 that names the digest in an `x` tag, by an admitted key; every key
  -- is admitted when the list is empty.
  pub record IsAdmitted (s : Server) (ev : Event) (sha : Bytes) : Type 0 where
    pub kind : ev.kind ≡ 24242
    pub id : checks.check_id ev ≡ true
    pub signature : checks.check_signature ev ≡ true
    pub key : (s.allow ≡ []) ⊎ (member ev.pubkey s.allow ≡ true)
    pub covered : HasTag ev.tags (codes "x") sha

  is_empty_iff : (l : List Bytes) → is_empty l ≡ true → l ≡ []
  is_empty_iff [] h = refl
  is_empty_iff (x ∷ l) h = cc

  pub authorize_sound :
      (s : Server) (ev : Event) (sha : Bytes)
      → authorize checks s (some ev) sha ≡ none
      → IsAdmitted s ev sha
  unfolding authorize
  authorize_sound s ev sha h = record {
    kind = ground arith;
    id = ground arith;
    signature = ground arith;
    key = elim (Bool-cases (is_empty s.allow)) [
      | inl e ↦ inl (is_empty_iff s.allow e)
      | inr e ↦ inr (ground arith)
    ];
    covered = any-covers_sound sha ev.tags (ground arith);
  }

  pub authorize_complete :
      (s : Server) (ev : Event) (sha : Bytes)
      → IsAdmitted s ev sha
      → authorize checks s (some ev) sha ≡ none
  unfolding authorize
  authorize_complete s ev sha a =
      let c = a.covered in
      let covered : any (covers sha) ev.tags ≡ true =
        rw c.split (any-covers_complete sha c.before c.rest c.after) in
      let kind = a.kind in
      let id = a.id in
      let signature = a.signature in
      elim a.key [
        | inl open_upload ↦ ground (arith, ap is_empty open_upload)
        | inr listed ↦ ground arith
      ]

  -- An upload is authorised exactly when its event is signed, of kind 24242, by an admitted key,
  -- and names the digest in an `x` tag; without an event it never is.
  pub authorize_iff :
      (s : Server) (auth : Option Event) (sha : Bytes)
      → (authorize checks s auth sha ≡ none)
        ↔ ((ev : Event) × (auth ≡ some ev) × IsAdmitted s ev sha)
  unfolding authorize
  authorize_iff s none sha = (λ h. cc, λ h. cc (h.1))
  authorize_iff s (some ev) sha = (
    λ h. (ev, refl, authorize_sound s ev sha h),
    λ h.
        let (ev', same, a) = h in
        authorize_complete s ev sha (subst (λ e. IsAdmitted s e sha) (sym (some_inj same)) a),
  )
