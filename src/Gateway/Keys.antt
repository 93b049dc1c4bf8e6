-- ===== src/Gateway/Keys.antt =====
-- The key that a host name stands for in internal/server/server.go and internal/nip5a/label.go has 64
-- characters, the length of the keys that the resolver is asked for.
use nostrhost_nsite.Prelude.{
  ◌-◌, ◌≡◌, ap, inl, inr, Bool, true, false, not, ◌||◌, ◌++◌, Option, none, some, ◌==◌, arith, ltb,
  if◌then◌else◌, length, take, Bytes, codes, beq, has_suffix, some_inj, none_ne_some, Option-cases,
}
use nostrhost_nsite.Hex.{decode_string, decode_bytes}
use nostrhost_nsite.Assoc.{lookup}
use nostrhost_nsite.Nip5a.Base36.{label_max_len, base36_encode32}
use nostrhost_nsite.Nip5a.Label.{
  SiteType, root, named, snapshot, Nip19, Site, named_label, snapshot_label, decode_label,
}
use nostrhost_nsite.Nip5a.Label.Codec.{LabelOf, decode_label_sound}
use nostrhost_nsite.Server.Hosts.{Unicode, Server, host_name, labelled, parse_host}

encode32-length : (h t : Bytes) → base36_encode32 h ≡ some t → length h ≡ 64
unfolding base36_encode32
encode32-length h t e = elim (Option-cases (decode_string h)) [
  | inl bad ↦ absurd (ground arith)
  | inr (b, good) ↦
      let len : length b ≡ 32 = ground arith in omega (arith, (decode_bytes h b good).0)
]

LabelOf-length :
    (nip19 : Nip19) (label : Bytes) (t : SiteType) (pk d : Bytes)
    → LabelOf nip19 label t pk d
    → length pk ≡ 64
unfolding named_label snapshot_label
LabelOf-length nip19 label root pk d (_, len, _) = len
LabelOf-length nip19 label named pk d (e, _) = elim (Option-cases (base36_encode32 pk)) [
  | inl bad ↦ absurd (ground arith)
  | inr (t, good) ↦ encode32-length pk t good
]
LabelOf-length nip19 label snapshot pk d (e, _) = elim (Option-cases (base36_encode32 pk)) [
  | inl bad ↦ absurd (ground arith)
  | inr (t, good) ↦ encode32-length pk t good
]

-- Every custom domain is bound to a key of 64 characters.
abbrev pub HasKeys : Server → Type 0
HasKeys s =
    (host : Bytes) (site : Site) → lookup host s.custom ≡ some site → length site.hex_id ≡ 64

labelled-some :
    (unicode : Unicode) (label label' : Bytes) (o : Option Site) (site : Site)
    → labelled unicode label o ≡ some (label', site)
    → o ≡ some site
labelled-some unicode label label' none site h = absurd (none_ne_some h)
labelled-some unicode label label' (some x) site h =
    ap some (ap (λ (p : Bytes × Site). p.1) (some_inj h))

labelled-length :
    (unicode : Unicode) (nip19 : Nip19) (s : Server) (name front label : Bytes) (site : Site)
    (apex under bad : Bool)
    → HasKeys s
    → (if apex
        then none
        else if not under
        then labelled unicode name (lookup name s.custom)
        else if bad
        then none
        else labelled unicode front (decode_label nip19 front))
      ≡ some (label, site)
    → length site.hex_id ≡ 64
labelled-length unicode nip19 s name front label site true under bad keys e =
    absurd (none_ne_some e)
labelled-length unicode nip19 s name front label site false false bad keys e =
    keys name site (labelled-some unicode name label _ site e)
labelled-length unicode nip19 s name front label site false true true keys e =
    absurd (none_ne_some e)
labelled-length unicode nip19 s name front label site false true false keys e =
    LabelOf-length nip19 front _ _ _
      (decode_label_sound nip19 front site (labelled-some unicode front label _ site e))

-- The key of a site that a host name stands for has 64 characters.
pub parse_host-length :
    (unicode : Unicode) (nip19 : Nip19) (s : Server) (host label : Bytes) (site : Site)
    → HasKeys s
    → parse_host unicode nip19 s host ≡ some (label, site)
    → length site.hex_id ≡ 64
unfolding parse_host
parse_host-length unicode nip19 s host label site keys h =
    let name = host_name unicode host in
    let suffix = codes "." ++ s.cfg.domain in
    let front = take (length name - length suffix) name in
    labelled-length unicode nip19 s name front label site (beq name s.cfg.domain)
      (has_suffix name suffix) (length front == 0 || ltb label_max_len (length front)) keys h
