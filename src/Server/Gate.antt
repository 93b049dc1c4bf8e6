-- ===== src/Server/Gate.antt =====
-- Who gets past the handlers of internal/server/server.go: the decisions of `handlePublic`,
-- `handleTLSAsk` and `parseHost`.
use mathlib.Core.Path.{subst}
use nostrhost_nsite.Prelude.{
  ◌+◌, ◌-◌, ◌≤◌, ◌≡◌, refl, sym, ap, ◌↔◌, ◌⊎◌, inl, inr, true, false, ◌++◌, Option, none, some,
  arith, length, Bytes, codes, beq, has_prefix, map, member, Bool-cases, Option-cases, take,
  take-length_append, length-append, has_suffix-append, beq_iff, append_assoc, none_ne_some,
  some_inj,
}
use nostrhost_nsite.Http.{Request}
use nostrhost_nsite.Nip5a.Base36.{label_max_len}
use nostrhost_nsite.Nip5a.Label.{
  SiteType, root, named, snapshot, Nip19, Site, decode_label, canonical_site_url,
}
use nostrhost_nsite.Server.Hosts.{
  Unicode, Server, Config, ConfigSite, apply, host_name, is_apex, parse_host, allowlisted,
}
use nostrhost_nsite.Server.Paths.{normalise_path}
use nostrhost_nsite.Server.Paths.Safety.{IsSafe, normalise_path-IsSafe}
use nostrhost_nsite.Server.Handlers.{Backends, State, reject, serve_apex}
use nostrhost_nsite.Server.Serving.{
  answer_site, serve_site, handle_public, has_author, asked_host, handle_tls_ask,
}

allowlisted-unlisted :
    (unicode : Unicode) (cfg : Config) (t : SiteType) (pubkey : Bytes)
    → beq cfg.mode (codes "open") ≡ false
    → (has_author t ≡ false)
      ⊎ (member pubkey (map (λ (c : ConfigSite). c.pubkey) cfg.sites) ≡ false)
    → allowlisted (apply unicode cfg) t pubkey ≡ false
unfolding allowlisted apply
allowlisted-unlisted unicode cfg root pubkey hosted (inl e) = absurd (ground arith)
allowlisted-unlisted unicode cfg root pubkey hosted (inr m) = rw (hosted, m) refl
allowlisted-unlisted unicode cfg named pubkey hosted (inl e) = absurd (ground arith)
allowlisted-unlisted unicode cfg named pubkey hosted (inr m) = rw (hosted, m) refl
allowlisted-unlisted unicode cfg snapshot pubkey hosted u = rw hosted refl

module _ {W : Type 0} (unicode : Unicode) (be : Backends W) (nip19 : Nip19) where
  -- The request is served for a site: its host names an allowed site, and its path is safe.
  pub record IsServed (s : Server) (r : Request) (st : State W) : Type 0 where
    pub site : Site
    pub label : Bytes
    pub path : Bytes
    pub host_names : parse_host unicode nip19 s r.host ≡ some (label, site)
    pub is_allowed : allowlisted s site.site_type site.hex_id ≡ true
    pub is_public : has_prefix r.path (codes "/internal/") ≡ false
    pub path_is : normalise_path r.path ≡ some path
    pub safe : IsSafe path
    pub answer :
        handle_public unicode be nip19 s r st
        ≡ serve_site unicode be r site path
            (record st { metrics = record (st.metrics) { req_site = st.metrics.req_site + 1 } })

  -- A public request is rejected with only the counter of rejections changed, or is for the apex,
  -- or is served for an allowed site at a safe path.
  pub handle_public_gate :
      (s : Server) (r : Request) (st : State W)
      → (handle_public unicode be nip19 s r st ≡ reject st)
        ⊎ ((is_apex unicode s r.host ≡ true)
            × ((handle_public unicode be nip19 s r st).1 ≡ serve_apex))
        ⊎ IsServed s r st
  unfolding handle_public
  handle_public_gate s r st = elim (Bool-cases (has_prefix r.path (codes "/internal/"))) [
    | inl i ↦ inl (rw i refl)
    | inr not_internal ↦ elim (Bool-cases (is_apex unicode s r.host)) [
      | inl a ↦ inr (inl (a, rw (not_internal, a) refl))
      | inr not_apex ↦ elim (Option-cases (parse_host unicode nip19 s r.host)) [
        | inl e ↦ inl (rw (not_internal, not_apex, e) refl)
        | inr (ls, e) ↦ elim (Bool-cases (allowlisted s ls.1.site_type ls.1.hex_id)) [
          | inr forbidden ↦ inl (rw (not_internal, not_apex, e, forbidden) refl)
          | inl allowed ↦ elim (Option-cases (normalise_path r.path)) [
            | inl bad ↦ inl (rw (not_internal, not_apex, e, allowed, bad) refl)
            | inr (q, good) ↦ inr (
                inr (record {
                  site = ls.1;
                  label = ls.0;
                  path = q;
                  host_names = e;
                  is_allowed = allowed;
                  is_public = not_internal;
                  path_is = good;
                  safe = normalise_path-IsSafe r.path q good;
                  answer = rw (not_internal, not_apex, e, allowed, good) refl;
                }))
          ]
        ]
      ]
    ]
  ]

  -- In any mode but "open", once a configuration is loaded, a request for a site whose key the
  -- configuration does not list is rejected, and so is every request for a snapshot.
  pub handle_public_unlisted :
      (cfg : Config) (r : Request) (st : State W) (label : Bytes) (site : Site)
      → beq cfg.mode (codes "open") ≡ false
      → is_apex unicode (apply unicode cfg) r.host ≡ false
      → parse_host unicode nip19 (apply unicode cfg) r.host ≡ some (label, site)
      → (has_author site.site_type ≡ false)
        ⊎ (member site.hex_id (map (λ (c : ConfigSite). c.pubkey) cfg.sites) ≡ false)
      → handle_public unicode be nip19 (apply unicode cfg) r st ≡ reject st
  unfolding handle_public
  handle_public_unlisted cfg r st label site hosted not_apex e unlisted =
      let forbidden : allowlisted (apply unicode cfg) site.site_type site.hex_id ≡ false =
        allowlisted-unlisted unicode cfg site.site_type site.hex_id hosted unlisted in
      elim (Bool-cases (has_prefix r.path (codes "/internal/"))) [
        | inl i ↦ rw i refl
        | inr not_internal ↦ rw (not_internal, not_apex, e, forbidden) refl
      ]

answer_site_iff :
    (s : Server) (o : Option (Bytes × Site))
    → ((answer_site s o).status ≡ 200) ↔ (
        (label : Bytes) × (site : Site) × (o ≡ some (label, site))
        × (has_author site.site_type ≡ true)
        × (allowlisted s site.site_type site.hex_id ≡ true))
answer_site_iff s none =
    (λ h. absurd (omega arith), λ (label, site, e, _, _). absurd (none_ne_some e))
answer_site_iff s (some (label, site)) = (
  λ h. (label, site, refl, ground arith, ground arith),
  λ (label', site', e, author, allowed).
      let same : site' ≡ site = ap (λ (p : Bytes × Site). p.1) (sym (some_inj e)) in
      let author' = subst (λ (x : Site). has_author x.site_type ≡ true) same author in
      let allowed' = subst (λ (x : Site). allowlisted s x.site_type x.hex_id ≡ true) same allowed in
      ground arith,
)

-- Caddy may ask for a certificate exactly for the apex and for the allowed root and named sites.
pub handle_tls_ask_iff :
    (unicode : Unicode) (nip19 : Nip19) (s : Server) (r : Request)
    → ((handle_tls_ask unicode nip19 s r).status ≡ 200) ↔ (
        (is_apex unicode s (asked_host r) ≡ true)
        ⊎ ((label : Bytes) × (site : Site) × (parse_host unicode nip19 s (asked_host r)
              ≡ some (label, site))
            × (has_author site.site_type ≡ true)
            × (allowlisted s site.site_type site.hex_id ≡ true)))
unfolding handle_tls_ask
handle_tls_ask_iff unicode nip19 s r = elim (Bool-cases (is_apex unicode s (asked_host r))) [
  | inl a ↦ (λ h. inl a, λ h. rw a refl)
  | inr n ↦
      let answer = answer_site_iff s (parse_host unicode nip19 s (asked_host r)) in
      (
        λ h. inr (answer.0 (rw n at h)),
        λ h. elim h [ inl a ↦ absurd (ground arith) | inr ok ↦ rw n (answer.1 ok) ],
      )
]

-- A host made of a label and the domain is the site of the label.
pub parse_host-canonical_site_url :
    (unicode : Unicode) (nip19 : Nip19) (s : Server) (label : Bytes) (site : Site)
    → decode_label nip19 label ≡ some site
    → 1 ≤ length label
    → length label ≤ label_max_len
    → host_name unicode (canonical_site_url label s.cfg.domain)
      ≡ canonical_site_url label s.cfg.domain
    → parse_host unicode nip19 s (canonical_site_url label s.cfg.domain) ≡ some (label, site)
unfolding parse_host canonical_site_url
parse_host-canonical_site_url unicode nip19 s label site e short long same =
    let suffix = codes "." ++ s.cfg.domain in
    let host = label ++ suffix in
    let whole : label ++ codes "." ++ s.cfg.domain ≡ host =
      append_assoc label (codes ".") s.cfg.domain in
    let len = length-append label suffix in
    let domain_len = length-append (codes ".") s.cfg.domain in
    let not_apex : beq host s.cfg.domain ≡ false = elim (Bool-cases (beq host s.cfg.domain)) [
      | inl y ↦ absurd (omega (arith, ap length ((beq_iff host s.cfg.domain).0 y), len))
      | inr n ↦ n
    ] in
    let front : take (length host - length suffix) host ≡ label =
      take-length_append _ label suffix (omega (arith, len)) in
    rw (same, whole, not_apex, has_suffix-append label suffix, front, e) (ground arith)
