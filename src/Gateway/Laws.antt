-- ===== src/Gateway/Laws.antt =====
-- The gateway of cmd/nostrhost-nsite/main.go, all parts together: its backends keep the laws of
-- Server/Composed, so that a public request is answered as a site's manifest says.
use mathlib.Core.Path.{subst}
use nostrhost_nsite.Prelude.{
  ℕ, ◌≡◌, refl, sym, ap, ◌⊎◌, inl, inr, Bool, true, false, [], Option, none, some, ◌∙◌, arith, All,
  Bytes, codes, has_prefix, Bool-cases, Option-cases, none_ne_some, some_inj,
}
use nostrhost_nsite.Hex.{encode_to_string}
use nostrhost_nsite.Assoc.{lookup}
use nostrhost_nsite.Http.{Request, Response}
use nostrhost_nsite.Nostr.{Event, Filter}
use nostrhost_nsite.Nip5a.Label.{SiteType, Site}
use nostrhost_nsite.Cache.BlobStore.{BlobStore, open_blob}
use nostrhost_nsite.Cache.BlobStore.Integrity.{IsAddressed, put-IsAddressed}
use nostrhost_nsite.Cache.BlobStore.Recent.{open_blob-opened}
use nostrhost_nsite.Blossom.Fetch.{Fetcher, Fetched, err, ok, fetch, fetch_iff}
use nostrhost_nsite.Npk.Release.Newest.{present}
use nostrhost_nsite.Resolve.{Resolver, Found, failed, absent, found, is_valid_manifest}
use nostrhost_nsite.Resolve.Keys.{matches, IsOf}
use nostrhost_nsite.Resolve.Sound.{IsSound, manifest-IsSound, manifest-found}
use nostrhost_nsite.Server.Handlers.{fetched, Backends, State, reject, serve_apex}
use nostrhost_nsite.Server.Hosts.{Unicode, Server, is_apex, parse_host, allowlisted}
use nostrhost_nsite.Server.Paths.Safety.{IsSafe}
use nostrhost_nsite.Server.Serving.{handle_public}
use nostrhost_nsite.Server.Gate.{handle_public_gate}
use nostrhost_nsite.Server.Composed.{Laws, IsAnswer, serve_site-IsKept}
use nostrhost_nsite.Gateway.{World, Io, Outside, or_none, read_all, fetch_result, backends}
use nostrhost_nsite.Gateway.Keys.{HasKeys, parse_host-length}

-- Opening changes no file, whatever comes out.
open_blob-IsAddressed :
    (sha256 : Bytes → Bytes) (open_ok : Bool) (now : ℕ) (sha : Bytes) (s : BlobStore)
    → IsAddressed sha256 s
    → IsAddressed sha256 (open_blob open_ok now sha s).0
unfolding open_blob
open_blob-IsAddressed sha256 true now sha s v = elim (Option-cases (lookup sha s.disk)) [
  | inl e ↦ rw e v
  | inr (body, e) ↦ rw e (record { disk_once = v.disk_once; named_by_digest = v.named_by_digest })
]
open_blob-IsAddressed sha256 false now sha s v = v

or_none-some : {A : Type 0} (res : Found A) (a : A) → or_none res ≡ some a → res ≡ found a
or_none-some failed a h = absurd (none_ne_some h)
or_none-some absent a h = absurd (none_ne_some h)
or_none-some (found x) a h = ap found (some_inj h)

read_all-whole : (o : Option Bytes) → read_all none o ≡ o
read_all-whole none = refl
read_all-whole (some body) = refl

module _ (out : Outside) (r : Resolver) (f : Fetcher) where
  abbrev valid_here : Event → Bool
  valid_here = is_valid_manifest out.sha256 out.checks out.nip19 out.pool r

  -- The relays deliver only events that match the filter they are given.
  abbrev pub IsHonest : Type 0
  IsHonest = (flt : Filter) → All (λ e. matches flt e ≡ true) (present (out.pool r.relays flt))

  -- The manifest cache holds what its keys stand for, the blob cache what its names say.
  pub record IsSoundWorld (w : World) : Type 0 where
    pub manifests : IsSound valid_here w.mcache
    pub blobs : IsAddressed out.sha256 w.blobs

  -- A valid manifest of the site.
  abbrev pub IsManifestOf : SiteType → Bytes → Bytes → Event → Type 0
  IsManifestOf t pubkey d ev = (valid_here ev ≡ true) × IsOf t pubkey d [] ev

  fetch_result_verified :
      (server sha body : Bytes) (res : Fetched)
      → fetch out.sha256 f out.client server sha ≡ res
      → fetch_result out r f server sha res ≡ fetched body
      → encode_to_string (out.sha256 body) ≡ sha
  fetch_result_verified server sha body (err e) same h = absurd (ground arith)
  fetch_result_verified server sha body (ok b) same h =
      let (_, _, _, _, digest) = (fetch_iff out.sha256 f out.client server sha b).0 same in
      let is_body : b ≡ body = ground arith in
      subst (λ x. encode_to_string (out.sha256 x) ≡ sha) is_body digest

  open_blob-digest :
      (io : Io) (sha body : Bytes) (w : World)
      → io.read_cut ≡ none
      → IsAddressed out.sha256 w.blobs
      → read_all io.read_cut (open_blob io.open_ok io.opened_at sha w.blobs).1 ≡ some body
      → encode_to_string (out.sha256 body) ≡ sha
  open_blob-digest io sha body w whole v h =
      let opened = open_blob io.open_ok io.opened_at sha w.blobs in
      let all : opened.1 ≡ some body = sym (read_all-whole opened.1) ∙ rw whole at h in
      v.named_by_digest sha body (open_blob-opened io.open_ok io.opened_at sha body w.blobs all).1

  backends-Laws :
      (io : Io)
      → io.read_cut ≡ none
      → IsHonest
      → Laws out.sha256 (backends out r f io) IsSoundWorld IsManifestOf
  unfolding backends
  backends-Laws io whole honest = record {
    fetch_keeps = λ server sha w v. v;
    fetch_verifies = λ server sha w body h. fetch_result_verified server sha body _ refl h;
    open_keeps = λ sha w v. record {
      manifests = v.manifests;
      blobs = open_blob-IsAddressed out.sha256 io.open_ok io.opened_at sha w.blobs v.blobs;
    };
    open_verifies = λ sha w body v h. open_blob-digest io sha body w whole v.blobs h;
    put_keeps = λ sha body w v. record {
      manifests = v.manifests;
      blobs = put-IsAddressed out.sha256 (record (io.put) { body = some body }) sha w.blobs v.blobs;
    };
    servers_keeps = λ pubkey w v. v;
    manifest_keeps = λ t pubkey d w len v. record {
      manifests =
          manifest-IsSound out.sha256 out.checks out.nip19 out.pool r io.clock t pubkey d []
            w.mcache len honest v.manifests;
      blobs = v.blobs;
    };
    manifest_is = λ t pubkey d w ev len v h.
        manifest-found out.sha256 out.checks out.nip19 out.pool r io.clock t pubkey d [] w.mcache ev
          len honest v.manifests (or_none-some _ ev h);
  }

  no_bundles : (io : Io) → (backends out r f io).has_npk ≡ false
  unfolding backends
  no_bundles io = refl

  handle_public_apex :
      (unicode : Unicode) (be : Backends World) (s : Server) (req : Request) (st : State World)
      → is_apex unicode s req.host ≡ true
      → (handle_public unicode be out.nip19 s req st).0.world ≡ st.world
  unfolding handle_public
  handle_public_apex unicode be s req st apex =
      elim (Bool-cases (has_prefix req.path (codes "/internal/"))) [
        | inl i ↦ rw i refl
        | inr n ↦ rw (n, apex) refl
      ]

  -- The answer to a public request that is served: for an allowed site, at a safe path.
  pub record IsSiteAnswer (unicode : Unicode) (s : Server) (req : Request) (res : Response)
      : Type 0 where
    pub site : Site
    pub label : Bytes
    pub path : Bytes
    pub host_names : parse_host unicode out.nip19 s req.host ≡ some (label, site)
    pub is_allowed : allowlisted s site.site_type site.hex_id ≡ true
    pub safe : IsSafe path
    pub answer : IsAnswer out.sha256 (IsManifestOf site.site_type site.hex_id site.d) path res

  -- A request to the gateway without bundle store is rejected, or answered with the page of the
  -- apex, or answered for an allowed site and a safe path: with the bounded 404, 304, or bytes whose
  -- digest a valid manifest of that very site gives for the path, or for "/404.html" with status 404.
  -- The caches are sound afterwards. The relays deliver only what matches their filter, and custom
  -- domains are bound to keys of 64 characters.
  pub handle_public-IsAnswer :
      (unicode : Unicode) (s : Server) (io : Io) (req : Request) (st : State World)
      → io.read_cut ≡ none
      → IsHonest
      → HasKeys s
      → IsSoundWorld st.world
      → IsSoundWorld (handle_public unicode (backends out r f io) out.nip19 s req st).0.world
        × ((handle_public unicode (backends out r f io) out.nip19 s req st ≡ reject st)
            ⊎ ((is_apex unicode s req.host ≡ true)
                × ((handle_public unicode (backends out r f io) out.nip19 s req st).1 ≡ serve_apex))
            ⊎ IsSiteAnswer unicode s req
                (handle_public unicode (backends out r f io) out.nip19 s req st).1)
  handle_public-IsAnswer unicode s io req st whole honest keys v =
      let be = backends out r f io in
      elim (handle_public_gate unicode be out.nip19 s req st) [
        | inl rejected ↦ (
          subst (λ (res : State World × Response). IsSoundWorld res.0.world) (sym rejected) v,
          inl rejected,
        )
        | inr (inl (apex, page)) ↦ (
          subst IsSoundWorld (sym (handle_public_apex unicode be s req st apex)) v,
          inr (inl (apex, page)),
        )
        | inr (inr served) ↦
            let len =
              parse_host-length unicode out.nip19 s req.host served.label served.site keys
                served.host_names in
            let (kept, answer) =
              serve_site-IsKept out.sha256 unicode be IsSoundWorld IsManifestOf
                (backends-Laws io whole honest) req served.site served.path _ (no_bundles io) len
                v in
            (
              subst (λ (res : State World × Response). IsSoundWorld res.0.world) (sym served.answer)
                  kept,
              inr (
                  inr (record {
                    site = served.site;
                    label = served.label;
                    path = served.path;
                    host_names = served.host_names;
                    is_allowed = served.is_allowed;
                    safe = served.safe;
                    answer =
                        subst
                          (λ (res : State World × Response).
                            IsAnswer out.sha256
                              (IsManifestOf served.site.site_type served.site.hex_id served.site.d)
                              served.path res.1)
                          (sym served.answer) answer;
                  })),
            )
      ]
