-- ===== src/Gateway/Wiring/Reloads.antt =====
-- What holds of cmd/nostrhost-nsite/main.go after any number of SIGHUPs.
use mathlib.Core.Path.{subst}
use nostrhost_nsite.Prelude.{
  ◌≡◌, ◌*◌, ◌%◌, ◌^◌, refl, sym, ap, ◌∙◌, inl, inr, Bool, true, false, not, ◌&&◌, ◌++◌, Option,
  none, some, arith, if◌then◌else◌, Bytes, Bool-cases,
}
use nostrhost_nsite.Blossomsrv.Store.{new_server}
use nostrhost_nsite.Blossomsrv.Store as Store
use nostrhost_nsite.Server.Hosts.{Unicode, apply, reload}
use nostrhost_nsite.Config.Settings.{Settings, handlers_part}
use nostrhost_nsite.Blossom.Dial.{Options}
use nostrhost_nsite.Gateway.Wiring.Sites.{Serves, apply-Serves}
use nostrhost_nsite.Gateway.Wiring.{
  Running, Process, Outcome, exits, goes_on, Io, local_blossom_addrs, apply_backends, swept,
  start_blossom, reload_blossom, with_local, then_start, then_reload, start, hup,
}

-- The process that the command has come to, with the settings that it loaded last.
pub data Reaches (unicode : Unicode) : Settings → Process → Type 0 where
  started :
      (io : Io) (c : Settings) (p : Process)
      → io.unicode ≡ unicode
      → start io c ≡ goes_on p
      → Reaches unicode c p
  ignored :
      (io : Io) (c : Settings) (p p' : Process)
      → Reaches unicode c p
      → hup io none p ≡ goes_on p'
      → Reaches unicode c p'
  reloaded :
      (io : Io) (c c' : Settings) (p p' : Process)
      → io.unicode ≡ unicode
      → Reaches unicode c p
      → hup io (some c') p ≡ goes_on p'
      → Reaches unicode c' p'

abbrev pub is_running : Option Running → Bool
is_running none = false
is_running (some r) = true

-- The fetcher's options are those of the settings, in nanoseconds and bytes.
pub record IsFetching (c : Settings) (o : Options) : Type 0 where
  pub http : o.allow_http ≡ c.blossom.allow_http
  pub addrs : o.allow_loopback_addrs ≡ local_blossom_addrs c
  pub bytes : o.max_bytes ≡ c.limits.max_blob_bytes
  pub timeout : o.timeout ≡ (c.limits.fetch_timeout_seconds * 1000000000) % 2 ^ 64
  pub redirects : o.max_redirects ≡ c.limits.max_redirects

-- Domain and mode, sites, custom domains, relays and lifetimes, limits and stores are those of the
-- settings.
pub record IsConfigured (unicode : Unicode) (c : Settings) (p : Process) : Type 0 where
  pub config : p.server.cfg ≡ handlers_part c
  pub serves : Serves unicode (handlers_part c) p.server.allow p.server.custom
  pub relays : p.resolver.relays ≡ c.relays.lookup ++ c.relays.extra
  pub paths : p.resolver.max_paths ≡ c.limits.max_paths_per_manifest
  pub fetching : IsFetching c p.options
  pub ttl : p.manifest_ttl ≡ (c.relays.manifest_ttl_seconds * 1000000000) % 2 ^ 64
  pub neg_ttl : p.negative_ttl ≡ (c.relays.negative_ttl_seconds * 1000000000) % 2 ^ 64
  pub quota : p.cache_quota ≡ c.limits.cache_quota_bytes
  pub bundles : p.has_npk ≡ c.npk.enabled

-- And the local server runs if it is enabled.
pub record IsWired (unicode : Unicode) (c : Settings) (p : Process) : Type 0 where
  pub configured : IsConfigured unicode c p
  pub runs : is_running p.local ≡ c.blossom.local.enabled

goes_on_inj : {A : Type 0} {a b : A} → goes_on a ≡ goes_on b → a ≡ b
goes_on_inj h = ground arith

exits_ne_goes_on : {A : Type 0} {a : A} → exits ≡ goes_on a → ⊥
exits_ne_goes_on h = ground arith

apply_backends-IsConfigured :
    (unicode : Unicode) (io : Io) (c : Settings) (p p' : Process)
    → p.server.cfg ≡ handlers_part c
    → Serves unicode (handlers_part c) p.server.allow p.server.custom
    → apply_backends io c p ≡ goes_on p'
    → IsConfigured unicode c p'
unfolding apply_backends
apply_backends-IsConfigured unicode io c p p' cfg sites h = elim (Bool-cases io.caches_ok) [
  | inr n ↦ absurd (exits_ne_goes_on (rw n at h))
  | inl y ↦ elim (Bool-cases (c.npk.enabled && not io.bundles_ok)) [
    | inl bad ↦ absurd (exits_ne_goes_on (rw (y, bad) at h))
    | inr ok ↦ subst (IsConfigured unicode c) (goes_on_inj (rw (y, ok) at h)) (record {
      config = cfg;
      serves = sites;
      relays = refl;
      paths = refl;
      fetching = record {
        http = refl;
        addrs = refl;
        bytes = refl;
        timeout = refl;
        redirects = refl;
      };
      ttl = refl;
      neg_ttl = refl;
      quota = refl;
      bundles = refl;
    })
  ]
]

swept-is_running :
    (io : Io) (listen : Bytes) (o : Option Store.Server) (l : Option Running)
    → swept io listen o ≡ goes_on l
    → is_running l ≡ true
swept-is_running io listen none l h = absurd (exits_ne_goes_on h)
swept-is_running io listen (some s) l h = ap is_running (sym (goes_on_inj h))

start_blossom-is_running :
    (io : Io) (c : Settings) (l : Option Running)
    → start_blossom io c ≡ goes_on l
    → is_running l ≡ c.blossom.local.enabled
unfolding start_blossom
start_blossom-is_running io c l h = elim (Bool-cases c.blossom.local.enabled) [
  | inr off ↦ ap is_running (sym (goes_on_inj (rw off at h))) ∙ sym off
  | inl on ↦ elim (Bool-cases io.listen_ok) [
    | inr bad ↦ absurd (exits_ne_goes_on (rw (on, bad) at h))
    | inl ok ↦ swept-is_running io c.blossom.local.listen _ l (rw (on, ok) at h) ∙ sym on
  ]
]

if_true : {A : Type 0} {x z : A} (b : Bool) (y : A) → b ≡ true → (if b then x else y) ≡ z → x ≡ z
if_true true y on h = h
if_true false y on h = absurd (ground arith)

reload_blossom-is_running :
    (io : Io) (cur : Option Running) (c : Settings) (l : Option Running)
    → reload_blossom io cur c ≡ goes_on l
    → is_running l ≡ c.blossom.local.enabled
unfolding reload_blossom
reload_blossom-is_running io none c l h = elim (Bool-cases c.blossom.local.enabled) [
  | inl on ↦ start_blossom-is_running io c l (if_true c.blossom.local.enabled (goes_on none) on h)
  | inr off ↦ ap is_running (sym (goes_on_inj (rw off at h))) ∙ sym off
]
reload_blossom-is_running io (some cur) c l h = elim (Bool-cases c.blossom.local.enabled) [
  | inl on ↦ ap is_running (sym (goes_on_inj (rw on at h))) ∙ sym on
  | inr off ↦ ap is_running (sym (goes_on_inj (rw off at h))) ∙ sym off
]

module _ (unicode : Unicode) where
  with_local-IsWired :
      (c : Settings) (p p' : Process) (o : Outcome (Option Running))
      → IsConfigured unicode c p
      → ((l : Option Running) → o ≡ goes_on l → is_running l ≡ c.blossom.local.enabled)
      → with_local p o ≡ goes_on p'
      → IsWired unicode c p'
  with_local-IsWired c p p' exits v run h = absurd (exits_ne_goes_on h)
  with_local-IsWired c p p' (goes_on l) v run h =
      subst (IsWired unicode c) (goes_on_inj h) (record {
        configured = record {
          config = v.config;
          serves = v.serves;
          relays = v.relays;
          paths = v.paths;
          fetching = v.fetching;
          ttl = v.ttl;
          neg_ttl = v.neg_ttl;
          quota = v.quota;
          bundles = v.bundles;
        };
        runs = run l refl;
      })

  then_start-IsWired :
      (io : Io) (c : Settings) (p' : Process) (o : Outcome Process)
      → ((p : Process) → o ≡ goes_on p → IsConfigured unicode c p)
      → then_start io c o ≡ goes_on p'
      → IsWired unicode c p'
  then_start-IsWired io c p' exits v h = absurd (exits_ne_goes_on h)
  then_start-IsWired io c p' (goes_on p) v h =
      with_local-IsWired c p p' (start_blossom io c) (v p refl) (start_blossom-is_running io c) h

  then_reload-IsWired :
      (io : Io) (c : Settings) (p' : Process) (o : Outcome Process)
      → ((p : Process) → o ≡ goes_on p → IsConfigured unicode c p)
      → then_reload io c o ≡ goes_on p'
      → IsWired unicode c p'
  then_reload-IsWired io c p' exits v h = absurd (exits_ne_goes_on h)
  then_reload-IsWired io c p' (goes_on p) v h =
      with_local-IsWired c p p' (reload_blossom io p.local c) (v p refl)
        (reload_blossom-is_running io p.local c) h

  Serves-same :
      (io : Io) (c : Settings)
      → io.unicode ≡ unicode
      → Serves unicode
          (handlers_part c)
          (apply io.unicode (handlers_part c)).allow
          (apply io.unicode (handlers_part c)).custom
  Serves-same io c same =
      subst
        (λ (u : Unicode).
          Serves unicode (handlers_part c) (apply u (handlers_part c)).allow
            (apply u (handlers_part c)).custom)
        (sym same) (apply-Serves unicode (handlers_part c))

  start-IsWired :
      (io : Io) (c : Settings) (p : Process)
      → io.unicode ≡ unicode
      → start io c ≡ goes_on p
      → IsWired unicode c p
  unfolding start apply
  start-IsWired io c p same h =
      then_start-IsWired io c p _
        (λ q. apply_backends-IsConfigured unicode io c _ q refl (Serves-same io c same)) h

  hup-IsWired :
      (io : Io) (c : Settings) (p p' : Process)
      → io.unicode ≡ unicode
      → hup io (some c) p ≡ goes_on p'
      → IsWired unicode c p'
  unfolding hup reload apply
  hup-IsWired io c p p' same h =
      then_reload-IsWired io c p' _
        (λ q. apply_backends-IsConfigured unicode io c _ q refl (Serves-same io c same)) h

  -- However often the command gets SIGHUP, and whatever loads fail in between, it serves the settings
  -- that it loaded last, as long as it does not exit: it knows the keys of their sites and no other,
  -- each custom domain by its last entry, their relays, lifetimes, limits and quota and the address
  -- that the fetcher may reach; there is a bundle store exactly if they enable it, and the local
  -- server runs exactly if they enable it.
  pub Reaches-IsWired : (c : Settings) (p : Process) → Reaches unicode c p → IsWired unicode c p
  unfolding hup
  Reaches-IsWired _ _ (started io c p same h) = start-IsWired io c p same h
  Reaches-IsWired _ _ (ignored io c p p' r h) =
      subst (IsWired unicode c) (goes_on_inj h) (Reaches-IsWired c p r)
  Reaches-IsWired _ _ (reloaded io c c' p p' same r h) = hup-IsWired io c' p p' same h
