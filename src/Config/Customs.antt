-- ===== src/Config/Customs.antt =====
-- What the custom domains of a valid configuration are, once internal/server/server.go has them.
use mathlib.Core.Path.{subst}
use nostrhost_nsite.Prelude.{
  ◌≡◌, refl, sym, ap, ◌∙◌, inl, inr, Bool, true, false, List, [], ◌∷◌, ◌++◌, Option, none, some,
  arith, if◌then◌else◌, length, All, Bytes, codes, beq, beq_iff, has_suffix, Bool-cases, some_inj,
  none_ne_some,
}
use nostrhost_nsite.Assoc.{lookup, insert, lookup-insert}
use nostrhost_nsite.Nip5a.Label.{Site}
use nostrhost_nsite.Server.Hosts.{CustomDomain, custom_site, add_custom, apply}
use nostrhost_nsite.Config.Settings.{Settings, handlers_part}
use nostrhost_nsite.Config.Checks.{
  Net, ConfigError, refuse, then_check, check_names, check_relays, check_local, check_npk,
  check_limits, custom_name, check_custom, check_customs, validate,
}

refuse-none :
    (bad : Bool) (e : ConfigError) (rest : Option ConfigError)
    → refuse bad e rest ≡ none
    → (bad ≡ false) × (rest ≡ none)
refuse-none true e rest h = absurd (none_ne_some (sym h))
refuse-none false e rest h = (refl, h)

then_check-none : (o rest : Option ConfigError) → then_check o rest ≡ none → rest ≡ none
then_check-none none rest h = h
then_check-none (some e) rest h = absurd (none_ne_some (sym h))

-- A custom site: its key has 64 characters, and its name is neither the domain nor below it.
abbrev pub IsCustom : Bytes → Bytes → Site → Type 0
IsCustom domain name site =
    (length site.hex_id ≡ 64)
    × (beq name domain ≡ false)
    × (has_suffix name (codes "." ++ domain) ≡ false)

module _ (net : Net) (domain : Bytes) where
  -- What a pass of the loop tells of a custom domain.
  abbrev IsChecked : CustomDomain → Type 0
  IsChecked cd = IsCustom domain (custom_name net cd) (custom_site cd)

  check_custom-IsChecked :
      (seen : List Bytes) (cd : CustomDomain) (rest : Option ConfigError)
      → check_custom net domain seen cd rest ≡ none
      → IsChecked cd × (rest ≡ none)
  check_custom-IsChecked seen cd rest h = ((ground arith, ground arith, ground arith), ground arith)

  check_customs-All :
      (cds : List CustomDomain) (seen : List Bytes)
      → check_customs net domain cds seen ≡ none
      → All IsChecked cds
  unfolding check_customs
  check_customs-All [] seen h = tt
  check_customs-All (cd ∷ cds) seen h =
      let (here, rest) = check_custom-IsChecked seen cd _ h in
      (here, check_customs-All cds (custom_name net cd ∷ seen) rest)

  AllCustom : List (Bytes × Site) → Type 0
  AllCustom custom =
      (name : Bytes) (site : Site) → lookup name custom ≡ some site → IsCustom domain name site

  insert-AllCustom :
      (k : Bytes) (v : Site) (custom : List (Bytes × Site))
      → IsCustom domain k v
      → AllCustom custom
      → AllCustom (insert k v custom)
  unfolding AllCustom
  insert-AllCustom k v custom here all name site h = elim (Bool-cases (beq k name)) [
    | inl y ↦
        let found =
          lookup-insert k name v custom
          ∙ ap (λ (b : Bool). if b then some v else lookup name custom) y in
        let same : v ≡ site = some_inj (sym found ∙ h) in
        subst (λ (s : Site). IsCustom domain name s) same
          (subst (λ (n : Bytes). IsCustom domain n v) ((beq_iff k name).0 y) here)
    | inr n ↦
        let found =
          lookup-insert k name v custom
          ∙ ap (λ (b : Bool). if b then some v else lookup name custom) n in
        all name site (sym found ∙ h)
  ]

  add_custom-AllCustom :
      (cds : List CustomDomain) (custom : List (Bytes × Site))
      → All IsChecked cds
      → AllCustom custom
      → AllCustom (add_custom net.unicode cds custom)
  unfolding add_custom
  add_custom-AllCustom [] custom checked all = all
  add_custom-AllCustom (cd ∷ cds) custom (here, checked) all =
      add_custom-AllCustom cds _ checked (insert-AllCustom _ _ custom here all)

  no_customs : AllCustom []
  unfolding AllCustom lookup
  no_customs name site h = absurd (none_ne_some h)

-- After a valid configuration is applied, every custom host name of the server is bound to a key of
-- 64 characters, and none is the gateway's domain or a name below it, so that none can take the place
-- of a site of the gateway.
pub validate-IsCustom :
    (net : Net) (allow_loopback : Bool) (c : Settings) (name : Bytes) (site : Site)
    → validate net allow_loopback c ≡ none
    → lookup name (apply net.unicode (handlers_part c)).custom ≡ some site
    → IsCustom c.domain name site
unfolding validate apply AllCustom
validate-IsCustom net allow_loopback c name site h =
    let h5 : check_customs net c.domain c.custom_domains [] ≡ none =
      then_check-none (check_limits net c) _ (
        then_check-none (check_npk net c.npk) _ (
          then_check-none (check_local net c.blossom.local) _ (
            then_check-none (check_relays net allow_loopback c) _
              (then_check-none (check_names net c) _ h)))) in
    add_custom-AllCustom net c.domain c.custom_domains []
      (check_customs-All net c.domain c.custom_domains [] h5) (no_customs net c.domain) name site
