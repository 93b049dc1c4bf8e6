-- ===== src/Gateway/Loaded.antt =====
-- The gateway of cmd/nostrhost-nsite/main.go with settings that internal/config/config.go accepts.
use nostrhost_nsite.Prelude.{◌≡◌, ◌⊎◌, Bool, true, none}
use nostrhost_nsite.Http.{Request, Response}
use nostrhost_nsite.Blossom.Fetch.{Fetcher}
use nostrhost_nsite.Blossom.Dial.{new_fetcher}
use nostrhost_nsite.Resolve.{Resolver}
use nostrhost_nsite.Server.Hosts.{Server, is_apex, apply}
use nostrhost_nsite.Server.Handlers.{State, reject, serve_apex}
use nostrhost_nsite.Server.Serving.{handle_public}
use nostrhost_nsite.Config.Settings.{Settings, handlers_part}
use nostrhost_nsite.Config.Checks.{Net, validate}
use nostrhost_nsite.Config.Customs.{validate-IsCustom}
use nostrhost_nsite.Gateway.{World, Io, Outside, backends}
use nostrhost_nsite.Gateway.Keys.{HasKeys}
use nostrhost_nsite.Gateway.Laws.{IsHonest, IsSoundWorld, IsSiteAnswer, handle_public-IsAnswer}
use nostrhost_nsite.Gateway.Wiring.{resolver_of, fetch_options}
use nostrhost_nsite.Gateway.Wiring as Wiring

validate-HasKeys :
    (net : Net) (allow_loopback : Bool) (c : Settings)
    → validate net allow_loopback c ≡ none
    → HasKeys (apply net.unicode (handlers_part c))
validate-HasKeys net allow_loopback c valid name site h =
    (validate-IsCustom net allow_loopback c name site valid h).0

module _ (net : Net) (c : Settings) (wiring : Wiring.Io) (out : Outside) where
  -- The parts that the command makes of the settings.
  abbrev pub resolver : Resolver
  resolver = resolver_of wiring c

  abbrev pub fetcher : Fetcher
  fetcher = new_fetcher (fetch_options wiring c)

  abbrev pub server : Server
  server = apply net.unicode (handlers_part c)

  abbrev pub answered : Io → Request → State World → State World × Response
  answered io req st =
      handle_public net.unicode (backends out resolver fetcher io) out.nip19 server req st

  -- A request to the gateway that serves a valid configuration without bundle store is rejected, or
  -- answered with the page of the apex, or answered for an allowed site and a safe path: with the
  -- bounded 404, 304, or bytes whose digest a valid manifest of that very site gives for the path,
  -- or for "/404.html" with status 404. The caches are sound afterwards, if they were before, the
  -- relays of the configuration deliver only what matches their filter, and a cached file that is
  -- opened can be read to its end: the handler ignores the error of a read and serves what came.
  pub handle_public_loaded :
      (allow_loopback : Bool) (io : Io) (req : Request) (st : State World)
      → validate net allow_loopback c ≡ none
      → io.read_cut ≡ none
      → IsHonest out resolver fetcher
      → IsSoundWorld out resolver fetcher st.world
      → IsSoundWorld out resolver fetcher (answered io req st).0.world
        × ((answered io req st ≡ reject st)
            ⊎ ((is_apex net.unicode server req.host ≡ true) × ((answered io req st).1 ≡ serve_apex))
            ⊎ IsSiteAnswer out resolver fetcher net.unicode server req (answered io req st).1)
  handle_public_loaded allow_loopback io req st valid whole honest sound =
      handle_public-IsAnswer out resolver fetcher net.unicode server io req st whole honest
        (validate-HasKeys net allow_loopback c valid) sound
