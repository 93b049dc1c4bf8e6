-- ===== src/Tests/Loads.antt =====
-- A request to the gateway that serves the settings of the tests.
use nostrhost_nsite.Prelude.{◌≡◌, ◌⊎◌, refl, true, false, codes}
use nostrhost_nsite.Http.{Request}
use nostrhost_nsite.Server.Hosts.{is_apex}
use nostrhost_nsite.Server.Handlers.{reject, serve_apex}
use nostrhost_nsite.Gateway.Laws.{IsSoundWorld, IsSiteAnswer}
use nostrhost_nsite.Gateway.Loaded.{resolver, fetcher, server, answered, handle_public_loaded}
use nostrhost_nsite.Tests.Configs.{plain_net, custom_settings, custom_valid}
use nostrhost_nsite.Tests.Gateways.{
  surroundings, io, first_state, npub_ask, blog_pool_honest, first_world-IsSoundWorld,
}
use nostrhost_nsite.Tests.Reloads.{willing}
use nostrhost_nsite.Tests.Servers.{plain_unicode}

-- a visitor of the custom domain
abbrev blog_ask : Request
blog_ask = record npub_ask { host = codes "blog.net" }

handle_public_loaded_example :
    IsSoundWorld surroundings
      (resolver plain_net custom_settings willing surroundings)
      (fetcher plain_net custom_settings willing surroundings)
      (answered plain_net custom_settings willing surroundings io blog_ask first_state).0.world
    × ((answered plain_net custom_settings willing surroundings io blog_ask first_state
          ≡ reject first_state)
        ⊎ ((is_apex plain_unicode
                (server plain_net custom_settings willing surroundings)
                blog_ask.host
              ≡ true)
            × ((answered plain_net custom_settings willing surroundings io blog_ask first_state).1
                ≡ serve_apex))
        ⊎ IsSiteAnswer surroundings
            (resolver plain_net custom_settings willing surroundings)
            (fetcher plain_net custom_settings willing surroundings)
            plain_unicode
            (server plain_net custom_settings willing surroundings)
            blog_ask
            (answered plain_net custom_settings willing surroundings io blog_ask first_state).1)
handle_public_loaded_example =
    handle_public_loaded plain_net custom_settings willing surroundings false io blog_ask
      first_state custom_valid refl
      (blog_pool_honest (resolver plain_net custom_settings willing surroundings).relays)
      (first_world-IsSoundWorld (resolver plain_net custom_settings willing surroundings)
        (fetcher plain_net custom_settings willing surroundings))
