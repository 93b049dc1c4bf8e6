-- ===== src/Lib.antt =====
-- nostrhost-nsite is a gateway that serves static sites published on nostr (NIP-5A). A public handler
-- maps a host name to a site, finds its manifest on relays, fetches the blobs that the manifest names
-- from Blossom servers, verifies and caches them; an optional local Blossom server stores uploads.
--
-- Modules, and the code that they model:
--   Nip5a.Base36, Nip5a.Label: internal/nip5a/label.go. `base36_encode32` is Base36Encode32,
--     `decode_label` is DecodeLabel, and so on. Digits and Hex are the arithmetic of math/big and
--     encoding/hex as called there.
--   Nip5a.Manifest, Nip5a.Validate: internal/nip5a/manifest.go, the rules of a manifest event and
--     Validate. An error is its text; Validate.Rules states the rules one by one.
--   Server.Hosts, Server.Paths, Server.Handlers, Server.Serving: internal/server/server.go, from the
--     host and the path of a request to the site, the blob and the response. What the handlers call
--     of the resolver, the fetcher, the cache and the bundle store is the record `Backends`, over the
--     state that these keep; the metrics are part of the state.
--     Server.Internal is the handler of the loopback listener;
--     Server.Composed and Server.Available are about the handlers over any back ends that keep laws.
--   Npk.Release: internal/npk, NewestRelease and the catalogue's Newest, over what relays deliver.
--   Npk.Bundle, Filepath: internal/npk/npk.go, the store of unpacked bundles over a directory tree.
--   Resolve: internal/resolve/resolve.go. The manifest cache is its state.
--   Gateway: cmd/nostrhost-nsite/main.go, applyBackends: the resolver, the caches and the fetcher as
--     the `Backends` of the handlers. Gateway.Wiring: the start, SIGHUP and the local Blossom
--     server; Gateway.Loaded: the gateway with settings that Validate accepts.
--   Config: internal/config/config.go.
--   Metrics: internal/metrics/metrics.go.
--   Cache.BlobStore, Cache.ManifestCache: internal/cache/cache.go. A method is one function of the
--     state, as it runs under the mutex.
--   Blossom.Fetch, Blossom.Classify, Blossom.Dial, Netaddr: internal/blossom/blob.go: Fetch,
--     ClassifyFetchError, and what may be dialled.
--   Blossomsrv.Store, Blossomsrv.Handlers: internal/blossomsrv/server.go.
--   Prelude, Assoc, Int64, Base64, Nostr, Http: Go's strings, maps, int64 and the packages used.
--   Tests: the theorems at concrete inputs.
--
-- A string is the list of its bytes. An int64 is its bit pattern below 2 ^ 64, with wrap-around. A
-- map is an association list, or the list of its keys. What the file system, the clock and streams
-- answer, and the order in which a map is ranged over, are arguments; sha256, package nip19, the
-- checks of go-nostr, what its relay pool delivers and the tables of Unicode are parameters.
--
-- Fuel: `shortest` writes the digits of n with fuel n, which suffices since division by the base makes n
-- smaller. Every other loop is structural recursion on the list that it goes over.
--
-- Not modelled: the collectors of client_golang; reading TOML and JSON files, url.Parse, net.ParseIP and the
-- client of net/http, which are parameters; flags, logging, and the listeners of net/http.
pub mod Prelude
pub mod Digits
pub mod Hex
pub mod Assoc
pub mod Int64
pub mod Nip5a
pub mod Cache
pub mod Nostr
pub mod Http
pub mod Base64
pub mod Blossomsrv
pub mod Server
pub mod Blossom
pub mod Npk
pub mod Filepath
pub mod Netaddr
pub mod Metrics
pub mod Config
pub mod Resolve
pub mod Gateway
mod Tests
