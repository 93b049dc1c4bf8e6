-- ===== src/Server/Internal.antt =====
-- internal/server/server.go, lines 269 to 330: the handler of the loopback listener. `quote` is `%q`, and
-- the exposition of the metrics is what promhttp writes for the registry.
use nostrhost_nsite.Prelude.{
  ℕ, ◌+◌, Bool, true, false, ◌&&◌, List, [], ◌∷◌, ◌++◌, if◌then◌else◌, length, Bytes, codes, beq,
  member,
}
use nostrhost_nsite.Http.{Request, Response, not_found}
use nostrhost_nsite.Nip5a.Label.{Nip19}
use nostrhost_nsite.Blossom.Classify.{decimal}
use nostrhost_nsite.Server.Hosts.{Unicode, Server}
use nostrhost_nsite.Server.Handlers.{Backends}
use nostrhost_nsite.Server.Serving.{handle_tls_ask}

-- `len` of a map whose keys are the elements of the list.
unfoldable pub count_keys : List Bytes → ℕ
count_keys [] = 0
count_keys (k ∷ ks) = let rest = count_keys ks in if member k ks then rest else 1 + rest

abbrev bool_text : Bool → Bytes
bool_text true = codes "true"
bool_text false = codes "false"

-- What the answers are made of besides the server: whether the settings enable bundles, the bytes
-- in the cache, `%q`, and the exposition of the metrics.
pub record Status : Type 0 where
  pub npk_enabled : Bool
  pub cache_bytes : ℕ
  pub quote : Bytes → Bytes
  pub exposition : Response

module _ {W : Type 0} (unicode : Unicode) (nip19 : Nip19) (be : Backends W) (st : Status) where
  unfoldable pub handle_status : Server → Response
  handle_status s =
      let cache_bytes = if be.has_blobs then st.cache_bytes else 0 in
      record {
        status = 200;
        headers = (codes "Content-Type", codes "application/json") ∷ [];
        body =
            codes "{\"domain\":"
            ++ st.quote s.cfg.domain
            ++ codes ",\"mode\":"
            ++ st.quote s.cfg.mode
            ++ codes ",\"allowlisted_sites\":"
            ++ decimal (count_keys s.allow)
            ++ codes ",\"custom_domains\":"
            ++ decimal (length s.custom)
            ++ codes ",\"cache_bytes\":"
            ++ decimal cache_bytes
            ++ codes ",\"npk_enabled\":"
            ++ bool_text (st.npk_enabled && be.has_npk)
            ++ codes "}";
      }

  abbrev pub answer_ok : Response
  answer_ok = record {
    status = 200;
    headers = (codes "Content-Type", codes "text/plain") ∷ [];
    body = codes "ok\n";
  }

  unfoldable pub handle_internal : Server → Request → Response
  handle_internal s r =
      if beq r.path (codes "/healthz")
      then answer_ok
      else if beq r.path (codes "/internal/tls-ask")
      then handle_tls_ask unicode nip19 s r
      else if beq r.path (codes "/internal/status")
      then handle_status s
      else if beq r.path (codes "/internal/metrics")
      then st.exposition
      else not_found
