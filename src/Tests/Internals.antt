-- ===== src/Tests/Internals.antt =====
-- Tests of the loopback handler of internal/server/server.go and of internal/metrics/metrics.go.
use nostrhost_nsite.Prelude.{ℕ, ◌+◌, ◌≡◌, refl, true, [], ◌∷◌, ◌++◌, none, some, codes, beq, member}
use nostrhost_nsite.Assoc.{lookup, insert}
use nostrhost_nsite.Digits.{shortest}
use nostrhost_nsite.Http.{not_found}
use nostrhost_nsite.Blossom.Classify.{decimal}
use nostrhost_nsite.Server.Internal.{Status, handle_internal, handle_status, count_keys}
use nostrhost_nsite.Metrics.{Collectors, Family, family, with_values, note_value}
use nostrhost_nsite.Tests.Servers.{plain_unicode, one_key, gateway, ask, toy_backends}

abbrev status : Status
status = record {
  npk_enabled = true;
  cache_bytes = 12;
  quote = λ s. codes "\"" ++ s ++ codes "\"";
  exposition = not_found;
}

status_asked :
    (handle_internal plain_unicode one_key toy_backends status gateway
      (record ask { path = codes "/internal/status" })).body
    ≡ codes
        "{\"domain\":\"ex.org\",\"mode\":\"hosted\",\"allowlisted_sites\":1,\"custom_domains\":0,\"cache_bytes\":12,\"npk_enabled\":false}"
unfolding handle_internal handle_status count_keys member decimal shortest beq
status_asked = refl

-- collectors that add up what they are told
abbrev adding : Collectors ℕ ℕ
adding = record {
  register = λ name help keys p. some p;
  touch = λ name labels p. p;
  note = λ name labels v p. p + v;
}

abbrev requests : Family
requests = record { name = codes "r"; label_keys = codes "class" ∷ []; cur = none }

registered :
    family adding
      (codes "r")
      (codes "h")
      (codes "class" ∷ [])
      (record { collectors = 0; families = [] })
    ≡ some (record { collectors = 0; families = (codes "r", requests) ∷ [] }, requests)
unfolding family lookup insert
registered = refl

labelled_panics : note_value adding 1 requests 0 ≡ none
unfolding note_value
labelled_panics = refl

one_label :
    with_values adding (codes "site" ∷ []) requests 0
    ≡ some (0, record requests { cur = some ((codes "class", codes "site") ∷ []) })
unfolding with_values
one_label = refl
