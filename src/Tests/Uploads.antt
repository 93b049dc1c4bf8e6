-- ===== src/Tests/Uploads.antt =====
-- Tests of the HTTP handlers of internal/blossomsrv/server.go.
use nostrhost_nsite.Prelude.{
  ◌≡◌, ◌∙◌, refl, sym, some_inj, true, [], ◌∷◌, ◌++◌, some, codes, arith, beq, member, has_prefix,
  has_suffix, trim_prefix, split_on,
}
use nostrhost_nsite.Hex.{encode_to_string, decode_string}
use nostrhost_nsite.Assoc.{lookup}
use nostrhost_nsite.Int64.{ltb64, add64}
use nostrhost_nsite.Base64.{decode_url_base64}
use nostrhost_nsite.Filepath.{clean, clean_segments, join_back}
use nostrhost_nsite.Http.{not_found}
use nostrhost_nsite.Nostr.{Event}
use nostrhost_nsite.Blossomsrv.Store.{
  written, put, authorize, read_upload, commit, valid_sha, blob_count, stored_shas,
}
use nostrhost_nsite.Blossomsrv.Store.Auth.{IsAdmitted}
use nostrhost_nsite.Blossomsrv.Handlers.{
  Request, Outside, good, parse_auth_header, handle_upload, handle_blob, handle, clean_path,
  status_json,
}
use nostrhost_nsite.Blossomsrv.Handlers.Answers.{handle_upload-handle_blob}
use nostrhost_nsite.Blossom.Classify.{decimal}
use nostrhost_nsite.Digits.{shortest}
use nostrhost_nsite.Tests.Fixtures.{toy_sha256, two_sha, trusting}
use nostrhost_nsite.Tests.Blossom.{
  upload_event, empty_store, io_of, empty_store-IsConsistent, ok_read,
}

abbrev around : Outside
around = record {
  json_string = λ s. codes "\"" ++ s ++ codes "\"";
  json_event = λ raw. some upload_event;
  json_error = λ raw. codes "bad";
  base64_error = λ text. codes "bad";
  io_error = codes "bad";
  redirect = λ r. not_found;
}

abbrev put_request : Request
put_request = record {
  method = codes "PUT";
  path = codes "/upload";
  query_sha256 = two_sha;
  authorization = codes "Nostr e30";
  forwarded_host = [];
  host = codes "b.net";
  is_tls = true;
}

abbrev get_request : Request
get_request = record put_request { method = codes "GET"; path = b'/' ∷ two_sha }

status_request :
    (handle around trusting toy_sha256 true
      (io_of written)
      (record put_request { method = codes "GET"; path = codes "/status" })
      empty_store).1.body
    ≡ codes "{\"blobs\":0,\"quota_bytes\":10,\"used_bytes\":0}"
unfolding handle clean_path clean clean_segments join_back has_prefix has_suffix split_on beq
    status_json decimal shortest blob_count stored_shas ltb64
status_request = refl

upload_done :
    (handle_upload around trusting toy_sha256 (io_of written) put_request empty_store).1.status
    ≡ 200
unfolding handle_upload parse_auth_header decode_url_base64 has_prefix trim_prefix put valid_sha
    decode_string authorize member beq read_upload ltb64 add64 encode_to_string commit lookup
upload_done = refl

handle_upload-handle_blob_example :
    ((handle_blob true get_request
        (handle_upload around trusting toy_sha256 (io_of written) put_request empty_store).0).status
      ≡ 200)
    × (encode_to_string (
          toy_sha256
            (handle_blob true get_request
              (handle_upload around trusting toy_sha256
                (io_of written)
                put_request
                empty_store).0).body)
        ≡ two_sha)
    × ((ev : Event) × (parse_auth_header around (codes "Nostr e30") ≡ good ev)
        × IsAdmitted trusting empty_store ev two_sha)
handle_upload-handle_blob_example =
    handle_upload-handle_blob around trusting toy_sha256 (io_of written) put_request get_request
      empty_store empty_store-IsConsistent (omega arith)
      (λ body e. rw (← some_inj (sym ok_read ∙ e)) (omega arith)) upload_done refl refl
