-- ===== src/Witnesses/OfGateway.antt =====
-- Witnesses of the gateway.
use nornickel_hackathon.Prelude.{
  ℕ, String, true, false, ◌&&◌, some, List, [], ◌∷◌, leb, ltb, if◌then◌else◌, ◌≡◌, ◌≢◌, ◌↔◌, refl,
  ok, Result, zero, suc,
}
use nornickel_hackathon.Auth.{Principal, allowed, granted, has_any_role, has_role}
use nornickel_hackathon.Events.{is_empty}
use nornickel_hackathon.Blob.{BlobError}
use nornickel_hackathon.Gateway.{
  Server, Request, Route, AuditRecord, recorded, bearer_token, authorize, after_verify, run_handler,
  after_handler, emit_audit_event, publish_built, record_audit, client_ip, host_of,
}
use nornickel_hackathon.Gateway.Rules.{runs, rows, authorize-runs, changes_audited}
use nornickel_hackathon.Gateway.Escape.{rfc5987_escape, unescape, rfc5987_escape-unescape}
use nornickel_hackathon.Gateway.File.{
  QueryError, Object, document_file, document_file_sends, Stored, Agrees,
}

abbrev expert : Principal
expert = record { user_id = "u2"; name = "Bo"; roles = "expert" ∷ []; doc_access = "confidential" }

-- A gateway that takes every token for the expert, with a log of audits and no bus.
abbrev server : Server
server = record {
  equal_fold = λ a b. true;
  trim_space = λ s. s;
  split_host = λ s. some "10.0.0.1";
  is_ip = λ s. true;
  verify = λ token. ok expert;
  marshal = λ d. some [];
  event_id = "a1";
  now = 5;
  has_events = false;
  has_audit = true;
  audit_writes = true;
}

abbrev request : Request
request = record {
  authorization = 66 ∷ 101 ∷ 97 ∷ 114 ∷ 101 ∷ 114 ∷ 32 ∷ 120 ∷ [];
  object_id = "e1";
  request_id = "r1";
  remote_addr = "10.0.0.1:80";
}

abbrev next : Principal → List ℕ
next p = 200 ∷ []

authorize-runs_example : (runs (authorize server "entity.merge" request next) ≡ expert ∷ []) ↔ (
    (is_empty (bearer_token server request.authorization) ≡ false)
    × (server.verify (bearer_token server request.authorization) ≡ ok expert)
    × (allowed "entity.merge" expert ≡ true))
authorize-runs_example = authorize-runs server "entity.merge" request next expert

abbrev merge_route : Route
merge_route = record { post = true; path = "/v1/entities/{id}/merge"; operation = "entity.merge" }

expert-runs : runs (authorize server "entity.merge" request next) ≡ expert ∷ []
unfolding authorize after_verify run_handler after_handler emit_audit_event publish_built
    record_audit client_ip host_of bearer_token recorded allowed granted has_any_role has_role
expert-runs = refl

changes_audited_example :
    (entry : AuditRecord) × (entry.data_of.actor_id ≡ "u2")
    × (entry.data_of.object_id ≡ "e1")
    × (rows (authorize server "entity.merge" request next) ≡ (
        if (leb 200 (recorded 200 (next expert)) && ltb (recorded 200 (next expert)) 300)
          && (true && true)
        then entry ∷ []
        else []))
changes_audited_example =
    changes_audited server 19 merge_route request next expert refl refl refl expert-runs

rfc5987_escape-unescape_example :
    (text : List ℕ) × (rfc5987_escape (208 ∷ 65 ∷ 32 ∷ []) ≡ some text)
    × (unescape text ≡ some (208 ∷ 65 ∷ 32 ∷ []))
rfc5987_escape-unescape_example = rfc5987_escape-unescape (208 ∷ 65 ∷ 32 ∷ []) refl

abbrev document_id : String
document_id = "d1"

abbrev query : String → Result QueryError (String × String)
query id = ok ("Report", "s3://raw/d1.pdf")

abbrev repeat : ℕ → List ℕ
repeat zero = []
repeat (suc n) = 37 ∷ repeat n

-- The reader fails after 600 bytes, of which the connection takes 3.
abbrev broken : Object
broken = record { bytes = repeat 600; ends = false }

abbrev fetch : String → String → Result BlobError Object
fetch bucket key = ok broken

document_file_sends_example :
    (((document_file true fetch 3 query "d1").content ≡ some (37 ∷ 37 ∷ 37 ∷ []))
      ↔ ((document_id ≢ "") × Stored true fetch 3 query "d1" (37 ∷ 37 ∷ 37 ∷ [])))
    × Agrees true fetch 3 (document_file true fetch 3 query "d1")
document_file_sends_example = document_file_sends true fetch 3 query "d1" (37 ∷ 37 ∷ 37 ∷ [])
