-- ===== src/Gateway.antt =====
-- internal/gateway/ports/http: who may call a route and what is written down about it (auth.go and
-- the routes of server.go), and the answer to a request for a source file (document_file.go).
--
-- A header is the list of its bytes. A handler is a function from the principal to the codes that it
-- passes to `WriteHeader`, and what a request does is the list of its effects in order.

pub mod Rules
pub mod Escape
pub mod File
use nornickel_hackathon.Prelude.{
  ℕ, String, Bool, true, false, ◌&&◌, not, Option, none, some, List, [], ◌∷◌, ◌++◌, leb, ltb,
  length, take, drop, if◌then◌else◌, lookup, Assoc, Result, ok, err,
}
use nornickel_hackathon.Auth.{Principal, allowed}
use nornickel_hackathon.Auth.Verifiers.{VerifyError}
use nornickel_hackathon.Events.{Envelope, EventError, Event, audit, new, is_empty}

pub record AuditMeta : Type 0 where
  pub action : String
  pub object_type : String
  pub persist : Bool

abbrev pub audit_actions : Assoc AuditMeta
audit_actions =
    ("ask", record { action = "search.ask"; object_type = "query"; persist = false })
    ∷ ("search", record { action = "search.query"; object_type = "query"; persist = false })
    ∷ (
      "document.upload",
      record { action = "document.upload"; object_type = "document"; persist = true },
    )
    ∷ ("fact.decision", record { action = "fact.decision"; object_type = "fact"; persist = true })
    ∷ ("entity.merge", record { action = "entity.merge"; object_type = "entity"; persist = true })
    ∷ (
      "contradiction.decision",
      record { action = "contradiction.decision"; object_type = "contradiction"; persist = true },
    )
    ∷ []

pub record Route : Type 0 where
  pub post : Bool
  pub path : String
  pub operation : String

abbrev get_route : String → String → Route
get_route path operation = record { post = false; path = path; operation = operation }

abbrev post_route : String → String → Route
post_route path operation = record { post = true; path = path; operation = operation }

-- The routes that `secure` guards.
abbrev pub routes : List Route
routes =
    post_route "/v1/ask" "ask"
    ∷ post_route "/v1/query/parse" "ask"
    ∷ post_route "/v1/search" "search"
    ∷ get_route "/v1/entities" "browse"
    ∷ get_route "/v1/entities/{id}" "browse"
    ∷ get_route "/v1/entities/{id}/facts" "browse"
    ∷ get_route "/v1/experiments" "browse"
    ∷ get_route "/v1/experts" "browse"
    ∷ get_route "/v1/coverage" "browse"
    ∷ get_route "/v1/contradictions" "browse"
    ∷ get_route "/v1/dictionaries/units" "browse"
    ∷ get_route "/v1/dictionaries/synonyms" "browse"
    ∷ get_route "/v1/review/queue" "browse"
    ∷ get_route "/v1/graph" "browse"
    ∷ get_route "/v1/documents" "browse"
    ∷ post_route "/v1/documents" "document.upload"
    ∷ get_route "/v1/documents/{document_id}/status" "browse"
    ∷ get_route "/v1/documents/{document_id}/file" "browse"
    ∷ post_route "/v1/facts/{id}/status" "fact.decision"
    ∷ post_route "/v1/entities/{id}/merge" "entity.merge"
    ∷ post_route "/v1/entities/{id}/status" "entity.merge"
    ∷ post_route "/v1/contradictions/{id}/decision" "contradiction.decision"
    ∷ []

pub record Request : Type 0 where
  pub authorization : List ℕ
  pub object_id : String
  pub request_id : String
  pub remote_addr : String

-- What an audit event and a row of the audit log tell of a request.
pub record AuditData : Type 0 where
  pub actor_id : String
  pub action : String
  pub object_type : String
  pub object_id : String
  pub roles : List String

pub record AuditRecord : Type 0 where
  pub data_of : AuditData
  pub request_id : String
  pub ip : String

pub data Effect : Type 0 where
  -- `writeProblem` with its code
  problem : ℕ → Effect
  -- the handler runs as a principal
  ran : Principal → Effect
  published : Envelope → Effect
  wrote : AuditRecord → Effect

-- "bearer "
abbrev pub bearer_prefix : List ℕ
bearer_prefix = 98 ∷ 101 ∷ 97 ∷ 114 ∷ 101 ∷ 114 ∷ 32 ∷ []

-- What the gateway is given: the functions of the strings and net packages, the verifier, and for an
-- event its encoding, a new identifier and the time. `auditEvents` and `audit` may be
-- nil, and `audit_writes` is whether the log takes a row.
pub record Server : Type 0 where
  pub equal_fold : List ℕ → List ℕ → Bool
  pub trim_space : List ℕ → List ℕ
  pub split_host : String → Option String
  pub is_ip : String → Bool
  pub verify : List ℕ → Result VerifyError Principal
  pub marshal : AuditData → Option (List ℕ)
  pub event_id : String
  pub now : ℕ
  pub has_events : Bool
  pub has_audit : Bool
  pub audit_writes : Bool

-- The status that the recorder holds in the end; it starts as 200.
unfoldable pub recorded : ℕ → List ℕ → ℕ
recorded status [] = status
recorded status (code ∷ codes) = recorded code codes

unfoldable pub host_of : String → Option String → String
host_of addr none = addr
host_of addr (some host) = host

module _ (server : Server) where
  open server use {
    equal_fold, trim_space, split_host, is_ip, verify, marshal, event_id, now, has_events,
    has_audit, audit_writes,
  }

  unfoldable pub bearer_token : List ℕ → List ℕ
  bearer_token header =
      if ltb (length bearer_prefix) (length header)
        && equal_fold (take (length bearer_prefix) header) bearer_prefix
      then trim_space (drop (length bearer_prefix) header)
      else []

  unfoldable pub client_ip : String → String
  unfolding host_of
  client_ip addr = let host = host_of addr (split_host addr) in if is_ip host then host else ""

  abbrev pub audit_data : Principal → AuditMeta → Request → AuditData
  audit_data p meta r = record {
    actor_id = p.user_id;
    action = meta.action;
    object_type = meta.object_type;
    object_id = r.object_id;
    roles = p.roles;
  }

  unfoldable pub publish_built : Result EventError Envelope → List Effect
  publish_built (err e) = []
  publish_built (ok envelope) = published envelope ∷ []

  unfoldable pub emit_audit_event : Principal → AuditMeta → Request → List Effect
  unfolding publish_built
  emit_audit_event p meta r =
      if has_events
      then publish_built (
          new marshal event_id now (record {
            typ = audit meta.action;
            source = "kmap/gateway";
            subject = p.user_id;
            body = some (audit_data p meta r);
          }))
      else []

  -- A `Write` that fails is only logged, and leaves no row.
  unfoldable pub record_audit : Principal → AuditMeta → Request → List Effect
  unfolding client_ip
  record_audit p meta r =
      if has_audit && audit_writes
      then wrote (record {
        data_of = audit_data p meta r;
        request_id = r.request_id;
        ip = client_ip r.remote_addr;
      })
        ∷ []
      else []

  -- The end of `authorize`, on the status that the recorder holds.
  unfoldable pub after_handler : Principal → AuditMeta → Request → ℕ → List Effect
  unfolding emit_audit_event record_audit
  after_handler p meta r status =
      if leb 200 status && ltb status 300
      then emit_audit_event p meta r ++ (if meta.persist then record_audit p meta r else [])
      else []

  unfoldable pub run_handler :
      Principal → Request → (Principal → List ℕ) → Option AuditMeta → List Effect
  unfolding after_handler recorded
  run_handler p r next none = ran p ∷ []
  run_handler p r next (some meta) = ran p ∷ after_handler p meta r (recorded 200 (next p))

  unfoldable pub after_verify :
      String → Request → (Principal → List ℕ) → Result VerifyError Principal → List Effect
  unfolding run_handler
  after_verify operation r next (err e) = problem 401 ∷ []
  after_verify operation r next (ok p) =
      if not (allowed operation p)
      then problem 403 ∷ []
      else run_handler p r next (lookup operation audit_actions)

  unfoldable pub authorize : String → Request → (Principal → List ℕ) → List Effect
  unfolding after_verify bearer_token
  authorize operation r next =
      let token = bearer_token r.authorization in
      if is_empty token then problem 401 ∷ [] else after_verify operation r next (verify token)
