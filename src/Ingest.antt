-- ===== src/Ingest.antt =====
-- internal/ingest: the document and its metadata (domain/document.go), and the page limits of the
-- listing (app/service.go, adapters/pg/repository.go). Registration is in the child modules.
pub mod Store
pub mod Register
pub mod Normalize
use nornickel_hackathon.Prelude.{
  ℕ, zero, suc, String, Bool, true, false, not, Option, none, some, List, [], ◌∷◌, ltb, ◌==◌,
  if◌then◌else◌, contains, Result, ok, err, ◌>>=◌, ◌>>◌, fail_if,
}
use nornickel_hackathon.Events.{EventError}
use nornickel_hackathon.Outbox.{OutboxError}

pub data IngestError : Type 0 where
  sha256_required blob_uri_required document_not_found : IngestError
  invalid_doc_type invalid_geography invalid_access_level : IngestError
  -- a database step that fails, and an error of the events or the outbox
  id_failed dedup_failed insert_failed find_existing_failed commit_failed : IngestError
  event : EventError → IngestError
  outbox : OutboxError → IngestError

abbrev pub status_registered : String
status_registered = "registered"

pub record Document : Type 0 where
  pub id : String
  pub title : String
  pub doc_type : String
  pub lang : String
  pub year : ℕ
  pub geography : String
  pub access_level : String
  pub source_uri : String
  pub sha256 : String
  pub status : String
  pub version : ℕ
  pub uploaded_by : String
  pub blob_uri : String

pub record Stage : Type 0 where
  pub stage : String
  pub status : String
  pub attempt : ℕ
  pub error : String

abbrev pub default_stages : List Stage
default_stages =
    record { stage = "register"; status = "done"; attempt = 0; error = "" }
    ∷ record { stage = "parse"; status = "pending"; attempt = 0; error = "" }
    ∷ record { stage = "extract"; status = "pending"; attempt = 0; error = "" }
    ∷ record { stage = "commit"; status = "pending"; attempt = 0; error = "" }
    ∷ record { stage = "epistemic"; status = "pending"; attempt = 0; error = "" }
    ∷ []

abbrev pub valid_doc_types : List String
valid_doc_types =
    "article" ∷ "report" ∷ "patent" ∷ "protocol" ∷ "handbook" ∷ "normative" ∷ "dataset" ∷ "web" ∷ []

abbrev pub valid_geographies : List String
valid_geographies = "ru" ∷ "foreign" ∷ "global" ∷ "unknown" ∷ []

abbrev pub valid_access_levels : List String
valid_access_levels = "public" ∷ "internal" ∷ "confidential" ∷ "restricted" ∷ []

pub record Meta : Type 0 where
  pub doc_type : String
  pub geography : String
  pub access_level : String

-- `if value == "" { value = fallback }`
abbrev pub default_string : String → String → String
default_string value fallback = if value == "" then fallback else value

unfoldable pub normalize_meta : String → String → String → Result IngestError Meta
normalize_meta doc_type geography access_level = do
  let t = default_string doc_type "report"
  let g = default_string geography "unknown"
  let a = default_string access_level "internal"
  fail_if (not (contains valid_doc_types t)) invalid_doc_type
  fail_if (not (contains valid_geographies g)) invalid_geography
  fail_if (not (contains valid_access_levels a)) invalid_access_level
  ok (record { doc_type = t; geography = g; access_level = a })

-- `ListDocuments` of the service, as the limit that it hands to the repository.
unfoldable pub list_limit : ℕ → ℕ
list_limit limit =
    let positive : ℕ = elim limit [ zero ↦ 50 | suc n ↦ suc n ] in
    if ltb 100 positive then 100 else positive
