-- ===== src/Ingest/Store.antt =====
-- internal/ingest/adapters/pg/repository.go: the tables that registration and the status query use.
-- core.documents has a unique key on the digest; `visible` is the row security of the caller.
-- Of its columns, meta and the uploader are left out.
use nornickel_hackathon.Prelude.{
  ℕ, String, Bool, true, false, Option, none, some, List, [], ◌∷◌, ◌++◌, ◌==◌, if◌then◌else◌,
  Result, ok, err, map,
}
use nornickel_hackathon.Events.{Envelope}
use nornickel_hackathon.Outbox.{Row, OutboxError, Record, append_record}
use nornickel_hackathon.Ingest.{
  Document, Stage, IngestError, status_registered, default_stages, dedup_failed, insert_failed,
  find_existing_failed, commit_failed, outbox,
}

-- A row of ops.ingest_jobs and of core.document_versions.
pub record Job : Type 0 where
  pub document_id : String
  pub version : ℕ
  pub stage : Stage

pub record Db : Type 0 where
  pub documents : List Document
  pub versions : List (String × ℕ × String)
  pub jobs : List Job
  pub outbox : List Row

-- Which of the database steps of one registration succeed.
pub record Faults : Type 0 where
  pub finds : Bool
  pub inserts : Bool
  pub appends : Bool
  pub commits : Bool

-- `findIDBySHA256SQL`
unfoldable pub find_by_sha : String → List Document → Option Document
find_by_sha sha [] = none
find_by_sha sha (d ∷ documents) = if d.sha256 == sha then some d else find_by_sha sha documents

unfoldable pub id_of : Option Document → Option String
id_of none = none
id_of (some d) = some d.id

-- `FindIDBySHA256` sees every row: it runs as the system.
unfoldable pub find_id_by_sha256 : Faults → String → Db → Result IngestError (Option String)
unfolding find_by_sha id_of
find_id_by_sha256 faults sha db =
    if faults.finds then ok (id_of (find_by_sha sha db.documents)) else err dedup_failed

-- The branch of `Register` for a digest that is there already: the row must be visible to the caller.
unfoldable pub existing_document :
    (Document → Bool) → Document → Document → Result IngestError (Document × Bool)
existing_document visible doc existing =
    if visible existing
    then ok (record doc { id = existing.id; version = 1; status = status_registered }, true)
    else err find_existing_failed

-- The record that `Register` appends to the outbox.
unfoldable pub event_record : Document → Envelope → Record
event_record doc envelope = record {
  envelope = envelope;
  aggregate_type = "document";
  aggregate_id = some doc.id;
  headers = [];
}

unfoldable pub outbox_result : Result OutboxError (List Row) → Result IngestError (List Row)
outbox_result (ok rows) = ok rows
outbox_result (err e) = err (outbox e)

module _ (encode : Envelope → List ℕ) (decode : List ℕ → Option Envelope)
    (parse_uuid : String → Option String) where
  -- The rows that a new document adds, before the outbox has its event.
  unfoldable pub insert_document : Document → Db → Db
  insert_document doc db = record db {
    documents = doc ∷ db.documents;
    versions = (doc.id, doc.version, doc.blob_uri) ∷ db.versions;
    jobs =
        map (λ s. record { document_id = doc.id; version = doc.version; stage = s }) default_stages
        ++ db.jobs;
  }

  unfoldable pub commit_document :
      Faults
      → Document
      → Db
      → Result IngestError (List Row)
      → Result IngestError (Document × Bool) × Db
  unfolding insert_document
  commit_document faults doc db (err e) = (err e, db)
  commit_document faults doc db (ok rows) =
      if faults.commits
      then (ok (doc, false), record (insert_document doc db) { outbox = rows })
      else (err commit_failed, db)

  unfoldable pub outbox_rows :
      Faults → String → Document → Envelope → Db → Result IngestError (List Row)
  unfolding event_record outbox_result
  outbox_rows faults trace doc envelope db = outbox_result (
      append_record encode decode parse_uuid trace faults.appends (event_record doc envelope)
        db.outbox)

  -- `Register`, on the row that has the digest already. An error rolls the transaction back.
  unfoldable pub register_on :
      Faults
      → (Document → Bool)
      → String
      → Document
      → Envelope
      → Db
      → Option Document
      → Result IngestError (Document × Bool) × Db
  unfolding commit_document existing_document outbox_rows
  register_on faults visible trace doc envelope db (some existing) =
      (existing_document visible doc existing, db)
  register_on faults visible trace doc envelope db none =
      commit_document faults doc db (outbox_rows faults trace doc envelope db)

  unfoldable pub register :
      Faults
      → (Document → Bool)
      → String
      → Document
      → Envelope
      → Db
      → Result IngestError (Document × Bool) × Db
  unfolding register_on find_by_sha
  register faults visible trace doc envelope db =
      if faults.inserts
      then register_on faults visible trace doc envelope db (find_by_sha doc.sha256 db.documents)
      else (err insert_failed, db)
