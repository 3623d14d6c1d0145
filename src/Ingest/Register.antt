-- ===== src/Ingest/Register.antt =====
-- `RegisterDocument` of internal/ingest/app/service.go over the tables. Other registrations may run
-- between its lookup and its insertion, so the two see two states of the tables.
pub mod Laws
use nornickel_hackathon.Prelude.{
  ℕ, String, Bool, true, false, Option, none, some, List, [], ◌∷◌, ◌==◌, if◌then◌else◌, Result, ok,
  err, ◌>>=◌, ◌>>◌, fail_if,
}
use nornickel_hackathon.Events.{Envelope, EventError, new, document_registered}
use nornickel_hackathon.Ingest.{
  Document, IngestError, Meta, normalize_meta, status_registered, sha256_required,
  blob_uri_required, id_failed, event,
}
use nornickel_hackathon.Ingest.Store.{Db, Faults, find_id_by_sha256, register}

pub record RegisterCommand : Type 0 where
  pub title : String
  pub blob_uri : String
  pub sha256 : String
  pub doc_type : String
  pub lang : String
  pub geography : String
  pub access_level : String
  pub year : ℕ
  pub uploaded_by : String

pub record RegisterResult : Type 0 where
  pub document_id : String
  pub version : ℕ
  pub status : String
  pub duplicate : Bool

-- What one registration is given by its surroundings: the identifiers and the instant that are
-- generated, the trace of the caller, and the rows that the caller may see.
pub record Context : Type 0 where
  pub document_id : Option String
  pub event_id : String
  pub now : ℕ
  pub trace : String
  pub visible : Document → Bool
  pub faults : Faults

unfoldable pub document_of : RegisterCommand → Meta → String → Document
document_of cmd meta id = record {
  id = id;
  title = cmd.title;
  doc_type = meta.doc_type;
  lang = cmd.lang;
  year = cmd.year;
  geography = meta.geography;
  access_level = meta.access_level;
  source_uri = cmd.blob_uri;
  sha256 = cmd.sha256;
  status = status_registered;
  version = 1;
  uploaded_by = cmd.uploaded_by;
  blob_uri = cmd.blob_uri;
}

-- The tests on the command.
unfoldable pub checked : RegisterCommand → Result IngestError Meta
checked cmd = do
  fail_if (cmd.sha256 == "") sha256_required
  fail_if (cmd.blob_uri == "") blob_uri_required
  normalize_meta cmd.doc_type cmd.geography cmd.access_level

unfoldable pub result_of :
    Result IngestError (Document × Bool) × Db → Result IngestError RegisterResult × Db
result_of (err e, db) = (err e, db)
result_of (ok (saved, duplicate), db) = (
  ok (record {
    document_id = saved.id;
    version = saved.version;
    status = saved.status;
    duplicate = duplicate;
  }),
  db,
)

module _ (encode : Envelope → List ℕ) (decode : List ℕ → Option Envelope)
    (parse_uuid : String → Option String) (marshal : Document → Option (List ℕ)) where
  -- `buildEnvelope`
  unfoldable pub build_envelope : Context → Document → Result EventError Envelope
  build_envelope c doc = new marshal c.event_id c.now (record {
    typ = document_registered;
    source = "kmap/ingest";
    subject = doc.id;
    body = some doc;
  })

  -- The part after the envelope is built.
  unfoldable pub save :
      Context → Document → Db → Result EventError Envelope → Result IngestError RegisterResult × Db
  unfolding result_of
  save c doc db (err e) = (err (event e), db)
  save c doc db (ok envelope) =
      result_of (register encode decode parse_uuid c.faults c.visible c.trace doc envelope db)

  unfoldable pub create :
      Context → RegisterCommand → Meta → Db → Option String → Result IngestError RegisterResult × Db
  unfolding save document_of build_envelope
  create c cmd meta db none = (err id_failed, db)
  create c cmd meta db (some id) =
      save c (document_of cmd meta id) db (build_envelope c (document_of cmd meta id))

  -- The part after the lookup.
  unfoldable pub after_lookup :
      Context
      → RegisterCommand
      → Meta
      → Db
      → Result IngestError (Option String)
      → Result IngestError RegisterResult × Db
  unfolding create
  after_lookup c cmd meta db (err e) = (err e, db)
  after_lookup c cmd meta db (ok (some existing)) = (
    ok (record {
      document_id = existing;
      version = 1;
      status = status_registered;
      duplicate = true;
    }),
    db,
  )
  after_lookup c cmd meta db (ok none) = create c cmd meta db c.document_id

  unfoldable pub after_checks :
      Context
      → RegisterCommand
      → Db
      → Db
      → Result IngestError Meta
      → Result IngestError RegisterResult × Db
  unfolding after_lookup
  after_checks c cmd found db (err e) = (err e, db)
  after_checks c cmd found db (ok meta) =
      after_lookup c cmd meta db (find_id_by_sha256 c.faults cmd.sha256 found)

  -- The lookup sees the tables `found`, the insertion the tables `db`.
  unfoldable pub register_document :
      Context → RegisterCommand → Db → Db → Result IngestError RegisterResult × Db
  unfolding after_checks checked
  register_document c cmd found db = after_checks c cmd found db (checked cmd)

  -- A sequence of registrations, each with the tables that its lookup sees.
  unfoldable pub register_all : List (Context × RegisterCommand × Db) → Db → Db
  unfolding register_document
  register_all [] db = db
  register_all ((c, cmd, found) ∷ calls) db =
      register_all calls (register_document c cmd found db).1
