-- ===== src/Ingest/Register/Laws.antt =====
-- What a registration guarantees: one document for each digest, and one event for each document.
use nornickel_hackathon.Prelude.{
  ℕ, ◌+◌, String, Bool, true, false, Option, none, some, List, [], ◌∷◌, length, contains, NoRepeats,
  ◌≡◌, ◌⊎◌, inl, inr, refl, ap, arith, eq_self, if◌then◌else◌, Result, ok, err, ok-injective, sym,
  subst, ◌∙◌,
}
use nornickel_hackathon.Events.{Envelope, EventError}
use nornickel_hackathon.Outbox.{Row, OutboxError, append_record}
use nornickel_hackathon.Outbox.Laws.{append_record-cons}
use nornickel_hackathon.Ingest.{
  Document, IngestError, Meta, status_registered, find_existing_failed, commit_failed,
  insert_failed,
}
use nornickel_hackathon.Ingest.Store.{
  Db, Faults, find_by_sha, id_of, find_id_by_sha256, existing_document, insert_document,
  commit_document, outbox_rows, register_on, register, event_record, outbox_result,
}
use nornickel_hackathon.Ingest.Register.{
  RegisterCommand, RegisterResult, Context, document_of, checked, result_of, save, build_envelope,
  create, after_lookup, after_checks, register_document, register_all,
}

abbrev digests : List Document → List String
digests [] = []
digests (d ∷ documents) = d.sha256 ∷ digests documents

-- No two documents have one digest.
abbrev pub IsUnique : Db → Type 0
IsUnique db = NoRepeats (digests db.documents)

missing :
    (sha : String) (documents : List Document)
    → find_by_sha sha documents ≡ none
    → contains (digests documents) sha ≡ false
unfolding find_by_sha
missing sha [] h = refl
missing sha (d ∷ documents) h = ground (arith, missing sha documents)

-- What one call may do to the tables `db`, where its lookup saw the tables `found`: nothing, or one
-- new document with a new digest and one new event with it.
pub data Change (sha : String) (found db : Db)
    : Result IngestError RegisterResult → Db → Type 0 where
  refused : {e : IngestError} → Change sha found db (err e) db
  known :
      {r : RegisterResult}
      → r.duplicate ≡ true
      → (id_of (find_by_sha sha found.documents) ≡ some r.document_id)
        ⊎ (id_of (find_by_sha sha db.documents) ≡ some r.document_id)
      → Change sha found db (ok r) db
  added :
      {r : RegisterResult} {db' : Db} (d : Document) (row : Row)
      → r.duplicate ≡ false
      → r.document_id ≡ d.id
      → d.sha256 ≡ sha
      → find_by_sha sha db.documents ≡ none
      → db'.documents ≡ d ∷ db.documents
      → db'.outbox ≡ row ∷ db.outbox
      → length db'.jobs ≡ 5 + length db.jobs
      → Change sha found db (ok r) db'

Change-IsUnique :
    {sha : String} {found db db' : Db} {r : Result IngestError RegisterResult}
    → Change sha found db r db'
    → IsUnique db
    → IsUnique db'
Change-IsUnique refused u = u
Change-IsUnique (known e where_) u = u
Change-IsUnique {db = db} {db' = db'} (added d row e i same new docs out jobs) u =
    subst (λ ds. NoRepeats (digests ds)) (sym docs) (rw same (missing _ db.documents new), u)

-- The tables hold, for the digest, the document that the call reports.
reported :
    {sha : String} {db db' : Db} {x : Result IngestError RegisterResult} (r : RegisterResult)
    → Change sha db db x db'
    → x ≡ ok r
    → id_of (find_by_sha sha db'.documents) ≡ some r.document_id
unfolding find_by_sha id_of
reported r refused e = cc
reported r (known {r = s} dup (inl h)) e =
    h ∙ ap some (ap (λ (q : RegisterResult). q.document_id) (ok-injective e))
reported r (known {r = s} dup (inr h)) e =
    h ∙ ap some (ap (λ (q : RegisterResult). q.document_id) (ok-injective e))
reported {sha} r (added {r = s} d row dup same_id same_sha new docs out jobs) e = rw docs (
    rw same_sha (
      rw (eq_self sha)
        (ap some (sym same_id ∙ ap (λ (q : RegisterResult). q.document_id) (ok-injective e)))))

find_lem :
    (faults : Faults) (sha : String) (db : Db) {id : String}
    → faults.finds ≡ true
    → id_of (find_by_sha sha db.documents) ≡ some id
    → find_id_by_sha256 faults sha db ≡ ok (some id)
unfolding find_id_by_sha256
find_lem faults sha db finds found = ground arith

module _ (encode : Envelope → List ℕ) (decode : List ℕ → Option Envelope)
    (parse_uuid : String → Option String) (marshal : Document → Option (List ℕ)) where
  rows_lem :
      (faults : Faults) (trace : String) (doc : Document) (envelope : Envelope) (db : Db)
      {rows : List Row}
      → outbox_rows encode decode parse_uuid faults trace doc envelope db ≡ ok rows
      → (row : Row) × (rows ≡ row ∷ db.outbox)
  unfolding outbox_rows
  rows_lem faults trace doc envelope db {rows} h =
      go
        (append_record encode decode parse_uuid trace faults.appends (event_record doc envelope)
          db.outbox)
        refl h
    where
      go :
          (r : Result OutboxError (List Row))
          → append_record encode decode parse_uuid trace faults.appends
              (event_record doc envelope)
              db.outbox
            ≡ r
          → outbox_result r ≡ ok rows
          → (row : Row) × (rows ≡ row ∷ db.outbox)
      go (err e) a h = cc
      go (ok x) a h =
          append_record-cons encode decode parse_uuid trace faults.appends
            (event_record doc envelope) db.outbox (a ∙ ground (arith, h))

  commit-Change :
      (found : Db) (faults : Faults) (doc : Document) (db : Db)
      (rows : Result IngestError (List Row))
      → ((rows' : List Row) → rows ≡ ok rows' → (row : Row) × (rows' ≡ row ∷ db.outbox))
      → find_by_sha doc.sha256 db.documents ≡ none
      → let r = result_of (commit_document encode decode parse_uuid faults doc db rows) in
        Change doc.sha256 found db r.0 r.1
  unfolding commit_document result_of
  commit-Change found faults doc db (err e) row_of new = refused
  commit-Change found faults doc db (ok x) row_of new = go faults.commits
    where
      go :
          (b : Bool)
          → let r = result_of (
              if b
              then (
                ok (doc, false),
                record (insert_document encode decode parse_uuid doc db) { outbox = x },
              )
              else (err commit_failed, db)) in
            Change doc.sha256 found db r.0 r.1
      go true =
          let (row, e) = row_of x refl in added doc row refl refl refl new refl e (omega arith)
      go false = refused

  register_on-Change :
      (found : Db) (faults : Faults) (visible : Document → Bool) (trace : String) (doc : Document)
      (envelope : Envelope) (db : Db) (o : Option Document)
      → find_by_sha doc.sha256 db.documents ≡ o
      → let r =
          result_of (register_on encode decode parse_uuid faults visible trace doc envelope db o) in
        Change doc.sha256 found db r.0 r.1
  unfolding register_on existing_document result_of id_of
  register_on-Change found faults visible trace doc envelope db (some d) e = go (visible d)
    where
      go :
          (b : Bool)
          → let r = result_of (
            (if b
                then ok (record doc { id = d.id; version = 1; status = status_registered }, true)
                else err find_existing_failed),
            db,
          ) in
            Change doc.sha256 found db r.0 r.1
      go true = known refl (inr (rw e refl))
      go false = refused
  register_on-Change found faults visible trace doc envelope db none e =
      commit-Change found faults doc db
        (outbox_rows encode decode parse_uuid faults trace doc envelope db)
        (λ x h. rows_lem faults trace doc envelope db h) e

  save-Change :
      (found : Db) (c : Context) (doc : Document) (db : Db) (env : Result EventError Envelope)
      → let r = save encode decode parse_uuid marshal c doc db env in
        Change doc.sha256 found db r.0 r.1
  unfolding save register result_of
  save-Change found c doc db (err e) = refused
  save-Change found c doc db (ok env) = go c.faults.inserts
    where
      go :
          (b : Bool)
          → let r = result_of (
              if b
              then register_on encode decode parse_uuid c.faults c.visible c.trace doc env db
                  (find_by_sha doc.sha256 db.documents)
              else (err insert_failed, db)) in
            Change doc.sha256 found db r.0 r.1
      go true =
          register_on-Change found c.faults c.visible c.trace doc env db
            (find_by_sha doc.sha256 db.documents) refl
      go false = refused

  create-Change :
      (found : Db) (c : Context) (cmd : RegisterCommand) (meta : Meta) (db : Db)
      (id : Option String)
      → let r = create encode decode parse_uuid marshal c cmd meta db id in
        Change cmd.sha256 found db r.0 r.1
  unfolding create document_of
  create-Change found c cmd meta db none = refused
  create-Change found c cmd meta db (some id) =
      save-Change found c (document_of cmd meta id) db
        (build_envelope encode decode parse_uuid marshal c (document_of cmd meta id))

  lookup-Change :
      (found : Db) (c : Context) (cmd : RegisterCommand) (meta : Meta) (db : Db)
      (o : Result IngestError (Option String))
      → find_id_by_sha256 c.faults cmd.sha256 found ≡ o
      → let r = after_lookup encode decode parse_uuid marshal c cmd meta db o in
        Change cmd.sha256 found db r.0 r.1
  unfolding after_lookup find_id_by_sha256
  lookup-Change found c cmd meta db (err e) h = refused
  lookup-Change found c cmd meta db (ok (some id)) h = known refl (inl (ground arith))
  lookup-Change found c cmd meta db (ok none) h = create-Change found c cmd meta db c.document_id

  -- Each registration is refused and changes nothing, or reports a duplicate and changes nothing,
  -- or adds one document with its digest, which no document had, one event and five stages. A
  -- duplicate is reported by the identifier of the document that has the digest.
  pub register-Change :
      (c : Context) (cmd : RegisterCommand) (found db : Db)
      → let r = register_document encode decode parse_uuid marshal c cmd found db in
        Change cmd.sha256 found db r.0 r.1
  unfolding register_document
  register-Change c cmd found db = go (checked cmd)
    where
      go :
          (m : Result IngestError Meta)
          → let r = after_checks encode decode parse_uuid marshal c cmd found db m in
            Change cmd.sha256 found db r.0 r.1
      go (err e) = refused
      go (ok meta) =
          lookup-Change found c cmd meta db (find_id_by_sha256 c.faults cmd.sha256 found) refl

  -- Any sequence of registrations keeps the digests apart, whatever the tables were when each of them
  -- made its lookup.
  pub registrations-IsUnique :
      (calls : List (Context × RegisterCommand × Db)) (db : Db)
      → IsUnique db
      → IsUnique (register_all encode decode parse_uuid marshal calls db)
  unfolding register_all
  registrations-IsUnique [] db u = u
  registrations-IsUnique ((c, cmd, found) ∷ calls) db u =
      registrations-IsUnique calls
        (register_document encode decode parse_uuid marshal c cmd found db).1
        (Change-IsUnique (register-Change c cmd found db) u)

  -- A registration that succeeds, with no other between its lookup and its insertion, leaves a
  -- document with the digest of the command, and reports its identifier.
  pub register_find :
      (c : Context) (cmd : RegisterCommand) (db : Db) {r : RegisterResult}
      → (register_document encode decode parse_uuid marshal c cmd db db).0 ≡ ok r
      → id_of (
          find_by_sha cmd.sha256
            (register_document encode decode parse_uuid marshal c cmd db db).1.documents)
        ≡ some r.document_id
  register_find c cmd db {r} h = reported r (register-Change c cmd db db) h

  again :
      (c : Context) (cmd : RegisterCommand) (after : Db) {meta : Meta} {id : String}
      → checked cmd ≡ ok meta
      → c.faults.finds ≡ true
      → id_of (find_by_sha cmd.sha256 after.documents) ≡ some id
      → register_document encode decode parse_uuid marshal c cmd after after ≡ (
        ok (record { document_id = id; version = 1; status = status_registered; duplicate = true }),
        after,
      )
  unfolding register_document
  again c cmd after {meta} {id} valid finds found =
      rw (valid, find_lem c.faults cmd.sha256 after finds found) refl

  -- Registering the same digest again, after a registration that succeeded, reports the same
  -- document as a duplicate and changes nothing, whatever else the second command says, if its checks and its lookup succeed.
  pub register_again :
      (c c' : Context) (cmd cmd' : RegisterCommand) (db : Db) {r : RegisterResult} {meta : Meta}
      → (register_document encode decode parse_uuid marshal c cmd db db).0 ≡ ok r
      → cmd'.sha256 ≡ cmd.sha256
      → checked cmd' ≡ ok meta
      → c'.faults.finds ≡ true
      → let after = (register_document encode decode parse_uuid marshal c cmd db db).1 in
        register_document encode decode parse_uuid marshal c' cmd' after after ≡ (
          ok (record {
            document_id = r.document_id;
            version = 1;
            status = status_registered;
            duplicate = true;
          }),
          after,
        )
  register_again c c' cmd cmd' db {r} {meta} h same valid finds =
      again c' cmd' (register_document encode decode parse_uuid marshal c cmd db db).1 valid finds
        (rw same (register_find c cmd db h))
