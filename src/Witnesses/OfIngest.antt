-- ===== src/Witnesses/OfIngest.antt =====
-- Witnesses of the registration of documents.
use nornickel_hackathon.Prelude.{ℕ, String, true, false, Option, some, List, [], ◌∷◌, ◌≡◌, refl, ok}
use nornickel_hackathon.Witnesses.{encode, decode}
use nornickel_hackathon.Ingest.{Document, normalize_meta, status_registered}
use nornickel_hackathon.Ingest.Store.{
  Db, Faults, find_by_sha, id_of, find_id_by_sha256, register, register_on, insert_document,
  commit_document, outbox_rows, outbox_result, event_record,
}
use nornickel_hackathon.Ingest.Register.{
  RegisterCommand, RegisterResult, Context, checked, register_document, register_all, after_checks,
  after_lookup, create, document_of, build_envelope, save, result_of,
}
use nornickel_hackathon.Ingest.Register.Laws.{
  Change, IsUnique, register-Change, registrations-IsUnique, register_again,
}
use nornickel_hackathon.Outbox.{append_record, append_parsed, append_payload}
use nornickel_hackathon.Events.{
  new, marshal_data, checked_data, marshal_envelope, validate, validate_type,
}

abbrev parse_uuid : String → Option String
parse_uuid s = some s

abbrev marshal : Document → Option (List ℕ)
marshal d = some (1 ∷ [])

abbrev no_faults : Faults
no_faults = record { finds = true; inserts = true; appends = true; commits = true }

abbrev context : Context
context = record {
  document_id = some "d1";
  event_id = "e1";
  now = 5;
  trace = "";
  visible = λ d. true;
  faults = no_faults;
}

abbrev command : RegisterCommand
command = record {
  title = "t";
  blob_uri = "s3://b/k";
  sha256 = "abc";
  doc_type = "patent";
  lang = "ru";
  geography = "";
  access_level = "";
  year = 2020;
  uploaded_by = "u1";
}

abbrev no_rows : Db
no_rows = record { documents = []; versions = []; jobs = []; outbox = [] }

abbrev first_result : RegisterResult
first_result = record { document_id = "d1"; version = 1; status = "registered"; duplicate = false }

register-Change_example :
    Change "abc" no_rows no_rows
      (register_document encode decode parse_uuid marshal context command no_rows no_rows).0
      (register_document encode decode parse_uuid marshal context command no_rows no_rows).1
register-Change_example =
    register-Change encode decode parse_uuid marshal context command no_rows no_rows

registrations-IsUnique_example : IsUnique (
    register_all encode decode parse_uuid marshal
      ((context, command, no_rows) ∷ (context, command, no_rows) ∷ [])
      no_rows)
registrations-IsUnique_example =
    registrations-IsUnique encode decode parse_uuid marshal
      ((context, command, no_rows) ∷ (context, command, no_rows) ∷ []) no_rows tt

registers :
    (register_document encode decode parse_uuid marshal context command no_rows no_rows).0
    ≡ ok first_result
unfolding register_document checked normalize_meta after_checks after_lookup find_id_by_sha256
    find_by_sha id_of create document_of build_envelope new marshal_data checked_data validate_type
    save register register_on insert_document commit_document outbox_rows outbox_result event_record
    append_record append_parsed append_payload marshal_envelope validate result_of
registers = refl

command-checked :
    checked command
    ≡ ok (record { doc_type = "patent"; geography = "unknown"; access_level = "internal" })
unfolding checked normalize_meta
command-checked = refl

register_again_example :
    let after =
      (register_document encode decode parse_uuid marshal context command no_rows no_rows).1 in
    register_document encode decode parse_uuid marshal context command after after ≡ (
      ok (record { document_id = "d1"; version = 1; status = status_registered; duplicate = true }),
      after,
    )
register_again_example =
    register_again encode decode parse_uuid marshal context context command command no_rows
      registers refl command-checked refl
