-- ===== src/Witnesses/OfCommit.antt =====
-- Witnesses of the commit of a document and of what happens to its rows.
use nornickel_hackathon.Prelude.{
  ℕ, String, Bool, Option, true, false, none, some, List, [], ◌∷◌, All, contains, lookup, ◌==◌, ◌≡◌,
  refl, ok, Assoc, inl, Result,
}
use nornickel_hackathon.Witnesses.{some_envelope, encode, decode}
use nornickel_hackathon.Events.{
  new, marshal_data, checked_data, marshal_envelope, validate, validate_type, is_audit, is_dlq,
}
use nornickel_hackathon.Outbox.{append_record, append_parsed, append_payload}
use nornickel_hackathon.Catalog.Resolve.{Entity, NumericFact, entity_ids, distinct_from}
use nornickel_hackathon.Catalog.Store.{
  Step, DocumentRow, FactRow, AliasRow, Tables, CommitCommand, Values, commit, commit_tx_body,
  settled, found_document, find_document, insert_entities, insert_entity, insert_entity_on,
  insert_alias, alias_row, has_alias, note_remap, no_null, entity_row, id_of_slug, has_entity,
  insert_chunks, insert_facts, insert_fact, fact_row, remap_id, actual_or, conflicts, refers,
  refers_chunk, append_event, appended,
}
use nornickel_hackathon.Catalog.Store.Slugs.{HasIds, Placed}
use nornickel_hackathon.Catalog.Store.Unique.{HasSlugs, Keeps, Stored}
use nornickel_hackathon.Catalog.Store.Commit.{IsMade, commit_places}
use nornickel_hackathon.Catalog.Store.Inserts.{Unused}
use nornickel_hackathon.Catalog.Store.Success.{IsStored, Known, Sendable, commit_succeeds}
use nornickel_hackathon.Catalog.Publish.{
  CommitResult, CommittedData, DirtyData, ServiceError, commit_command, commit_built,
  build_envelopes, result_of, fact_ids, cluster_keys, keys_of,
}
use nornickel_hackathon.Catalog.Publish.Laws.{Published, stale_entity_id}
use nornickel_hackathon.Catalog.Merge.{
  move_edges, src_side, dst_side, State, MergeError, HistoryRow, merge_entities, merge_body, settle,
  alias_taken, written, update_facts, add_changed, same_key, with_subject, with_parameter,
  mark_document_failed, update_fact_status, status_body, fact_table,
}
use nornickel_hackathon.Catalog.Merge.Laws.{Spares, Free, hidden, merge_moves}
use nornickel_hackathon.Catalog.Merge.Self.{IsMarked, Keyed, self_merge}
use nornickel_hackathon.Catalog.Merge.Edges.{Distinct, merge-Distinct}
use nornickel_hackathon.Catalog.Merge.Status.{
  then_run, done, marks_failed, status_of, commit_stays_indexed, unseen_status,
}

abbrev values : Values ℕ
values = record { geography_of = λ v. ""; status_of = λ v. ""; same_values = λ a b. false }

abbrev works : Step → Bool
works s = false

abbrev parse : String → Option String
parse s = some s

abbrev entity : String → String → Entity
entity id slug = record {
  id = id;
  etype = "material";
  canonical_name = "Copper";
  canonical_name_en = "";
  slug = slug;
  status = "active";
  created_by = "extract";
}

abbrev document : DocumentRow
document = record { id = "d1"; status = "extracted"; geography = "ru"; year = some 2020 }

abbrev old_entities : List Entity
old_entities = entity "p1" "parameter:yield" ∷ entity "m1" "material:copper" ∷ []

abbrev tables : Tables ℕ
tables = record {
  documents = document ∷ [];
  entities = old_entities;
  aliases = [];
  chunks = [];
  facts = [];
  edges = [];
  outbox = [];
}

-- A fact on copper, whose slug has another row by now.
abbrev new_fact : NumericFact ℕ
new_fact = record {
  id = "f1";
  subject_id = "m2";
  parameter_id = "p1";
  chunk_id = none;
  relation = "operates_at";
  operator = "eq";
  extraction_method = "llm";
  extractor_version = "1";
  values = 3;
}

abbrev cmd : CommitCommand ℕ
cmd = record {
  document_id = "d1";
  version = 1;
  new_entities = entity "m2" "material:copper" ∷ [];
  chunks = [];
  facts = new_fact ∷ [];
}

abbrev after : Tables ℕ
after = (commit values works encode decode parse "" cmd some_envelope some_envelope tables).1

committed :
    commit values works encode decode parse "" cmd some_envelope some_envelope tables
    ≡ (ok tt, after)
unfolding commit commit_tx_body settled found_document find_document insert_entities insert_entity
    insert_entity_on insert_alias alias_row has_alias note_remap no_null entity_row id_of_slug
    has_entity insert_chunks insert_facts insert_fact fact_row remap_id actual_or conflicts refers
    refers_chunk append_event appended append_record append_parsed append_payload marshal_envelope
    validate validate_type is_audit is_dlq
committed = refl

tables-HasIds : HasIds tables.entities
unfolding has_entity
tables-HasIds = (refl, (refl, tt))

tables-HasSlugs : HasSlugs tables.entities
unfolding id_of_slug
tables-HasSlugs = (refl, (refl, tt))

commit_places_example :
    (d : DocumentRow) × (remap : Assoc String) × (find_document "d1" tables.documents ≡ some d)
    × HasSlugs after.entities
    × Keeps tables.entities after.entities
    × Placed remap after.entities cmd.new_entities
    × Stored remap after.entities cmd.new_entities
    × All
        (IsMade values works encode decode parse "" cmd some_envelope some_envelope tables d remap)
        after.facts
commit_places_example =
    commit_places values works encode decode parse "" cmd some_envelope some_envelope tables after
      tables-HasIds tables-HasSlugs (refl, tt) committed

no_step_fails : (s : Step) → works s ≡ false
no_step_fails s = refl

cmd-Known : All (Known values works no_step_fails cmd tables.entities []) cmd.facts
unfolding has_entity refers_chunk
cmd-Known = ((refl, refl, refl), tt)

no_chunks : insert_chunks works "d1" 1 [] [] ≡ ok []
unfolding insert_chunks
no_chunks = refl

document-found : find_document "d1" tables.documents ≡ some document
unfolding find_document
document-found = refl

m2-Unused : Unused tables.entities cmd.new_entities
unfolding has_entity
m2-Unused = (refl, tt)

envelope-Sendable : Sendable values works no_step_fails encode decode parse "" some_envelope
unfolding marshal_envelope validate validate_type is_audit is_dlq
envelope-Sendable = ("e1", 7 ∷ [], refl, refl)

commit_succeeds_example :
    (t' : Tables ℕ) × (remap : Assoc String) × (commit values works encode decode parse "" cmd
        some_envelope some_envelope tables
      ≡ (ok tt, t'))
    × Placed remap t'.entities cmd.new_entities
    × All (IsStored values works no_step_fails document remap t'.facts) cmd.facts
commit_succeeds_example =
    commit_succeeds values works no_step_fails encode decode parse "" cmd some_envelope
      some_envelope tables document [] tables-HasIds document-found (refl, tt) m2-Unused no_chunks
      cmd-Known envelope-Sendable envelope-Sendable

copper_taken : id_of_slug "material:copper" tables.entities ≡ some "m1"
unfolding id_of_slug
copper_taken = refl

m2_fresh : has_entity "m2" tables.entities ≡ false
unfolding has_entity
m2_fresh = refl

abbrev hash_of : ℕ → String
hash_of v = "ab"

abbrev json : CommittedData → Option (List ℕ)
json d = some (1 ∷ [])

abbrev dirty_json : DirtyData → Option (List ℕ)
dirty_json d = some (2 ∷ [])

abbrev published : Result ServiceError CommitResult × Tables ℕ
published =
    commit_command hash_of json dirty_json "e1" "e2" 5 6 values works encode decode parse "" cmd
      tables

abbrev published_result : CommitResult
published_result = record {
  document_id = "d1";
  fact_ids = "f1" ∷ [];
  entity_ids = "m2" ∷ "p1" ∷ [];
  cluster_keys = "m2:p1:ab" ∷ [];
}

publishes : published ≡ (ok published_result, published.1)
unfolding commit_command commit_built build_envelopes result_of new marshal_data checked_data
    fact_ids cluster_keys keys_of entity_ids distinct_from commit commit_tx_body settled
    found_document find_document insert_entities insert_entity insert_entity_on insert_alias
    alias_row has_alias note_remap no_null entity_row id_of_slug has_entity insert_chunks
    insert_facts insert_fact fact_row remap_id actual_or conflicts refers refers_chunk append_event
    appended append_record append_parsed append_payload marshal_envelope validate validate_type
    is_audit is_dlq
publishes = refl

stale_entity_id_example :
    (has_entity "m2" published.1.entities ≡ false)
    × (contains published_result.entity_ids "m2" ≡ true)
    × ((d : CommittedData) × Published values works encode decode parse "" hash_of json dirty_json
          "e1" "e2" 5 6 d published.1.outbox
        × (contains d.entity_ids "m2" ≡ true))
stale_entity_id_example =
    stale_entity_id values works encode decode parse "" hash_of json dirty_json "e1" "e2" 5 6 cmd
      tables published.1 published_result (entity "m2" "material:copper") "m1" (inl refl) (refl, tt)
      copper_taken m2_fresh publishes

-- Two facts on the entity m1: the session sees the one of d1 and not the one of d2.
abbrev fact : String → String → FactRow ℕ
fact id document_id = record {
  id = id;
  document_id = document_id;
  chunk_id = none;
  subject_id = "m1";
  parameter_id = "p1";
  relation = "operates_at";
  operator = "eq";
  values = 3;
  geography = "ru";
  doc_year = none;
  validation_status = "machine_extracted";
  superseded = false;
}

abbrev visible : String → Bool
visible id = id == "d1"

abbrev fine : MergeError → Bool
fine e = false

abbrev state : State ℕ
state = record {
  tables = record {
    documents = document ∷ [];
    entities = entity "m2" "material:cu" ∷ old_entities;
    aliases = record { entity_id = "m1"; alias = "Copper"; lang = "ru" } ∷ [];
    chunks = [];
    facts = fact "f1" "d1" ∷ fact "f2" "d2" ∷ [];
    edges =
        record { src = "m1"; dst = "p1"; rel = "OPERATES_AT"; weight = 2; provenance = [] } ∷ [];
    outbox = [];
  };
  claims = record { id = "c1"; validation_status = "machine_extracted" } ∷ [];
  merged_into = [];
  history = [];
}

abbrev merged : State ℕ
merged = (merge_entities values visible fine "m1" "m2" "u1" "" state).1

merges : merge_entities values visible fine "m1" "m2" "u1" "" state ≡ (ok tt, merged)
unfolding merge_entities merge_body settle has_entity alias_taken written update_facts add_changed
    same_key with_subject with_parameter
merges = refl

merge_moves_example :
    All (λ (a : AliasRow). (a.entity_id == "m1") ≡ false) merged.tables.aliases
    × All (Spares "m1") merged.tables.edges
    × All (Free values visible "m1") merged.tables.facts
    × (hidden values visible merged.tables.facts ≡ hidden values visible state.tables.facts)
merge_moves_example = merge_moves values visible fine "m1" "m2" "u1" "" state merged refl merges

m1_there : has_entity "m1" state.tables.entities ≡ true
unfolding has_entity
m1_there = refl

all_work : (e : MergeError) → fine e ≡ false
all_work e = refl

facts-Keyed : Keyed values visible state.tables.facts
unfolding same_key
facts-Keyed = (refl, (refl, tt))

self_merge_example :
    (s' : State ℕ) × (merge_entities values visible fine "m1" "m1" "u1" "" state ≡ (ok tt, s'))
    × All (IsMarked "m1") s'.tables.entities
    × (lookup "m1" s'.merged_into ≡ some "m1")
    × All (Spares "m1") s'.tables.edges
    × (s'.tables.facts ≡ state.tables.facts)
self_merge_example = self_merge values visible fine all_work "m1" "u1" "" state m1_there facts-Keyed

abbrev updated : State ℕ
updated = (update_fact_status values visible fine "f2" "" "expert_validated" "u1" "" state).1

updates :
    update_fact_status values visible fine "f2" "" "expert_validated" "u1" "" state
    ≡ (ok tt, updated)
unfolding update_fact_status status_body settle fact_table
updates = refl

numeric_kind : fact_table values visible fine "" ≡ ok true
unfolding fact_table
numeric_kind = refl

unseen_status_example :
    (updated.tables.facts ≡ state.tables.facts)
    × (updated.claims ≡ state.claims)
    × ((entry : HistoryRow) × (entry.fact_id ≡ "f2")
        × (entry.action ≡ "status_changed")
        × (updated.history ≡ entry ∷ state.history))
unseen_status_example =
    unseen_status values visible fine "f2" "" "expert_validated" "u1" "" state updated
      (refl, (refl, tt)) numeric_kind updates

-- A mark of failure after the commit.
abbrev marked : List DocumentRow
marked =
    (mark_document_failed values visible fine "d1"
      (record state { tables = after })).1.tables.documents

commit_stays_indexed_example : status_of "d1" marked ≡ some "indexed"
commit_stays_indexed_example =
    commit_stays_indexed values visible fine works encode decode parse "" cmd some_envelope
      some_envelope tables after marked committed
      (then_run (marks_failed "d1" (record state { tables = after })) (done marked))

state-Distinct : Distinct state.tables.edges
state-Distinct = (refl, tt)

merge-Distinct_example :
    Distinct (move_edges src_side "m1" "m2" state.tables.edges)
    × Distinct (move_edges dst_side "m1" "m2" (move_edges src_side "m1" "m2" state.tables.edges))
    × Distinct merged.tables.edges
merge-Distinct_example =
    merge-Distinct values visible fine "m1" "m2" "u1" "" state merged state-Distinct merges
