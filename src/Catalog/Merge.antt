-- ===== src/Catalog/Merge.antt =====
-- internal/catalog/adapters/pg/repository.go: the merge of two entities, the change of a fact's status
-- and the mark of a failed document, each in one transaction.
--
-- The tables are those of the commit, with the column `merged_into` of kg.entities and the table kg.fact_history
-- and
-- kg.claims beside them. These transactions do not set the row security, so that an update of facts reaches just
-- the facts of the documents that are visible to the session, which the argument `visible` tells. Edges are told apart by the columns of their unique key, as the table has no two with the same.

pub mod Laws
pub mod Status
pub mod Edges
pub mod Self
use nornickel_hackathon.Prelude.{
  ℕ, String, Bool, true, false, ◌&&◌, ◌||◌, not, Option, none, some, List, [], ◌∷◌, any, ◌==◌,
  if◌then◌else◌, insert, Assoc, Result, ok, err, ◌>>=◌, ◌>>◌, fail_if,
}
use nornickel_hackathon.Catalog.Resolve.{Entity, default_string}
use nornickel_hackathon.Catalog.Store.{
  DocumentRow, AliasRow, EdgeRow, FactRow, Tables, Values, has_entity,
}

pub data MergeError : Type 0 where
  begin_failed rls_failed entity_failed alias_failed subject_failed parameter_failed edge_failed
        cleanup_failed history_failed status_failed document_failed commit_failed unsupported_kind :
      MergeError

pub record HistoryRow : Type 0 where
  pub fact_kind : String
  pub fact_id : String
  pub actor : String
  pub action : String
  pub comment : String

-- A row of kg.claims, which has no row security: the columns that a change of status reads or writes.
pub record ClaimRow : Type 0 where
  pub id : String
  pub validation_status : String

pub record State (V : Type 0) : Type 0 where
  pub tables : Tables V
  pub claims : List ClaimRow
  pub merged_into : Assoc String
  pub history : List HistoryRow

-- The side of an edge that an update writes.
pub data Side : Type 0 where
  src_side dst_side : Side

unfoldable pub mark_merged : String → List Entity → List Entity
mark_merged id [] = []
mark_merged id (e ∷ entities) =
    (if e.id == id then record e { status = "merged" } else e) ∷ mark_merged id entities

unfoldable pub note_merged : String → String → List Entity → Assoc String → Assoc String
unfolding has_entity
note_merged id into entities merged =
    if has_entity id entities then insert id into merged else merged

unfoldable pub same_alias : AliasRow → AliasRow → Bool
same_alias a b = a.alias == b.alias && a.lang == b.lang

-- Whether an alias of the one entity is in another row an alias of the other, which the primary key refuses.
unfoldable pub alias_taken : String → String → List AliasRow → List AliasRow → Bool
unfolding same_alias
alias_taken id into all_rows [] = false
alias_taken id into all_rows (a ∷ aliases) =
    a.entity_id == id
      && any
          (λ (b : AliasRow).
            b.entity_id == into && not (b.entity_id == a.entity_id) && same_alias a b)
          all_rows
    || alias_taken id into all_rows aliases

unfoldable pub move_aliases : String → String → List AliasRow → List AliasRow
move_aliases id into [] = []
move_aliases id into (a ∷ aliases) =
    (if a.entity_id == id then record a { entity_id = into } else a) ∷ move_aliases id into aliases

unfoldable pub same_edge : EdgeRow → EdgeRow → Bool
same_edge e f = e.src == f.src && e.dst == f.dst && e.rel == f.rel

-- The edge `x` stands in the way of the edge `e`: it has the other entity on that side and agrees in the rest.
unfoldable pub blocks : Side → String → EdgeRow → EdgeRow → Bool
unfolding same_edge
blocks src_side into e x = x.rel == e.rel && x.src == into && x.dst == e.dst && not (same_edge x e)
blocks dst_side into e x = x.rel == e.rel && x.dst == into && x.src == e.src && not (same_edge x e)

unfoldable pub move_edge : Side → String → String → List EdgeRow → EdgeRow → EdgeRow
unfolding blocks
move_edge src_side id into edges e =
    if e.src == id && not (any (blocks src_side into e) edges) then record e { src = into } else e
move_edge dst_side id into edges e =
    if e.dst == id && not (any (blocks dst_side into e) edges) then record e { dst = into } else e

unfoldable pub move_each : Side → String → String → List EdgeRow → List EdgeRow → List EdgeRow
unfolding move_edge
move_each side id into edges [] = []
move_each side id into edges (e ∷ rest) =
    move_edge side id into edges e ∷ move_each side id into edges rest

-- One round of the loop over the sides; the statement reads the table as it was before it.
unfoldable pub move_edges : Side → String → String → List EdgeRow → List EdgeRow
unfolding move_each
move_edges side id into edges = move_each side id into edges edges

unfoldable pub cleanup_edges : String → String → List EdgeRow → List EdgeRow
cleanup_edges id into [] = []
cleanup_edges id into (e ∷ edges) =
    let rest = cleanup_edges id into edges in
    if e.src == id || e.dst == id || (e.src == into && e.dst == into) then rest else e ∷ rest

module _ {V : Type 0} (values : Values V) (visible : String → Bool) where
  open values use {same_values}

  unfoldable pub with_subject : String → String → FactRow V → FactRow V
  with_subject id into f =
      if visible f.document_id && f.subject_id == id then record f { subject_id = into } else f

  unfoldable pub with_parameter : String → String → FactRow V → FactRow V
  with_parameter id into f =
      if visible f.document_id && f.parameter_id == id then record f { parameter_id = into } else f

  unfoldable pub same_key : FactRow V → FactRow V → Bool
  same_key f g =
      f.document_id == g.document_id
      && f.subject_id == g.subject_id
      && f.parameter_id == g.parameter_id
      && f.operator == g.operator
      && same_values f.values g.values

  unfoldable pub add_changed : FactRow V → Option (List (FactRow V)) → Option (List (FactRow V))
  unfolding same_key
  add_changed f none = none
  add_changed f (some rows) = if any (same_key f) rows then none else some (f ∷ rows)

  -- The rows after an update that writes each of them, refused where two of them come to have one natural key.
  unfoldable pub update_facts :
      (FactRow V → FactRow V) → List (FactRow V) → Option (List (FactRow V))
  unfolding add_changed
  update_facts change [] = some []
  update_facts change (f ∷ facts) = add_changed (change f) (update_facts change facts)

  unfoldable pub written :
      MergeError → Option (List (FactRow V)) → Result MergeError (List (FactRow V))
  written e none = err e
  written e (some facts) = ok facts

  -- Each field of `fails` is whether that statement breaks off.
  module _ (fails : MergeError → Bool) where
    abbrev pub run : MergeError → Result MergeError (Unit {0})
    run e = fail_if (fails e) e

    unfoldable pub merge_body :
        String → String → String → String → State V → Result MergeError (State V)
    unfolding mark_merged note_merged alias_taken move_aliases written update_facts with_subject
        with_parameter move_edges cleanup_edges
    merge_body entity_id into_id actor comment s = do
      run begin_failed
      fail_if
          (fails entity_failed
            || (has_entity entity_id s.tables.entities
                && not (has_entity into_id s.tables.entities)))
          entity_failed
      fail_if
          (fails alias_failed || alias_taken entity_id into_id s.tables.aliases s.tables.aliases)
          alias_failed
      run subject_failed
      facts ← written subject_failed (update_facts (with_subject entity_id into_id) s.tables.facts)
      run parameter_failed
      facts' ← written parameter_failed (update_facts (with_parameter entity_id into_id) facts)
      run edge_failed
      run cleanup_failed
      run history_failed
      run commit_failed
      ok (record {
        tables = record s.tables {
          entities = mark_merged entity_id s.tables.entities;
          aliases = move_aliases entity_id into_id s.tables.aliases;
          facts = facts';
          edges = cleanup_edges entity_id into_id (
              move_edges dst_side entity_id into_id
                (move_edges src_side entity_id into_id s.tables.edges));
        };
        claims = s.claims;
        merged_into = note_merged entity_id into_id s.tables.entities s.merged_into;
        history =
            record {
              fact_kind = "entity";
              fact_id = entity_id;
              actor = default_string actor "system";
              action = "merged";
              comment = comment;
            }
            ∷ s.history;
      })

    -- An error rolls the transaction back.
    unfoldable pub settle :
        State V → Result MergeError (State V) → Result MergeError (Unit {0}) × State V
    settle s (ok s') = (ok tt, s')
    settle s (err e) = (err e, s)

    unfoldable pub merge_entities :
        String → String → String → String → State V → Result MergeError (Unit {0}) × State V
    unfolding settle merge_body
    merge_entities entity_id into_id actor comment s =
        settle s (merge_body entity_id into_id actor comment s)

    -- `factTable`: whether the kind names the table of facts.
    unfoldable pub fact_table : String → Result MergeError Bool
    fact_table kind =
        let k = default_string kind "numeric" in
        if k == "numeric" then ok true else if k == "claim" then ok false else err unsupported_kind

    unfoldable pub set_status : String → String → List (FactRow V) → List (FactRow V)
    set_status id status [] = []
    set_status id status (f ∷ facts) =
        (if visible f.document_id && f.id == id then record f { validation_status = status } else f)
        ∷ set_status id status facts

    unfoldable pub set_claim_status : String → String → List ClaimRow → List ClaimRow
    set_claim_status id status [] = []
    set_claim_status id status (c ∷ claims) =
        (if c.id == id then record c { validation_status = status } else c)
        ∷ set_claim_status id status claims

    unfoldable pub status_body :
        String → String → String → String → String → State V → Result MergeError (State V)
    unfolding fact_table set_status set_claim_status
    status_body fact_id fact_kind status actor comment s = do
      numeric ← fact_table fact_kind
      run begin_failed
      run status_failed
      run history_failed
      run commit_failed
      ok (record s {
        tables =
            if numeric
            then record s.tables { facts = set_status fact_id status s.tables.facts }
            else s.tables;
        claims = if numeric then s.claims else set_claim_status fact_id status s.claims;
        history =
            record {
              fact_kind = default_string fact_kind "numeric";
              fact_id = fact_id;
              actor = default_string actor "system";
              action = "status_changed";
              comment = comment;
            }
            ∷ s.history;
      })

    -- `UpdateFactStatus`
    unfoldable pub update_fact_status :
        String
        → String
        → String
        → String
        → String
        → State V
        → Result MergeError (Unit {0}) × State V
    unfolding settle status_body
    update_fact_status fact_id fact_kind status actor comment s =
        settle s (status_body fact_id fact_kind status actor comment s)

    -- `markDocFailedSQL`
    unfoldable pub set_failed : String → List DocumentRow → List DocumentRow
    set_failed id [] = []
    set_failed id (d ∷ documents) =
        (if d.id == id && not (d.status == "indexed") && not (d.status == "archived")
          then record d { status = "failed" }
          else d)
        ∷ set_failed id documents

    unfoldable pub failed_body : String → State V → Result MergeError (State V)
    unfolding set_failed
    failed_body document_id s = do
      run begin_failed
      run rls_failed
      run document_failed
      run commit_failed
      ok (record s {
        tables = record s.tables { documents = set_failed document_id s.tables.documents };
      })

    -- `MarkDocumentFailed`; the reason that goes into the metadata is left out.
    unfoldable pub mark_document_failed : String → State V → Result MergeError (Unit {0}) × State V
    unfolding settle failed_body
    mark_document_failed document_id s = settle s (failed_body document_id s)
