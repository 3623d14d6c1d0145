-- ===== src/Catalog/Merge/Self.antt =====
-- The merge of an entity into itself.
use nornickel_hackathon.Prelude.{
  String, Bool, true, false, ◌&&◌, ◌||◌, not, some, List, [], ◌∷◌, any, All, ◌==◌, eq_self, eq_iff,
  lookup, lookup-insert, ok, ◌≡◌, refl, sym, ap, ◌∙◌, arith, Bool-cases, inl, inr,
}
use nornickel_hackathon.Catalog.Resolve.{Entity, default_string}
use nornickel_hackathon.Catalog.Store.{AliasRow, FactRow, Values, has_entity}
use nornickel_hackathon.Catalog.Merge.{
  MergeError, begin_failed, entity_failed, alias_failed, subject_failed, parameter_failed,
  edge_failed, cleanup_failed, history_failed, commit_failed, State, src_side, dst_side,
  mark_merged, note_merged, same_alias, alias_taken, move_aliases, move_edges, cleanup_edges,
  with_subject, with_parameter, same_key, add_changed, update_facts, written, merge_body, settle,
  merge_entities,
}
use nornickel_hackathon.Catalog.Merge.Laws.{Spares, cleanup_Spares}

-- An entity with the identifier is marked as merged.
abbrev pub IsMarked : String → Entity → Type 0
IsMarked id e = (not (e.id == id) || e.status == "merged") ≡ true

marked_lem : (id : String) (entities : List Entity) → All (IsMarked id) (mark_merged id entities)
unfolding mark_merged
marked_lem id [] = tt
marked_lem id (e ∷ entities) = elim (Bool-cases (e.id == id)) [
  | inl same ↦ rw same (rw same refl, marked_lem id entities)
  | inr other ↦ rw other (rw other refl, marked_lem id entities)
]

no_other :
    (id : String) (a : AliasRow) (rows : List AliasRow)
    → (a.entity_id == id) ≡ true
    → any
        (λ (b : AliasRow). b.entity_id == id && not (b.entity_id == a.entity_id) && same_alias a b)
        rows
      ≡ false
no_other id a [] h = refl
no_other id a (b ∷ rows) h = ground (
  arith,
  no_other id a rows h,
  eq_iff b.entity_id id,
  eq_iff a.entity_id id,
  eq_iff b.entity_id a.entity_id,
  h,
)

not_taken : (id : String) (rows aliases : List AliasRow) → alias_taken id id rows aliases ≡ false
unfolding alias_taken
not_taken id rows [] = refl
not_taken id rows (a ∷ aliases) = elim (Bool-cases (a.entity_id == id)) [
  | inl e ↦ rw e (rw (no_other id a rows e) (not_taken id rows aliases))
  | inr e ↦ rw e (not_taken id rows aliases)
]

module _ {V : Type 0} (values : Values V) (visible : String → Bool) where
  -- No two facts have one natural key, as the unique constraint of the table asks.
  abbrev pub Keyed : List (FactRow V) → Type 0
  Keyed [] = Unit
  Keyed (f ∷ facts) = (any (same_key values visible f) facts ≡ false) × Keyed facts

  update_same :
      (change : FactRow V → FactRow V) (facts : List (FactRow V))
      → ((f : FactRow V) → change f ≡ f)
      → Keyed facts
      → update_facts values visible change facts ≡ some facts
  unfolding update_facts add_changed
  update_same change [] same keyed = refl
  update_same change (f ∷ facts) same keyed =
      rw (same f) (rw (update_same change facts same keyed.1) (rw keyed.0 refl))

  subject_same : (id : String) (f : FactRow V) → with_subject values visible id id f ≡ f
  unfolding with_subject
  subject_same id f = elim (Bool-cases (visible f.document_id && f.subject_id == id)) [
    | inl e ↦ rw e (
        ap (λ (x : String). record f { subject_id = x })
          (sym ((eq_iff f.subject_id id).0 (ground (arith, e)))))
    | inr e ↦ rw e refl
  ]

  parameter_same : (id : String) (f : FactRow V) → with_parameter values visible id id f ≡ f
  unfolding with_parameter
  parameter_same id f = elim (Bool-cases (visible f.document_id && f.parameter_id == id)) [
    | inl e ↦ rw e (
        ap (λ (x : String). record f { parameter_id = x })
          (sym ((eq_iff f.parameter_id id).0 (ground (arith, e)))))
    | inr e ↦ rw e refl
  ]

  -- What a merge of the entity into itself leaves.
  abbrev self_merged : String → String → String → State V → State V
  self_merged id actor comment s = record {
    tables = record s.tables {
      entities = mark_merged id s.tables.entities;
      aliases = move_aliases id id s.tables.aliases;
      edges =
          cleanup_edges id id
            (move_edges dst_side id id (move_edges src_side id id s.tables.edges));
    };
    claims = s.claims;
    merged_into = note_merged id id s.tables.entities s.merged_into;
    history =
        record {
          fact_kind = "entity";
          fact_id = id;
          actor = default_string actor "system";
          action = "merged";
          comment = comment;
        }
        ∷ s.history;
  }

  module _ (fails : MergeError → Bool) (works : (e : MergeError) → fails e ≡ false) where
    body_lem :
        (id actor comment : String) (s : State V)
        → has_entity id s.tables.entities ≡ true
        → Keyed s.tables.facts
        → merge_body values visible fails id id actor comment s
          ≡ ok (self_merged id actor comment s)
    unfolding merge_body written
    body_lem id actor comment s there keyed =
        rw
          (
            works begin_failed,
            works entity_failed,
            there,
            works alias_failed,
            not_taken id s.tables.aliases s.tables.aliases,
            works subject_failed,
            update_same (with_subject values visible id id) s.tables.facts (subject_same id) keyed,
            works parameter_failed,
            update_same (with_parameter values visible id id) s.tables.facts (parameter_same id)
                keyed,
            works edge_failed,
            works cleanup_failed,
            works history_failed,
            works commit_failed,
          )
          refl

    -- A merge of an entity that the table has into itself is not refused: where no statement breaks off, and no two facts
    -- have one natural key, it succeeds. The entity is then marked as merged, into itself, no edge names it any more,
    -- and the facts are as they were.
    pub self_merge :
        (id actor comment : String) (s : State V)
        → has_entity id s.tables.entities ≡ true
        → Keyed s.tables.facts
        → (s' : State V) × (merge_entities values visible fails id id actor comment s ≡ (ok tt, s'))
          × All (IsMarked id) s'.tables.entities
          × (lookup id s'.merged_into ≡ some id)
          × All (Spares id) s'.tables.edges
          × (s'.tables.facts ≡ s.tables.facts)
    unfolding merge_entities note_merged settle
    self_merge id actor comment s there keyed = (
      self_merged id actor comment s,
      rw (body_lem id actor comment s there keyed) refl,
      marked_lem id s.tables.entities,
      rw there (lookup-insert id id id s.merged_into ∙ rw (eq_self id) refl),
      cleanup_Spares id id _,
      refl,
    )
