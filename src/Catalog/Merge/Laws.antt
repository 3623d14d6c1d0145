-- ===== src/Catalog/Merge/Laws.antt =====
-- The merge of two entities: what refers to the merged one afterwards, and what the merge does not reach.
use nornickel_hackathon.Prelude.{
  String, Bool, true, false, ◌&&◌, ◌||◌, not, Option, none, some, List, [], ◌∷◌, any, keep, All,
  ◌==◌, if◌then◌else◌, Result, ok, err, >>=-eq_ok, ok-injective, fail_if, ◌≡◌, refl, sym, ap, ◌∙◌,
  subst, arith, Bool-cases, inl, inr,
}
use nornickel_hackathon.Catalog.Store.{AliasRow, EdgeRow, FactRow, Values, has_entity}
use nornickel_hackathon.Catalog.Merge.{
  MergeError, begin_failed, entity_failed, alias_failed, subject_failed, parameter_failed,
  edge_failed, cleanup_failed, history_failed, commit_failed, State, src_side, dst_side,
  mark_merged, note_merged, alias_taken, move_aliases, move_edges, cleanup_edges, with_subject,
  with_parameter, same_key, add_changed, update_facts, written, run, merge_body, settle,
  merge_entities,
}

-- The edge does not name the entity.
abbrev pub Spares : String → EdgeRow → Type 0
Spares id e = (e.src == id || e.dst == id) ≡ false

pub cleanup_Spares :
    (id into : String) (edges : List EdgeRow) → All (Spares id) (cleanup_edges id into edges)
unfolding cleanup_edges
cleanup_Spares id into [] = tt
cleanup_Spares id into (e ∷ edges) =
    elim (Bool-cases (e.src == id || e.dst == id || (e.src == into && e.dst == into))) [
      | inl out ↦ rw out (cleanup_Spares id into edges)
      | inr stays ↦ rw stays (ground (arith, stays), cleanup_Spares id into edges)
    ]

aliases_moved :
    (id into : String) (aliases : List AliasRow)
    → (into == id) ≡ false
    → All (λ (a : AliasRow). (a.entity_id == id) ≡ false) (move_aliases id into aliases)
unfolding move_aliases
aliases_moved id into [] n = tt
aliases_moved id into (a ∷ aliases) n = elim (Bool-cases (a.entity_id == id)) [
  | inl e ↦ rw e (n, aliases_moved id into aliases n)
  | inr e ↦ rw e (e, aliases_moved id into aliases n)
]

module _ {V : Type 0} (values : Values V) (visible : String → Bool) where
  -- The facts that the row security hides from the session.
  abbrev pub hidden : List (FactRow V) → List (FactRow V)
  hidden facts = keep (λ f. not (visible f.document_id)) facts

  -- A fact that the session sees does not refer to the entity.
  abbrev pub Free : String → FactRow V → Type 0
  Free id f = (visible f.document_id && (f.subject_id == id || f.parameter_id == id)) ≡ false

  add_lem :
      (f : FactRow V) (o : Option (List (FactRow V))) {facts : List (FactRow V)}
      → add_changed values visible f o ≡ some facts
      → (rows : List (FactRow V)) × (o ≡ some rows) × (facts ≡ f ∷ rows)
  unfolding add_changed
  add_lem f none h = cc
  add_lem f (some rows) {facts} h = go (any (same_key values visible f) rows) h
    where
      go :
          (b : Bool)
          → (if b then none else some (f ∷ rows)) ≡ some facts
          → (r : List (FactRow V)) × (◌≡◌ {A = Option (List (FactRow V))} (some rows) (some r))
            × (facts ≡ f ∷ r)
      go true h = cc
      go false h = (rows, refl, cc)

  -- An update that keeps each fact's document and that, of the hidden ones, writes none.
  update_hidden :
      (change : FactRow V → FactRow V) (facts after : List (FactRow V))
      → ((f : FactRow V) → (change f).document_id ≡ f.document_id)
      → ((f : FactRow V) → visible f.document_id ≡ false → change f ≡ f)
      → update_facts values visible change facts ≡ some after
      → hidden after ≡ hidden facts
  unfolding update_facts
  update_hidden change [] after d w h = let m : [] ≡ after = cc in rw (sym m) refl
  update_hidden change (f ∷ facts) after d w h =
      let (rows, e, m) = add_lem (change f) (update_facts values visible change facts) h in
      rw m (
        rw (d f) (elim (Bool-cases (visible f.document_id)) [
          | inl seen ↦ rw seen (update_hidden change facts rows d w e)
          | inr unseen ↦ rw unseen (
              rw (w f unseen)
                (ap (λ (r : List (FactRow V)). f ∷ r) (update_hidden change facts rows d w e)))
        ]))

  update_All :
      (change : FactRow V → FactRow V) (P Q : FactRow V → Type 0) (facts after : List (FactRow V))
      → ((f : FactRow V) → P f → Q (change f))
      → All P facts
      → update_facts values visible change facts ≡ some after
      → All Q after
  unfolding update_facts
  update_All change P Q [] after c p h = let m : [] ≡ after = cc in subst (All Q) m tt
  update_All change P Q (f ∷ facts) after c p h =
      let (rows, e, m) = add_lem (change f) (update_facts values visible change facts) h in
      subst (All Q) (sym m) (c f p.0, update_All change P Q facts rows c p.1 e)

  abbrev SubjectFree : String → FactRow V → Type 0
  SubjectFree id f = (visible f.document_id && f.subject_id == id) ≡ false

  subject_lem :
      (id into : String) (f : FactRow V)
      → (into == id) ≡ false
      → SubjectFree id (with_subject values visible id into f)
  unfolding with_subject
  subject_lem id into f n = elim (Bool-cases (visible f.document_id && f.subject_id == id)) [
    | inl e ↦ rw e (rw n (ground arith))
    | inr e ↦ rw e e
  ]

  parameter_lem :
      (id into : String) (f : FactRow V)
      → (into == id) ≡ false
      → SubjectFree id f
      → Free id (with_parameter values visible id into f)
  unfolding with_parameter
  parameter_lem id into f n s = elim (Bool-cases (visible f.document_id && f.parameter_id == id)) [
    | inl e ↦ rw e (ground (arith, n, s))
    | inr e ↦ rw e (ground (arith, e, s))
  ]

  subject_kept :
      (id into : String) (f : FactRow V)
      → ((with_subject values visible id into f).document_id ≡ f.document_id)
        × (visible f.document_id ≡ false → with_subject values visible id into f ≡ f)
  unfolding with_subject
  subject_kept id into f = elim (Bool-cases (visible f.document_id && f.subject_id == id)) [
    | inl e ↦ rw e (refl, λ h. absurd (ground (arith, e, h)))
    | inr e ↦ rw e (refl, λ h. refl)
  ]

  parameter_kept :
      (id into : String) (f : FactRow V)
      → ((with_parameter values visible id into f).document_id ≡ f.document_id)
        × (visible f.document_id ≡ false → with_parameter values visible id into f ≡ f)
  unfolding with_parameter
  parameter_kept id into f = elim (Bool-cases (visible f.document_id && f.parameter_id == id)) [
    | inl e ↦ rw e (refl, λ h. absurd (ground (arith, e, h)))
    | inr e ↦ rw e (refl, λ h. refl)
  ]

  written_lem :
      (e : MergeError) (o : Option (List (FactRow V))) {facts : List (FactRow V)}
      → written values visible e o ≡ ok facts
      → o ≡ some facts
  unfolding written
  written_lem e none h = cc
  written_lem e (some x) h = cc

  trivial_All : (facts : List (FactRow V)) → All (λ (f : FactRow V). Unit {0}) facts
  trivial_All [] = tt
  trivial_All (f ∷ facts) = (tt, trivial_All facts)

  module _ (fails : MergeError → Bool) (id into actor comment : String) (s : State V) where
    pub record Merged (s' : State V) : Type 0 where
      pub between : List (FactRow V)
      pub subjects :
          update_facts values visible (with_subject values visible id into) s.tables.facts
          ≡ some between
      pub parameters :
          update_facts values visible (with_parameter values visible id into) between
          ≡ some s'.tables.facts
      pub aliases : s'.tables.aliases ≡ move_aliases id into s.tables.aliases
      pub entities : s'.tables.entities ≡ mark_merged id s.tables.entities
      pub edges :
          s'.tables.edges
          ≡ cleanup_edges id into
              (move_edges dst_side id into (move_edges src_side id into s.tables.edges))
      pub merged_into : s'.merged_into ≡ note_merged id into s.tables.entities s.merged_into

    pub body_Merged :
        (s' : State V) → merge_body values visible fails id into actor comment s ≡ ok s' → Merged s'
    unfolding merge_body
    body_Merged s' h =
        let (u1, g1, h1) = >>=-eq_ok (run values visible fails begin_failed) _ h in
        let (u2, g2, h2) =
          >>=-eq_ok
            (fail_if
              (fails entity_failed
                || (has_entity id s.tables.entities && not (has_entity into s.tables.entities)))
              entity_failed)
            _ h1 in
        let (u3, g3, h3) =
          >>=-eq_ok
            (fail_if (fails alias_failed || alias_taken id into s.tables.aliases s.tables.aliases)
              alias_failed)
            _ h2 in
        let (u4, g4, h4) = >>=-eq_ok (run values visible fails subject_failed) _ h3 in
        let (facts, gf, h5) =
          >>=-eq_ok
            (written values visible subject_failed
              (update_facts values visible (with_subject values visible id into) s.tables.facts))
            _ h4 in
        let (u5, g5, h6) = >>=-eq_ok (run values visible fails parameter_failed) _ h5 in
        let (facts', gg, h7) =
          >>=-eq_ok
            (written values visible parameter_failed
              (update_facts values visible (with_parameter values visible id into) facts))
            _ h6 in
        let (u6, g6, h8) = >>=-eq_ok (run values visible fails edge_failed) _ h7 in
        let (u7, g7, h9) = >>=-eq_ok (run values visible fails cleanup_failed) _ h8 in
        let (u8, g8, h10) = >>=-eq_ok (run values visible fails history_failed) _ h9 in
        let (u9, g9, h11) = >>=-eq_ok (run values visible fails commit_failed) _ h10 in
        subst Merged (ok-injective h11) (record {
          between = facts;
          subjects = written_lem subject_failed _ gf;
          parameters = written_lem parameter_failed _ gg;
          aliases = refl;
          entities = refl;
          edges = refl;
          merged_into = refl;
        })

    pub settle_lem :
        (r : Result MergeError (State V)) (s' : State V)
        → settle values visible fails s r ≡ (ok tt, s')
        → r ≡ ok s'
    unfolding settle
    settle_lem (err e) s' h =
        let m : ◌≡◌ {A = Result MergeError (Unit {0})} (err e) (ok tt) =
          ap (λ (r : Result MergeError (Unit {0}) × State V). r.0) h in
        cc
    settle_lem (ok x) s' h = ap (λ (r : Result MergeError (Unit {0}) × State V). ok r.1) h

    -- After a merge that succeeds, no alias, no edge and no fact that the session sees refers to the merged entity, the two
    -- entities being different; the facts that row security hides from the session are as they were.
    pub merge_moves :
        (s' : State V)
        → (into == id) ≡ false
        → merge_entities values visible fails id into actor comment s ≡ (ok tt, s')
        → All (λ (a : AliasRow). (a.entity_id == id) ≡ false) s'.tables.aliases
          × All (Spares id) s'.tables.edges
          × All (Free id) s'.tables.facts
          × (hidden s'.tables.facts ≡ hidden s.tables.facts)
    unfolding merge_entities
    merge_moves s' n h =
        let m = body_Merged s' (settle_lem _ s' h) in
        (
          subst (All (λ (a : AliasRow). (a.entity_id == id) ≡ false)) (sym m.aliases)
              (aliases_moved id into s.tables.aliases n),
          subst (All (Spares id)) (sym m.edges) (cleanup_Spares id into _),
          update_All (with_parameter values visible id into) (SubjectFree id) (Free id) m.between
              s'.tables.facts (λ f. parameter_lem id into f n)
              (update_All (with_subject values visible id into) (λ f. Unit {0}) (SubjectFree id)
                s.tables.facts m.between (λ f u. subject_lem id into f n)
                (trivial_All s.tables.facts) m.subjects)
              m.parameters,
          update_hidden (with_parameter values visible id into) m.between s'.tables.facts
                (λ f. (parameter_kept id into f).0) (λ f. (parameter_kept id into f).1) m.parameters
              ∙ update_hidden (with_subject values visible id into) s.tables.facts m.between
                  (λ f. (subject_kept id into f).0) (λ f. (subject_kept id into f).1) m.subjects,
        )
