-- ===== src/Catalog/Store/Unique.antt =====
-- The insertion of new entities against the unique slugs of the table.
use nornickel_hackathon.Prelude.{
  String, Bool, true, false, Option, none, some, List, [], ◌∷◌, ◌==◌, eq_iff, eq_self, NoRepeats,
  All, if◌then◌else◌, lookup, Assoc, Result, ok, err, >>=-eq_ok, ok-injective, ◌≡◌, refl, sym, ap,
  ◌∙◌, subst, arith, Bool-cases, inl, inr,
}
use nornickel_hackathon.Catalog.Resolve.{Entity, ids_of}
use nornickel_hackathon.Catalog.Store.{
  Step, StoreError, failed_at, write_entity, AliasRow, id_of_slug, has_entity, entity_row, remap_id,
  insert_entity_on, insert_entity, insert_alias, note_remap, insert_entities,
}
use nornickel_hackathon.Catalog.Store.Slugs.{
  HasIds, Fresh, entity_lem, insert_entities_lem, note_self, note_other, apart, remap_same,
}

-- The unique constraint on the slugs of the entities.
abbrev pub HasSlugs : List Entity → Type 0
HasSlugs [] = Unit
HasSlugs (e ∷ entities) = (id_of_slug e.slug entities ≡ none) × HasSlugs entities

-- Each slug that has a row keeps this row.
abbrev pub Keeps : List Entity → List Entity → Type 0
Keeps old new = (s id : String) → id_of_slug s old ≡ some id → id_of_slug s new ≡ some id

-- Each new entity is stored as the one row that has its slug.
abbrev pub Stored : Assoc String → List Entity → List Entity → Type 0
Stored remap entities new =
    All (λ (e : Entity). id_of_slug e.slug entities ≡ some (remap_id remap e.id)) new

added :
    (e : Entity) (old : List Entity)
    → id_of_slug e.slug old ≡ none
    → HasSlugs old
    → HasSlugs (entity_row e ∷ old)
      × Keeps old (entity_row e ∷ old)
      × (id_of_slug e.slug (entity_row e ∷ old) ≡ some e.id)
unfolding id_of_slug entity_row
added e old n h = ((n, h), (λ s id k. kept s id k), rw (eq_self e.slug) refl)
  where
    kept :
        (s id : String)
        → id_of_slug s old ≡ some id
        → (if e.slug == s then some e.id else id_of_slug s old) ≡ some id
    kept s id k = elim (Bool-cases (e.slug == s)) [
      | inl same ↦
          let bad : ◌≡◌ {A = Option String} none (some id) =
            sym n ∙ ap (λ (x : String). id_of_slug x old) ((eq_iff e.slug s).0 same) ∙ k in
          absurd (none_some bad)
      | inr other ↦ rw other k
    ]
      where
        none_some : {x : String} → ◌≡◌ {A = Option String} none (some x) → ⊥
        none_some h = cc

module _ (fails : Step → Bool) where
  entity_unique :
      (e : Entity) (old new : List Entity) (actual : String)
      → HasSlugs old
      → insert_entity fails e old ≡ ok (actual, new)
      → HasSlugs new × Keeps old new × (id_of_slug e.slug new ≡ some actual)
  unfolding insert_entity insert_entity_on
  entity_unique e old new actual h g =
      go (fails (write_entity e.id)) (id_of_slug e.slug old) refl (has_entity e.id old) g
    where
      go :
          (b : Bool) (o : Option String)
          → id_of_slug e.slug old ≡ o
          → (t : Bool)
          → (if b
              then err (failed_at (write_entity e.id))
              else (elim o as (λ x. Result StoreError (String × List Entity)) [
                | some x ↦ ok (x, old)
                | none ↦
                    if t then err (failed_at (write_entity e.id)) else ok (e.id, entity_row e ∷ old)
              ]))
            ≡ ok (actual, new)
          → HasSlugs new × Keeps old new × (id_of_slug e.slug new ≡ some actual)
      go true o n t g = cc
      go false (some x) n t g =
          let same : x ≡ actual = ap (λ (r : String × List Entity). r.0) (ok-injective g) in
          subst
            (λ (es : List Entity).
              HasSlugs es × Keeps old es × (id_of_slug e.slug es ≡ some actual))
            (ap (λ (r : String × List Entity). r.1) (ok-injective g))
            (h, (λ s id k. k), n ∙ ap some same)
      go false none n true g = cc
      go false none n false g =
          let same : e.id ≡ actual = ap (λ (r : String × List Entity). r.0) (ok-injective g) in
          let (a, b, c) = added e old n h in
          subst
            (λ (es : List Entity).
              HasSlugs es × Keeps old es × (id_of_slug e.slug es ≡ some actual))
            (ap (λ (r : String × List Entity). r.1) (ok-injective g)) (a, b, c ∙ ap some same)

  pub entities_unique :
      (new : List Entity) (remap : Assoc String) (old : List Entity) (aliases : List AliasRow)
      {remap' : Assoc String} {entities : List Entity} {aliases' : List AliasRow}
      → HasIds old
      → HasSlugs old
      → NoRepeats (ids_of new)
      → Fresh new remap
      → insert_entities fails new remap old aliases ≡ ok (remap', entities, aliases')
      → HasSlugs entities × Keeps old entities × Stored remap' entities new
  unfolding insert_entities
  entities_unique [] remap old aliases {remap'} {entities} k u n f h =
      subst (λ (es : List Entity). HasSlugs es × Keeps old es × Unit {0})
        (ap (λ (x : Assoc String × List Entity × List AliasRow). x.1) (ok-injective h))
        (u, (λ s id q. q), tt)
  entities_unique (e ∷ new) remap old aliases {remap'} {entities} k u n f h =
      let ((actual, old'), ge, h1) = >>=-eq_ok (insert_entity fails e old) _ h in
      let (aliases', ga, h2) = >>=-eq_ok (insert_alias fails actual e aliases) _ h1 in
      let (g, here) = entity_lem fails e old old' actual k ge in
      let (u', kept, mine) = entity_unique e old old' actual u ge in
      let fresh : Fresh new (note_remap e.id actual remap) = λ id m.
        note_other e.id actual id remap (apart e.id id (ids_of new) n.0 m)
        ∙ f id (ground (arith, m)) in
      let rest =
        insert_entities_lem fails new (note_remap e.id actual remap) old' aliases' {remap' = remap'}
          {entities = entities} g.keys n.1 fresh h2 in
      let (u'', kept', stored) =
        entities_unique new (note_remap e.id actual remap) old' aliases' {remap' = remap'}
          {entities = entities} g.keys u' n.1 fresh h2 in
      (
        u'',
        (λ s id q. kept' s id (kept s id q)),
        (
          head_lem (rest.others e.id n.0)
              (note_self e.id actual remap (f e.id (ground (arith, eq_self e.id))))
              (kept' e.slug actual mine),
          stored,
        ),
      )
    where
      head_lem :
          {actual : String}
          → lookup e.id remap' ≡ lookup e.id (note_remap e.id actual remap)
          → remap_id (note_remap e.id actual remap) e.id ≡ actual
          → id_of_slug e.slug entities ≡ some actual
          → id_of_slug e.slug entities ≡ some (remap_id remap' e.id)
      head_lem same mapped here = here ∙ ap some (sym mapped ∙ sym (remap_same remap' _ e.id same))
