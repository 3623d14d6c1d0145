-- ===== src/Catalog/Store/Inserts.antt =====
-- The insertion of new entities where no statement breaks off and their identifiers have no rows.
use nornickel_hackathon.Prelude.{
  String, Bool, true, false, ◌||◌, Option, none, some, List, [], ◌∷◌, contains, ◌==◌, eq_iff,
  NoRepeats, All, if◌then◌else◌, lookup, Assoc, Result, ok, err, ◌≡◌, refl, subst, arith,
  Bool-cases, inl, inr,
}
use nornickel_hackathon.Catalog.Resolve.{Entity, ids_of}
use nornickel_hackathon.Catalog.Store.{
  Step, StoreError, failed_at, write_entity, write_alias, AliasRow, id_of_slug, has_entity,
  entity_row, actual_or, remap_id, insert_entity_on, insert_entity, insert_alias, note_remap,
  insert_entities,
}
use nornickel_hackathon.Catalog.Store.Slugs.{slug_has, Inserted, Placed}
use nornickel_hackathon.Catalog.Store.Links.{Grows-has}

-- The identifiers of the new entities have no rows.
abbrev pub Unused : List Entity → List Entity → Type 0
Unused old new = All (λ (e : Entity). has_entity e.id old ≡ false) new

abbrev pub succeeded : {E A : Type 0} → Result E A → Bool
succeeded (ok a) = true
succeeded (err e) = false

pub result_lem : {E A : Type 0} (r : Result E A) → succeeded r ≡ true → (a : A) × (r ≡ ok a)
result_lem (ok a) h = (a, refl)
result_lem (err e) h = absurd (ground (arith, h))

row_apart :
    (id : String) (e : Entity) (old : List Entity)
    → (e.id == id) ≡ false
    → has_entity id old ≡ false
    → has_entity id (entity_row e ∷ old) ≡ false
unfolding has_entity entity_row
row_apart id e old n m = ground (arith, n, m)

module _ (fails : Step → Bool) (works : (s : Step) → fails s ≡ false) where
  -- What a successful insertion does to the other identifiers.
  abbrev Spared : Entity → List Entity → List Entity → Type 0
  Spared e old new =
      (id : String) → (e.id == id) ≡ false → has_entity id old ≡ false → has_entity id new ≡ false

  entity_succeeds :
      (e : Entity) (old : List Entity)
      → has_entity e.id old ≡ false
      → (actual : String) × (new : List Entity) × (insert_entity fails e old ≡ ok (actual, new))
        × Spared e old new
  unfolding insert_entity insert_entity_on
  entity_succeeds e old fresh = rw (works (write_entity e.id)) (go (id_of_slug e.slug old))
    where
      go :
          (o : Option String)
          → (actual : String) × (new : List Entity) × ((elim o
                as (λ x. Result StoreError (String × List Entity)) [
                  | some x ↦ ok (x, old)
                  | none ↦
                      if has_entity e.id old
                      then err (failed_at (write_entity e.id))
                      else ok (e.id, entity_row e ∷ old)
                ])
              ≡ ok (actual, new))
            × Spared e old new
      go (some x) = (x, old, refl, (λ id n m. m))
      go none = (e.id, entity_row e ∷ old, rw fresh refl, (λ id n m. row_apart id e old n m))

  alias_succeeds :
      (id : String) (e : Entity) (aliases : List AliasRow)
      → (aliases' : List AliasRow) × (insert_alias fails id e aliases ≡ ok aliases')
  unfolding insert_alias
  alias_succeeds id e aliases =
      result_lem (insert_alias fails id e aliases) (rw (works (write_alias e.id)) refl)

  still-Unused :
      (e : Entity) (old old' : List Entity) (new : List Entity)
      → Spared e old old'
      → contains (ids_of new) e.id ≡ false
      → Unused old new
      → Unused old' new
  still-Unused e old old' [] spared n u = tt
  still-Unused e old old' (x ∷ new) spared n u = (
    spared x.id (ground (arith, n, eq_iff x.id e.id, eq_iff e.id x.id)) u.0,
    still-Unused e old old' new spared (ground (arith, n)) u.1,
  )

  pub entities_succeed :
      (new : List Entity) (remap : Assoc String) (old : List Entity) (aliases : List AliasRow)
      → NoRepeats (ids_of new)
      → Unused old new
      → (remap' : Assoc String) × (entities : List Entity) × (aliases' : List AliasRow)
        × (insert_entities fails new remap old aliases ≡ ok (remap', entities, aliases'))
  unfolding insert_entities
  entities_succeed [] remap old aliases n u = (remap, old, aliases, refl)
  entities_succeed (e ∷ new) remap old aliases n u =
      let (actual, old', inserted, spared) = entity_succeeds e old u.0 in
      let (aliases', named) = alias_succeeds actual e aliases in
      let (remap', entities, all, rest) =
        entities_succeed new (note_remap e.id actual remap) old' aliases' n.1
          (still-Unused e old old' new spared n.0 u.1) in
      (remap', entities, all, rw inserted (rw named rest))

  -- An identifier that is a new entity's or has a row stands, once it is replaced, for a row.
  pub actual_there :
      (new old entities : List Entity) (remap : Assoc String) (id : String)
      → Inserted new [] old remap entities
      → (contains (ids_of new) id || has_entity id old) ≡ true
      → has_entity (remap_id remap id) entities ≡ true
  unfolding remap_id actual_or
  actual_there new old entities remap id i h = elim (Bool-cases (contains (ids_of new) id)) [
    | inl named ↦ placed new i.placed named
    | inr other ↦
        let same : remap_id remap id ≡ id = kept (i.others id other) in
        rw same (Grows-has i.grows id (ground (arith, h, other)))
  ]
    where
      placed :
          (es : List Entity)
          → Placed remap entities es
          → contains (ids_of es) id ≡ true
          → has_entity (remap_id remap id) entities ≡ true
      placed [] p m = absurd (ground (arith, m))
      placed (e ∷ es) p m = elim (Bool-cases (e.id == id)) [
        | inl same ↦
            subst (λ (x : String). has_entity (remap_id remap x) entities ≡ true)
              ((eq_iff e.id id).0 same) (slug_has (remap_id remap e.id) e.slug entities p.0)
        | inr apart ↦ placed es p.1 (ground (arith, m, apart))
      ]

      kept : lookup id remap ≡ none → remap_id remap id ≡ id
      kept m = rw m refl
