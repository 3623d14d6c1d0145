-- ===== src/Catalog/Store/Slugs.antt =====
-- The insertion of new entities: the identifier that `remapID` gives belongs to the row with the slug.
use nornickel_hackathon.Prelude.{
  String, Bool, true, false, ◌&&◌, not, Option, none, some, List, [], ◌∷◌, contains, ◌==◌, eq_iff,
  eq_self, NoRepeats, All, if◌then◌else◌, lookup, lookup-insert, Assoc, Result, ok, err, >>=-eq_ok,
  ok-injective, ◌≡◌, refl, sym, ap, ◌∙◌, subst, arith, Bool-cases, inl, inr,
}
use nornickel_hackathon.Catalog.Resolve.{Entity, ids_of}
use nornickel_hackathon.Catalog.Store.{
  Step, StoreError, failed_at, write_entity, AliasRow, id_of_slug, has_entity, entity_row,
  actual_or, remap_id, insert_entity_on, insert_entity, insert_alias, note_remap, insert_entities,
}

-- The slug of the row that an identifier has.
abbrev pub slug_of : String → List Entity → Option String
slug_of id [] = none
slug_of id (e ∷ entities) = if e.id == id then some e.slug else slug_of id entities

-- The primary key of the entities.
abbrev pub HasIds : List Entity → Type 0
HasIds [] = Unit
HasIds (e ∷ entities) = (has_entity e.id entities ≡ false) × HasIds entities

pub slug_has :
    (id s : String) (entities : List Entity)
    → slug_of id entities ≡ some s
    → has_entity id entities ≡ true
unfolding has_entity
slug_has id s [] h = cc
slug_has id s (e ∷ entities) h = elim (Bool-cases (e.id == id)) [
  | inl same ↦ rw same refl
  | inr other ↦ rw other (slug_has id s entities (ground (arith, other, h)))
]

found_has :
    (s id : String) (entities : List Entity)
    → id_of_slug s entities ≡ some id
    → has_entity id entities ≡ true
unfolding has_entity id_of_slug
found_has s id [] h = cc
found_has s id (e ∷ entities) h = elim (Bool-cases (e.slug == s)) [
  | inl same ↦ let m : e.id ≡ id = ground (arith, same, h) in rw m (rw (eq_self id) refl)
  | inr other ↦ ground (arith, found_has s id entities (ground (arith, other, h)))
]

found_slug :
    (s id : String) (entities : List Entity)
    → HasIds entities
    → id_of_slug s entities ≡ some id
    → slug_of id entities ≡ some s
unfolding id_of_slug
found_slug s id [] k h = cc
found_slug s id (e ∷ entities) k h = elim (Bool-cases (e.slug == s)) [
  | inl same ↦
      let m : e.id ≡ id = ground (arith, same, h) in
      rw m (rw (eq_self id) (ap some ((eq_iff e.slug s).0 same)))
  | inr other ↦
      let m : id_of_slug s entities ≡ some id = ground (arith, other, h) in
      rest m (found_slug s id entities k.1 m)
]
  where
    rest :
        id_of_slug s entities ≡ some id
        → slug_of id entities ≡ some s
        → slug_of id (e ∷ entities) ≡ some s
    rest m n = elim (Bool-cases (e.id == id)) [
      | inl same ↦ absurd (
          ground (
            arith,
            k.0,
            found_has s id entities m,
            ap (λ (x : String). has_entity x entities) ((eq_iff e.id id).0 same),
          ))
      | inr other ↦ rw other n
    ]

-- What an insertion keeps: the primary key, and the slug of each row.
pub record Grows (old new : List Entity) : Type 0 where
  pub keys : HasIds new
  pub slugs : (id s : String) → slug_of id old ≡ some s → slug_of id new ≡ some s

module _ (fails : Step → Bool) where
  on_lem :
      (e : Entity) (entities entities' : List Entity) (actual : String) (o : Option String)
      → id_of_slug e.slug entities ≡ o
      → HasIds entities
      → insert_entity_on fails e entities o ≡ ok (actual, entities')
      → Grows entities entities' × (slug_of actual entities' ≡ some e.slug)
  unfolding insert_entity_on entity_row
  on_lem e entities entities' actual (some id) m k h =
      let same : id ≡ actual = ap (λ (r : String × List Entity). r.0) (ok-injective h) in
      let table : entities ≡ entities' = ap (λ (r : String × List Entity). r.1) (ok-injective h) in
      subst (λ (es : List Entity). Grows entities es × (slug_of actual es ≡ some e.slug)) table
        (
          record { keys = k; slugs = λ i s q. q },
          found_slug e.slug actual entities k (m ∙ ap some same),
        )
  on_lem e entities entities' actual none m k h = elim (Bool-cases (has_entity e.id entities)) [
    | inl taken ↦
        let bad : ◌≡◌ {A = Result StoreError (String × List Entity)}
            (err (failed_at (write_entity e.id))) (ok (actual, entities')) =
          sym (rw taken refl) ∙ h in
        cc
    | inr fresh ↦
        let done : ◌≡◌ {A = Result StoreError (String × List Entity)}
            (ok (e.id, entity_row e ∷ entities)) (ok (actual, entities')) =
          sym (rw fresh refl) ∙ h in
        let same : e.id ≡ actual = ap (λ (r : String × List Entity). r.0) (ok-injective done) in
        let table : (entity_row e ∷ entities) ≡ entities' =
          ap (λ (r : String × List Entity). r.1) (ok-injective done) in
        subst (λ (es : List Entity). Grows entities es × (slug_of actual es ≡ some e.slug)) table
          (
            record { keys = (fresh, k); slugs = λ i s q. older i s q fresh },
            rw (sym same) (rw (eq_self e.id) refl),
          )
  ]
    where
      older :
          (i s : String)
          → slug_of i entities ≡ some s
          → has_entity e.id entities ≡ false
          → slug_of i (entity_row e ∷ entities) ≡ some s
      older i s q fresh = elim (Bool-cases (e.id == i)) [
        | inl same ↦ absurd (
            ground (
              arith,
              fresh,
              slug_has i s entities q,
              ap (λ (x : String). has_entity x entities) ((eq_iff e.id i).0 same),
            ))
        | inr other ↦ rw other q
      ]

  pub entity_lem :
      (e : Entity) (entities entities' : List Entity) (actual : String)
      → HasIds entities
      → insert_entity fails e entities ≡ ok (actual, entities')
      → Grows entities entities' × (slug_of actual entities' ≡ some e.slug)
  unfolding insert_entity
  entity_lem e entities entities' actual k h = elim (Bool-cases (fails (write_entity e.id))) [
    | inl bad ↦
        let m : ◌≡◌ {A = Result StoreError (String × List Entity)}
            (err (failed_at (write_entity e.id))) (ok (actual, entities')) =
          sym (rw bad refl) ∙ h in
        cc
    | inr good ↦
        on_lem e entities entities' actual (id_of_slug e.slug entities) refl k
          (sym (rw good refl) ∙ h)
  ]

note_lem :
    (a actual id : String) (remap : Assoc String)
    → lookup id (note_remap a actual remap)
      ≡ (if not (actual == a) && a == id then some actual else lookup id remap)
unfolding note_remap
note_lem a actual id remap = elim (Bool-cases (actual == a)) [
  | inl e ↦ rw e refl
  | inr e ↦ rw e (lookup-insert a id actual remap)
]

pub note_self :
    (a actual : String) (remap : Assoc String)
    → lookup a remap ≡ none
    → remap_id (note_remap a actual remap) a ≡ actual
unfolding remap_id actual_or
note_self a actual remap h =
    ap (actual_or a) (note_lem a actual a remap) ∙ elim (Bool-cases (actual == a)) [
      | inl e ↦ rw e (rw h (sym ((eq_iff actual a).0 e)))
      | inr e ↦ rw e (rw (eq_self a) refl)
    ]

pub apart :
    (a b : String) (xs : List String)
    → contains xs a ≡ false
    → contains xs b ≡ true
    → (a == b) ≡ false
apart a b xs h m = elim (Bool-cases (a == b)) [
  | inl e ↦ absurd (ground (arith, h, m, ap (contains xs) ((eq_iff a b).0 e)))
  | inr e ↦ e
]

pub note_other :
    (a actual id : String) (remap : Assoc String)
    → (a == id) ≡ false
    → lookup id (note_remap a actual remap) ≡ lookup id remap
note_other a actual id remap e = note_lem a actual id remap ∙ ground (arith, e)

-- No identifier of the new entities has been remapped.
abbrev pub Fresh : List Entity → Assoc String → Type 0
Fresh new remap = (id : String) → contains (ids_of new) id ≡ true → lookup id remap ≡ none

pub remap_same :
    (remap remap' : Assoc String) (id : String)
    → lookup id remap ≡ lookup id remap'
    → remap_id remap id ≡ remap_id remap' id
unfolding remap_id
remap_same remap remap' id h = ap (actual_or id) h

-- Each new entity is stored as the row with its slug.
abbrev pub Placed : Assoc String → List Entity → List Entity → Type 0
Placed remap entities new =
    All (λ (e : Entity). slug_of (remap_id remap e.id) entities ≡ some e.slug) new

pub record Inserted (new : List Entity) (remap : Assoc String) (old : List Entity)
    (remap' : Assoc String) (entities : List Entity) : Type 0 where
  pub grows : Grows old entities
  pub others : (id : String) → contains (ids_of new) id ≡ false → lookup id remap' ≡ lookup id remap
  pub placed : Placed remap' entities new

module _ (fails : Step → Bool) where
  pub insert_entities_lem :
      (new : List Entity) (remap : Assoc String) (old : List Entity) (aliases : List AliasRow)
      {remap' : Assoc String} {entities : List Entity} {aliases' : List AliasRow}
      → HasIds old
      → NoRepeats (ids_of new)
      → Fresh new remap
      → insert_entities fails new remap old aliases ≡ ok (remap', entities, aliases')
      → Inserted new remap old remap' entities
  unfolding insert_entities
  insert_entities_lem [] remap old aliases {remap'} {entities} k n f h =
      let r : remap ≡ remap' =
        ap (λ (x : Assoc String × List Entity × List AliasRow). x.0) (ok-injective h) in
      let t : old ≡ entities =
        ap (λ (x : Assoc String × List Entity × List AliasRow). x.1) (ok-injective h) in
      rw (sym r) (
        rw (sym t) (record {
          grows = record { keys = k; slugs = λ i s q. q };
          others = λ id m. refl;
          placed = tt;
        }))
  insert_entities_lem (e ∷ new) remap old aliases {remap'} {entities} k n f h =
      let ((actual, old'), ge, h1) = >>=-eq_ok (insert_entity fails e old) _ h in
      let (aliases', ga, h2) = >>=-eq_ok (insert_alias fails actual e aliases) _ h1 in
      let (g, here) = entity_lem fails e old old' actual k ge in
      let rest =
        insert_entities_lem new (note_remap e.id actual remap) old' aliases' {remap' = remap'}
          {entities = entities} g.keys n.1
          (λ id m.
            note_other e.id actual id remap (apart e.id id (ids_of new) n.0 m)
            ∙ f id (ground (arith, m)))
          h2 in
      record {
        grows = record {
          keys = rest.grows.keys;
          slugs = λ i s q. rest.grows.slugs i s (g.slugs i s q);
        };
        others = λ id m.
            rest.others id (ground (arith, m))
            ∙ note_other e.id actual id remap (ground (arith, m));
        placed = (
          head_lem (rest.others e.id n.0)
              (note_self e.id actual remap (f e.id (ground (arith, eq_self e.id))))
              (rest.grows.slugs actual e.slug here),
          rest.placed,
        );
      }
    where
      head_lem :
          {actual : String}
          → lookup e.id remap' ≡ lookup e.id (note_remap e.id actual remap)
          → remap_id (note_remap e.id actual remap) e.id ≡ actual
          → slug_of actual entities ≡ some e.slug
          → slug_of (remap_id remap' e.id) entities ≡ some e.slug
      head_lem same mapped here = rw (remap_same remap' _ e.id same) (rw mapped here)
