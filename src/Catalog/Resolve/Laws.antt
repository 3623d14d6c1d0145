-- ===== src/Catalog/Resolve/Laws.antt =====
-- The references of a commit: every fact points to an entity that is known or made with it.
use nornickel_hackathon.Prelude.{
  ℕ, String, true, ◌&&◌, ◌||◌, not, Option, none, some, List, [], ◌∷◌, ◌++◌, ◌==◌, eq_iff, eq_self,
  contains, lookup, insert, lookup-insert, Assoc, Result, ok, err, All, NoRepeats, ◌≡◌, refl, arith,
  Bool-cases, inl, inr, contains-append, subst,
}
use nornickel_hackathon.Catalog.Resolve.{
  Text, EntityError, Entity, BundleEntity, NumericCandidate, NumericFact, Resolver, default_string,
  normalize_name, new_entity, entity_type_and_name, add_entity, resolve_found, resolve_ref,
  resolve_entities, fact_of, with_parameter, with_subject, resolve_candidate, cons_some,
  resolve_facts, build_references, distinct_from, fact_refs, ids_of, entity_ids, validate_operator,
}

abbrev pub values_of : Assoc String → List String
values_of [] = []
values_of ((k, v) ∷ m) = v ∷ values_of m

-- The repository knows the identifier, or one of the new entities has it.
abbrev pub Exists : Assoc String → List Entity → String → Type 0
Exists resolved entities id =
    (contains (values_of resolved) id || contains (ids_of entities) id) ≡ true

value-contains :
    (k : String) (m : Assoc String) {v : String}
    → lookup k m ≡ some v
    → contains (values_of m) v ≡ true
value-contains k [] h = ground arith
value-contains k ((j, w) ∷ m) {v} h = ground (arith, eq_iff w v, value-contains k m {v = v})

ids_of-append : (xs ys : List Entity) → ids_of (xs ++ ys) ≡ ids_of xs ++ ids_of ys
ids_of-append [] ys = refl
ids_of-append (x ∷ xs) ys = rw (ids_of-append xs ys)

Exists-append :
    (resolved : Assoc String) (entities : List Entity) (e : Entity) (id : String)
    → Exists resolved entities id
    → Exists resolved (entities ++ e ∷ []) id
Exists-append resolved entities e id h =
    rw (ids_of-append entities (e ∷ []))
      (ground (arith, contains-append (ids_of entities) (e.id ∷ []) id))

Exists-last :
    (resolved : Assoc String) (entities : List Entity) (e : Entity)
    → Exists resolved (entities ++ e ∷ []) e.id
Exists-last resolved entities e =
    rw (ids_of-append entities (e ∷ []))
      (ground (arith, contains-append (ids_of entities) (e.id ∷ []) e.id, eq_self e.id))

-- Every identifier in the index exists.
pub record IsClosed (resolved : Assoc String) (s : Resolver) : Type 0 where
  pub at : (k id : String) → lookup k s.index ≡ some id → Exists resolved s.new_entities id

-- What a resolution keeps: the index stays closed, and what existed still exists.
pub record Keeps (resolved : Assoc String) (s t : Resolver) : Type 0 where
  pub closed : IsClosed resolved t
  pub grows : (id : String) → Exists resolved s.new_entities id → Exists resolved t.new_entities id

Keeps-refl : {resolved : Assoc String} {s : Resolver} → IsClosed resolved s → Keeps resolved s s
Keeps-refl c = record { closed = c; grows = λ id h. h }

Keeps-trans :
    {resolved : Assoc String} {s t u : Resolver}
    → Keeps resolved s t
    → Keeps resolved t u
    → Keeps resolved s u
Keeps-trans a b = record { closed = b.closed; grows = λ id h. b.grows id (a.grows id h) }

-- The reference that a resolution returns exists.
abbrev Points : Assoc String → Option String × Resolver → Type 0
Points resolved (none, t) = Unit
Points resolved (some id, t) = Exists resolved t.new_entities id

-- What holds of every value of a map, and of a new value, holds of the map with the new value.
insert-values :
    (P : String → Type 0) (m : Assoc String) (key v : String)
    → P v
    → ((k id : String) → lookup k m ≡ some id → P id)
    → (k id : String) → lookup k (insert key v m) ≡ some id
    → P id
insert-values P m key v pv h k id e = elim (Bool-cases (key == k)) [
  | inl same ↦ let found : v ≡ id = ground (arith, lookup-insert key k v m) in subst P found pv
  | inr other ↦ h k id (ground (arith, lookup-insert key k v m))
]

module _ (text : Text) (fresh : ℕ → String) (resolved : Assoc String) where
  add-Keeps :
      (key : String) (s : Resolver) (r : Result EntityError Entity)
      → IsClosed resolved s
      → Keeps resolved s (add_entity text fresh key s r).1
        × Points resolved (add_entity text fresh key s r)
  unfolding add_entity
  add-Keeps key s (err e) c = (Keeps-refl c, tt)
  add-Keeps key s (ok e) c = (
    record {
      closed = record {
        at =
            insert-values (Exists resolved (s.new_entities ++ e ∷ [])) (insert key e.id s.index)
              (normalize_name text fresh e.slug) e.id (Exists-last resolved s.new_entities e)
              (insert-values (Exists resolved (s.new_entities ++ e ∷ [])) s.index key e.id
                (Exists-last resolved s.new_entities e)
                (λ k id h. Exists-append resolved s.new_entities e id (c.at k id h)));
      };
      grows = λ id h. Exists-append resolved s.new_entities e id h;
    },
    Exists-last resolved s.new_entities e,
  )

  ref-Keeps :
      (name default_etype : String) (s : Resolver)
      → IsClosed resolved s
      → Keeps resolved s (resolve_ref text fresh name default_etype s).1
        × Points resolved (resolve_ref text fresh name default_etype s)
  unfolding resolve_ref resolve_found
  ref-Keeps name default_etype s c = go (lookup (normalize_name text fresh name) s.index) refl
    where
      go :
          (o : Option String)
          → lookup (normalize_name text fresh name) s.index ≡ o
          → Keeps resolved s (resolve_found text fresh name default_etype s o).1
            × Points resolved (resolve_found text fresh name default_etype s o)
      go (some id) e = (Keeps-refl c, c.at (normalize_name text fresh name) id e)
      go none e =
          let (etype, canonical) = entity_type_and_name text fresh default_etype name in
          add-Keeps (normalize_name text fresh name) s
            (new_entity text fresh s.made etype canonical "") c

  entities-Keeps :
      (entities : List BundleEntity) (s : Resolver)
      → IsClosed resolved s
      → Keeps resolved s (resolve_entities text fresh entities s)
  unfolding resolve_entities
  entities-Keeps [] s c = Keeps-refl c
  entities-Keeps (e ∷ entities) s c =
      let (k, p) = ref-Keeps (default_string e.name e.slug) (default_string e.typ e.etype) s c in
      Keeps-trans k (
        entities-Keeps entities
          (resolve_ref text fresh (default_string e.name e.slug) (default_string e.typ e.etype) s).1
          k.closed)

  abbrev FactPoints : {V : Type 0} → List Entity → Option (NumericFact V) → Type 0
  FactPoints entities none = Unit
  FactPoints entities (some f) =
      Exists resolved entities f.subject_id × Exists resolved entities f.parameter_id

  module _ {V : Type 0} (chunk_ids : Assoc String) (version : String) where
    parameter-Keeps :
        (c : NumericCandidate V) (subject : String) (s : Resolver) (r : Option String × Resolver)
        → Exists resolved s.new_entities subject
        → Keeps resolved s r.1
        → Points resolved r
        → Keeps resolved s (with_parameter text fresh chunk_ids version c subject r).1
          × FactPoints
              (with_parameter text fresh chunk_ids version c subject r).1.new_entities
              (with_parameter text fresh chunk_ids version c subject r).0
    unfolding with_parameter fact_of
    parameter-Keeps c subject s (none, t) h k p = (k, tt)
    parameter-Keeps c subject s (some parameter, t) h k p =
        (record { closed = record { at = k.closed.at }; grows = k.grows }, (k.grows subject h, p))

    subject-Keeps :
        (c : NumericCandidate V) (s : Resolver) (r : Option String × Resolver)
        → Keeps resolved s r.1
        → Points resolved r
        → Keeps resolved s (with_subject text fresh chunk_ids version c r).1
          × FactPoints
              (with_subject text fresh chunk_ids version c r).1.new_entities
              (with_subject text fresh chunk_ids version c r).0
    unfolding with_subject
    subject-Keeps c s (none, t) k p = (k, tt)
    subject-Keeps c s (some subject, t) k p =
        let (k', p') =
          ref-Keeps (default_string c.parameter c.parameter_slug) "parameter" t k.closed in
        let (k'', q) =
          parameter-Keeps c subject t
            (resolve_ref text fresh (default_string c.parameter c.parameter_slug) "parameter" t) p
            k' p' in
        (Keeps-trans k k'', q)

    candidate-Keeps :
        (c : NumericCandidate V) (s : Resolver)
        → IsClosed resolved s
        → Keeps resolved s (resolve_candidate text fresh chunk_ids version c s).1
          × FactPoints
              (resolve_candidate text fresh chunk_ids version c s).1.new_entities
              (resolve_candidate text fresh chunk_ids version c s).0
    unfolding resolve_candidate
    candidate-Keeps c s closed = elim (Bool-cases (validate_operator c.operator)) [
      | inl e ↦
          let (k, p) = ref-Keeps (default_string c.subject c.subject_slug) "process" s closed in
          rw e (
            subject-Keeps c s
              (resolve_ref text fresh (default_string c.subject c.subject_slug) "process" s) k p)
      | inr e ↦ rw e (Keeps-refl closed, tt)
    ]

    abbrev AllPoint : List Entity → List (NumericFact V) → Type 0
    AllPoint entities facts =
        All (λ f. Exists resolved entities f.subject_id × Exists resolved entities f.parameter_id)
          facts

    cons-AllPoint :
        (entities : List Entity) (o : Option (NumericFact V)) (facts : List (NumericFact V))
        → FactPoints entities o
        → AllPoint entities facts
        → AllPoint entities (cons_some text fresh chunk_ids version o facts)
    unfolding cons_some
    cons-AllPoint entities none facts p a = a
    cons-AllPoint entities (some f) facts p a = (p, a)

    FactPoints-grows :
        {s t : Resolver} (o : Option (NumericFact V))
        → Keeps resolved s t
        → FactPoints s.new_entities o
        → FactPoints t.new_entities o
    FactPoints-grows none k p = tt
    FactPoints-grows (some f) k p = (k.grows f.subject_id p.0, k.grows f.parameter_id p.1)

    facts-Keeps :
        (candidates : List (NumericCandidate V)) (s : Resolver)
        → IsClosed resolved s
        → let (facts, t) = resolve_facts text fresh chunk_ids version candidates s in
          Keeps resolved s t × AllPoint t.new_entities facts
    unfolding resolve_facts
    facts-Keeps [] s c = (Keeps-refl c, tt)
    facts-Keeps (x ∷ candidates) s c =
        let (k, p) = candidate-Keeps x s c in
        let one = resolve_candidate text fresh chunk_ids version x s in
        let (k', a) = facts-Keeps candidates one.1 k.closed in
        let rest = resolve_facts text fresh chunk_ids version candidates one.1 in
        (
          Keeps-trans k k',
          cons-AllPoint rest.1.new_entities one.0 rest.0 (FactPoints-grows one.0 k' p) a,
        )

    -- Each fact of a commit points, as its subject and as its parameter, to an entity that the
    -- repository knows or that is created by the same commit, whatever the bundle says.
    pub build_references-Exists :
        (entities : List BundleEntity) (candidates : List (NumericCandidate V))
        → let (facts, made) =
            build_references text fresh chunk_ids version resolved entities candidates in
          All (λ f. Exists resolved made f.subject_id × Exists resolved made f.parameter_id) facts
    unfolding build_references
    build_references-Exists entities candidates =
        let start : Resolver = record { index = resolved; new_entities = []; made = 0 } in
        let closed : IsClosed resolved start = record {
          at = λ k id h. ground (arith, value-contains k resolved h);
        } in
        (facts-Keeps candidates (resolve_entities text fresh entities start)
          (entities-Keeps entities start closed).closed).1

distinct_lem :
    (seen xs : List String) (x : String)
    → contains (distinct_from seen xs) x ≡ (not (contains seen x) && contains xs x)
unfolding distinct_from
distinct_lem seen [] x = ground arith
distinct_lem seen (y ∷ xs) x = elim (Bool-cases (contains seen y)) [
  | inl e ↦ rw e (ground (arith, e, eq_iff y x, distinct_lem seen xs x))
  | inr e ↦ rw e (ground (arith, e, eq_iff y x, distinct_lem (y ∷ seen) xs x))
]

distinct-NoRepeats : (seen xs : List String) → NoRepeats (distinct_from seen xs)
unfolding distinct_from
distinct-NoRepeats seen [] = tt
distinct-NoRepeats seen (y ∷ xs) = elim (Bool-cases (contains seen y)) [
  | inl e ↦ rw e (distinct-NoRepeats seen xs)
  | inr e ↦
      rw e (rw (distinct_lem (y ∷ seen) xs y, eq_self y) refl, distinct-NoRepeats (y ∷ seen) xs)
]

-- The entity identifiers of a commit are those of its new entities and of the subjects and
-- parameters of its facts, each once.
pub entity_ids_lem :
    {V : Type 0} (entities : List Entity) (facts : List (NumericFact V))
    → NoRepeats (entity_ids entities facts)
      × ((id : String)
          → contains (entity_ids entities facts) id
            ≡ (contains (ids_of entities) id || contains (fact_refs facts) id))
unfolding entity_ids
entity_ids_lem entities facts = (
  distinct-NoRepeats [] (ids_of entities ++ fact_refs facts),
  λ id.
      rw
        (
          distinct_lem [] (ids_of entities ++ fact_refs facts) id,
          contains-append (ids_of entities) (fact_refs facts) id,
        )
        refl,
)
