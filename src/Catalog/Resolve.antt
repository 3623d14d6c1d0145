-- ===== src/Catalog/Resolve.antt =====
-- `buildCommand` of internal/catalog/app/service.go: the names in an extraction bundle become
-- references to entities, and those that nobody knows yet become new entities (domain/entity.go).
--
-- The functions of Go's strings package that the names go through are the fields of `Text`, and the
-- generator of identifiers is `fresh`, which gives the n-th one and does not fail. The numbers,
-- units and quotes of a candidate are carried along as they are, as a value of the type `V`.
pub mod Laws
use nornickel_hackathon.Prelude.{
  ℕ, zero, suc, ◌+◌, String, Bool, true, false, ◌&&◌, ◌||◌, not, Option, none, some, List, [], ◌∷◌,
  ◌++◌, map, ◌==◌, if◌then◌else◌, contains, lookup, insert, Assoc, Result, ok, err,
}
use Prim.Native.String.{◌++◌ as append}
use nornickel_hackathon.Auth.Signed.{join}

pub record Text : Type 0 where
  pub trim_space : String → String
  pub to_lower : String → String
  -- FieldsFunc at what is neither a letter nor a number
  pub fields : String → List String
  -- strings.Cut at a colon; `none` where there is none
  pub cut_colon : String → Option (String × String)
  -- ReplaceAll of a dash by a space
  pub undash : String → String

pub data EntityError : Type 0 where
  unknown_entity_type name_required unknown_operator : EntityError

abbrev pub valid_entity_types : List String
valid_entity_types =
    "material" ∷ "process" ∷ "equipment" ∷ "property" ∷ "parameter" ∷ "technology" ∷ "experiment"
    ∷ "publication" ∷ "person" ∷ "lab" ∷ "org" ∷ "geography" ∷ "topic" ∷ "economic_indicator"
    ∷ "climate" ∷ "facility" ∷ []

abbrev pub valid_operators : List String
valid_operators =
    "eq" ∷ "lt" ∷ "lte" ∷ "gt" ∷ "gte" ∷ "range" ∷ "approx" ∷ "from" ∷ "to" ∷ "pm" ∷ []

pub record Entity : Type 0 where
  pub id : String
  pub etype : String
  pub canonical_name : String
  pub canonical_name_en : String
  pub slug : String
  pub status : String
  pub created_by : String

pub record BundleEntity : Type 0 where
  pub typ : String
  pub etype : String
  pub slug : String
  pub name : String

pub record NumericCandidate (V : Type 0) : Type 0 where
  pub subject : String
  pub subject_slug : String
  pub parameter : String
  pub parameter_slug : String
  pub operator : String
  pub extraction_method : String
  pub extractor_version : String
  pub chunk_id : String
  pub relation : String
  pub values : V

pub record NumericFact (V : Type 0) : Type 0 where
  pub id : String
  pub subject_id : String
  pub parameter_id : String
  pub chunk_id : Option String
  pub relation : String
  pub operator : String
  pub extraction_method : String
  pub extractor_version : String
  pub values : V

abbrev pub default_string : String → String → String
default_string value fallback = if value == "" then fallback else value

unfoldable pub validate_operator : String → Bool
validate_operator op = contains valid_operators op

-- What `resolveRef` closes over; `made` counts the identifiers that were generated.
pub record Resolver : Type 0 where
  pub index : Assoc String
  pub new_entities : List Entity
  pub made : ℕ

module _ (text : Text) (fresh : ℕ → String) where
  open text use {trim_space, to_lower, fields, cut_colon, undash}

  unfoldable pub normalize_name : String → String
  normalize_name name = to_lower (trim_space name)

  unfoldable pub slugify : String → String → String
  slugify name etype = append (append (to_lower etype) ":") (to_lower (join "-" (fields name)))

  unfoldable pub new_entity : ℕ → String → String → String → Result EntityError Entity
  new_entity n etype name name_en =
      if not (contains valid_entity_types etype)
      then err unknown_entity_type
      else if trim_space name == ""
      then err name_required
      else ok (record {
        id = fresh n;
        etype = etype;
        canonical_name = trim_space name;
        canonical_name_en = trim_space name_en;
        slug = slugify (trim_space name) etype;
        status = "pending_review";
        created_by = "extract";
      })

  unfoldable pub type_and_name : String → String → Option (String × String) → String × String
  type_and_name default_etype ref none = (default_etype, ref)
  type_and_name default_etype ref (some (before, after)) =
      if not (before == "") && not (after == "")
      then (before, undash after)
      else (default_etype, ref)

  unfoldable pub entity_type_and_name : String → String → String × String
  unfolding type_and_name
  entity_type_and_name default_etype ref = type_and_name default_etype ref (cut_colon ref)

  -- The end of `resolveRef`, on the entity that was made for the name.
  unfoldable pub add_entity :
      String → Resolver → Result EntityError Entity → Option String × Resolver
  add_entity key s (err e) = (none, s)
  add_entity key s (ok entity) = (
    some entity.id,
    record {
      index = insert (normalize_name entity.slug) entity.id (insert key entity.id s.index);
      new_entities = s.new_entities ++ entity ∷ [];
      made = suc s.made;
    },
  )

  unfoldable pub resolve_found :
      String → String → Resolver → Option String → Option String × Resolver
  unfolding add_entity
  resolve_found name default_etype s (some id) = (some id, s)
  resolve_found name default_etype s none =
      let (etype, canonical) = entity_type_and_name default_etype name in
      add_entity (normalize_name name) s (new_entity s.made etype canonical "")

  -- `resolveRef`; `none` is its error, which no caller reads.
  unfoldable pub resolve_ref : String → String → Resolver → Option String × Resolver
  unfolding resolve_found
  resolve_ref name default_etype s =
      resolve_found name default_etype s (lookup (normalize_name name) s.index)

  -- The loop over the entities of the bundle. The source looks a name up before it calls
  -- `resolveRef`, which makes the same lookup first.
  unfoldable pub resolve_entities : List BundleEntity → Resolver → Resolver
  unfolding resolve_ref
  resolve_entities [] s = s
  resolve_entities (e ∷ entities) s =
      resolve_entities entities
        (resolve_ref (default_string e.name e.slug) (default_string e.typ e.etype) s).1

  module _ {V : Type 0} (chunk_ids : Assoc String) (bundle_version : String) where
    -- The fact of a candidate whose references are resolved.
    unfoldable pub fact_of : NumericCandidate V → String → String → String → NumericFact V
    fact_of c id subject parameter = record {
      id = id;
      subject_id = subject;
      parameter_id = parameter;
      chunk_id = lookup c.chunk_id chunk_ids;
      relation = default_string c.relation "operates_at";
      operator = c.operator;
      extraction_method = default_string c.extraction_method "deterministic";
      extractor_version = default_string c.extractor_version bundle_version;
      values = c.values;
    }

    unfoldable pub with_parameter :
        NumericCandidate V → String → Option String × Resolver → Option (NumericFact V) × Resolver
    with_parameter c subject (none, s) = (none, s)
    with_parameter c subject (some parameter, s) =
        (some (fact_of c (fresh s.made) subject parameter), record s { made = suc s.made })

    unfoldable pub with_subject :
        NumericCandidate V → Option String × Resolver → Option (NumericFact V) × Resolver
    unfolding with_parameter
    with_subject c (none, s) = (none, s)
    with_subject c (some subject, s) =
        with_parameter c subject
          (resolve_ref (default_string c.parameter c.parameter_slug) "parameter" s)

    -- One round of the loop over the candidates; `none` is a candidate that is skipped.
    unfoldable pub resolve_candidate :
        NumericCandidate V → Resolver → Option (NumericFact V) × Resolver
    unfolding with_subject
    resolve_candidate c s =
        if validate_operator c.operator
        then with_subject c (resolve_ref (default_string c.subject c.subject_slug) "process" s)
        else (none, s)

    unfoldable pub cons_some : Option (NumericFact V) → List (NumericFact V) → List (NumericFact V)
    cons_some none facts = facts
    cons_some (some f) facts = f ∷ facts

    unfoldable pub resolve_facts :
        List (NumericCandidate V) → Resolver → List (NumericFact V) × Resolver
    unfolding resolve_candidate cons_some
    resolve_facts [] s = ([], s)
    resolve_facts (c ∷ candidates) s =
        let (fact, s') = resolve_candidate c s in
        let (facts, s'') = resolve_facts candidates s' in (cons_some fact facts, s'')

    -- The references of a bundle, from what the repository knows: the facts and the new entities.
    unfoldable pub build_references :
        Assoc String
        → List BundleEntity
        → List (NumericCandidate V)
        → List (NumericFact V) × List Entity
    unfolding resolve_entities resolve_facts
    build_references resolved entities candidates =
        let s =
          resolve_entities entities (record { index = resolved; new_entities = []; made = 0 }) in
        let (facts, s') = resolve_facts candidates s in (facts, s'.new_entities)

-- The loop of `EntityIDs` and of `clusterKeys`: each text once, at its first place.
unfoldable pub distinct_from : List String → List String → List String
distinct_from seen [] = []
distinct_from seen (x ∷ xs) =
    let rest = distinct_from (if contains seen x then seen else x ∷ seen) xs in
    if contains seen x then rest else x ∷ rest

abbrev pub fact_refs : {V : Type 0} → List (NumericFact V) → List String
fact_refs [] = []
fact_refs (f ∷ facts) = f.subject_id ∷ f.parameter_id ∷ fact_refs facts

abbrev pub ids_of : List Entity → List String
ids_of [] = []
ids_of (e ∷ entities) = e.id ∷ ids_of entities

-- `EntityIDs`
unfoldable pub entity_ids : {V : Type 0} → List Entity → List (NumericFact V) → List String
unfolding distinct_from
entity_ids entities facts = distinct_from [] (ids_of entities ++ fact_refs facts)
