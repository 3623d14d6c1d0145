-- ===== src/Catalog/Store/Stale.antt =====
-- New entities whose slug has a row: their identifiers stay without one, though `entity_ids` has them.
use nornickel_hackathon.Prelude.{
  ℕ, String, Bool, true, false, Option, none, some, List, [], ◌∷◌, contains, ◌==◌, eq_iff, eq_self,
  NoRepeats, All, if◌then◌else◌, Assoc, Result, ok, err, >>=-eq_ok, ok-injective, ◌≡◌, refl, sym,
  ap, ◌∙◌, subst, arith, Bool-cases, inl, inr,
}
use nornickel_hackathon.Events.{Envelope}
use nornickel_hackathon.Catalog.Resolve.{Entity, ids_of, entity_ids}
use nornickel_hackathon.Catalog.Store.{
  Step, StoreError, failed_at, write_entity, AliasRow, Tables, CommitCommand, Values, id_of_slug,
  has_entity, entity_row, insert_entity_on, insert_entity, insert_alias, note_remap,
  insert_entities, commit,
}
use nornickel_hackathon.Catalog.Store.Commit.{body_Steps, settled_lem, In, All-In}
use nornickel_hackathon.Catalog.Resolve.Laws.{entity_ids_lem}

taken_lem :
    (s id : String) (e : Entity) (entities : List Entity)
    → id_of_slug s entities ≡ some id
    → (e.slug == s) ≡ false
    → id_of_slug s (entity_row e ∷ entities) ≡ some id
unfolding id_of_slug entity_row
taken_lem s id e entities h m = rw m h

row_lem :
    (id : String) (e : Entity) (old : List Entity)
    → (e.id == id) ≡ false
    → has_entity id old ≡ false
    → has_entity id (entity_row e ∷ old) ≡ false
unfolding has_entity entity_row
row_lem id e old n m = ground (arith, n, m)

contains_ids : (e : Entity) (new : List Entity) → In e new → contains (ids_of new) e.id ≡ true
contains_ids e [] m = absurd m
contains_ids e (x ∷ new) (inl same) = rw same (rw (eq_self e.id) refl)
contains_ids e (x ∷ new) (inr m) = ground (arith, contains_ids e new m)

-- Where no identifier is repeated, the entities with one have its slug.
one_slug :
    (e : Entity) (new : List Entity)
    → NoRepeats (ids_of new)
    → In e new
    → All (λ (x : Entity). x.id ≡ e.id → x.slug ≡ e.slug) new
one_slug e [] n m = tt
one_slug e (x ∷ new) n (inl same) = (
  λ k. ap (λ (y : Entity). y.slug) same,
  All-In (λ (y : Entity). y.id ≡ e.id → y.slug ≡ e.slug) new
      (λ y m k. absurd (
        ground (
          arith,
          n.0,
          contains_ids y new m,
          ap (contains (ids_of new)) (k ∙ sym (ap (λ (z : Entity). z.id) same)),
        ))),
)
one_slug e (x ∷ new) n (inr m) = (
  λ k. absurd (ground (arith, n.0, contains_ids e new m, ap (contains (ids_of new)) k)),
  one_slug e new n.1 m,
)

module _ (fails : Step → Bool) where
  -- An insertion of an entity leaves an identifier without a row where only a taken slug could give it one.
  stale_one :
      (id s other : String) (e : Entity) (old new : List Entity) (actual : String)
      → (e.id ≡ id → e.slug ≡ s)
      → id_of_slug s old ≡ some other
      → has_entity id old ≡ false
      → insert_entity fails e old ≡ ok (actual, new)
      → (id_of_slug s new ≡ some other) × (has_entity id new ≡ false)
  unfolding insert_entity insert_entity_on
  stale_one id s other e old new actual only h m g =
      go (fails (write_entity e.id)) (id_of_slug e.slug old) refl (has_entity e.id old) g
    where
      fresh : id_of_slug e.slug old ≡ none → (e.slug == s) ≡ false
      fresh n = elim (Bool-cases (e.slug == s)) [
        | inl same ↦
            let bad : ◌≡◌ {A = Option String} none (some other) =
              sym n ∙ ap (λ (x : String). id_of_slug x old) ((eq_iff e.slug s).0 same) ∙ h in
            cc
        | inr apart ↦ apart
      ]

      unlike : (e.slug == s) ≡ false → (e.id == id) ≡ false
      unlike n = elim (Bool-cases (e.id == id)) [
        | inl same ↦
            absurd (ground (arith, n, (eq_iff e.slug s).1 (only ((eq_iff e.id id).0 same))))
        | inr apart ↦ apart
      ]

      go :
          (b : Bool) (o : Option String)
          → id_of_slug e.slug old ≡ o
          → (t : Bool)
          → (if b
              then err (failed_at (write_entity e.id))
              else (elim o as (λ x. Result StoreError (String × List Entity)) [
                | some x ↦ ok (x, old)
                | none ↦
                    if t then err (failed_at (write_entity e.id)) else ok (e.id, entity_row e ∷ old)
              ]))
            ≡ ok (actual, new)
          → (id_of_slug s new ≡ some other) × (has_entity id new ≡ false)
      go true o n t g = cc
      go false (some x) n t g =
          subst (λ (es : List Entity). (id_of_slug s es ≡ some other) × (has_entity id es ≡ false))
            (ap (λ (r : String × List Entity). r.1) (ok-injective g)) (h, m)
      go false none n true g = cc
      go false none n false g =
          subst (λ (es : List Entity). (id_of_slug s es ≡ some other) × (has_entity id es ≡ false))
            (ap (λ (r : String × List Entity). r.1) (ok-injective g))
            (taken_lem s other e old h (fresh n), row_lem id e old (unlike (fresh n)) m)

  stale_entities :
      (id s other : String) (new : List Entity) (remap : Assoc String) (old : List Entity)
      (aliases : List AliasRow) {remap' : Assoc String} {entities : List Entity}
      {aliases' : List AliasRow}
      → All (λ (x : Entity). x.id ≡ id → x.slug ≡ s) new
      → id_of_slug s old ≡ some other
      → has_entity id old ≡ false
      → insert_entities fails new remap old aliases ≡ ok (remap', entities, aliases')
      → has_entity id entities ≡ false
  unfolding insert_entities
  stale_entities id s other [] remap old aliases {remap'} {entities} {aliases'} a h m g =
      subst (λ (es : List Entity). has_entity id es ≡ false)
        (ap (λ (x : Assoc String × List Entity × List AliasRow). x.1) (ok-injective g)) m
  stale_entities id s other (e ∷ new) remap old aliases {remap'} {entities} {aliases'} a h m g =
      let ((actual, old'), ge, g1) = >>=-eq_ok (insert_entity fails e old) _ g in
      let (aliases1, ga, g2) = >>=-eq_ok (insert_alias fails actual e aliases) _ g1 in
      let (h', m') = stale_one id s other e old old' actual a.0 h m ge in
      stale_entities id s other new (note_remap e.id actual remap) old' aliases1 {remap' = remap'}
        {entities = entities} {aliases' = aliases'} a.1 h' m' g2

module _ {V : Type 0} (values : Values V) (fails : Step → Bool) where
  module _ (encode : Envelope → List ℕ) (decode : List ℕ → Option Envelope)
      (parse_uuid : String → Option String) (trace : String) (cmd : CommitCommand V)
      (committed cluster_dirty : Envelope) (t : Tables V) where
    pub stale_row :
        (e : Entity) (other : String) (t' : Tables V)
        → In e cmd.new_entities
        → NoRepeats (ids_of cmd.new_entities)
        → id_of_slug e.slug t.entities ≡ some other
        → has_entity e.id t.entities ≡ false
        → commit values fails encode decode parse_uuid trace cmd committed cluster_dirty t
          ≡ (ok tt, t')
        → (has_entity e.id t'.entities ≡ false)
          × (contains (entity_ids cmd.new_entities cmd.facts) e.id ≡ true)
    unfolding commit
    stale_row e other t' m n h k g =
        let s =
          body_Steps values fails encode decode parse_uuid trace cmd committed cluster_dirty t t' (
            settled_lem values fails encode decode parse_uuid trace cmd committed cluster_dirty t _
              t' g) in
        (
          stale_entities fails e.id e.slug other cmd.new_entities [] t.entities t.aliases
              (one_slug e cmd.new_entities n m) h k s.entities_made,
          (entity_ids_lem cmd.new_entities cmd.facts).1 e.id
              ∙ rw (contains_ids e cmd.new_entities m) refl,
        )
