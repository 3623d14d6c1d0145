-- ===== src/Catalog/Store/Links.antt =====
-- What the tables of the catalog keep under a commit: keys are not repeated and references have rows.
use nornickel_hackathon.Prelude.{
  ℕ, String, Bool, true, false, ◌&&◌, ◌||◌, Option, none, some, List, [], ◌∷◌, ◌==◌, All, nat_eq,
  if◌then◌else◌, Assoc, Result, ok, err, >>=-eq_ok, ok-injective, ◌≡◌, refl, sym, ap, ◌∙◌, subst,
  arith, Bool-cases, inl, inr,
}
use nornickel_hackathon.Events.{Envelope}
use nornickel_hackathon.Catalog.Resolve.{Entity}
use nornickel_hackathon.Catalog.Store.{
  Step, StoreError, failed_at, write_alias, write_chunk, AliasRow, ChunkRow, ChunkInsert, FactRow,
  Tables, CommitCommand, Values, has_entity, has_alias, has_chunk, has_place, set_text,
  insert_entity, insert_alias, alias_row, note_remap, insert_entities, insert_chunk, insert_chunks,
  chunk_row, fact_row, refers, refers_chunk, commit_tx_body, settled, commit,
}
use nornickel_hackathon.Catalog.Store.Slugs.{HasIds, Grows, slug_of, slug_has, entity_lem}
use nornickel_hackathon.Catalog.Store.Commit.{Steps, body_Steps, facts_lem, Accepted, All-In}

map_All :
    {A : Type 0} (P Q : A → Type 0) (xs : List A) → ((x : A) → P x → Q x) → All P xs → All Q xs
map_All P Q [] f h = tt
map_All P Q (x ∷ xs) f h = (f x h.0, map_All P Q xs f h.1)

has_slug :
    (id : String) (entities : List Entity)
    → has_entity id entities ≡ true
    → (s : String) × (slug_of id entities ≡ some s)
unfolding has_entity
has_slug id [] h = absurd (ground arith)
has_slug id (e ∷ entities) h = elim (Bool-cases (e.id == id)) [
  | inl same ↦ (e.slug, rw same refl)
  | inr other ↦ let (s, m) = has_slug id entities (ground (arith, other, h)) in (s, rw other m)
]

pub Grows-has :
    {old new : List Entity}
    → Grows old new
    → (id : String) → has_entity id old ≡ true
    → has_entity id new ≡ true
Grows-has {old} {new} g id h = let (s, m) = has_slug id old h in slug_has id s new (g.slugs id s m)

abbrev AliasLinked : List Entity → AliasRow → Type 0
AliasLinked entities a = has_entity a.entity_id entities ≡ true

module _ (fails : Step → Bool) where
  alias_lem :
      (P : AliasRow → Type 0) (id : String) (e : Entity) (aliases aliases' : List AliasRow)
      → All P aliases
      → P (alias_row fails id e)
      → insert_alias fails id e aliases ≡ ok aliases'
      → All P aliases'
  unfolding insert_alias
  alias_lem P id e aliases aliases' h p m =
      go (fails (write_alias e.id)) (has_alias (alias_row fails id e) aliases) m
    where
      go :
          (b c : Bool)
          → (if b
              then err (failed_at (write_alias e.id))
              else ok (if c then aliases else alias_row fails id e ∷ aliases))
            ≡ ok aliases'
          → All P aliases'
      go true c m = cc
      go false true m = subst (All P) (ok-injective m) h
      go false false m = subst (All P) (ok-injective m) (p, h)

  entities_lem :
      (new : List Entity) (remap : Assoc String) (old : List Entity) (aliases : List AliasRow)
      {remap' : Assoc String} {entities : List Entity} {aliases' : List AliasRow}
      → HasIds old
      → All (AliasLinked old) aliases
      → insert_entities fails new remap old aliases ≡ ok (remap', entities, aliases')
      → Grows old entities × All (AliasLinked entities) aliases'
  unfolding insert_entities alias_row
  entities_lem [] remap old aliases {remap'} {entities} {aliases'} k a h =
      let t : old ≡ entities =
        ap (λ (x : Assoc String × List Entity × List AliasRow). x.1) (ok-injective h) in
      let l : aliases ≡ aliases' =
        ap (λ (x : Assoc String × List Entity × List AliasRow). x.2) (ok-injective h) in
      rw (sym t) (rw (sym l) (record { keys = k; slugs = λ i s q. q }, a))
  entities_lem (e ∷ new) remap old aliases {remap'} {entities} {aliases'} k a h =
      let ((actual, old'), ge, h1) = >>=-eq_ok (insert_entity fails e old) _ h in
      let (aliases1, ga, h2) = >>=-eq_ok (insert_alias fails actual e aliases) _ h1 in
      let (g, here) = entity_lem fails e old old' actual k ge in
      let linked =
        alias_lem (AliasLinked old') actual e aliases aliases1
          (map_All (AliasLinked old) (AliasLinked old') aliases (λ x m. Grows-has g x.entity_id m)
            a)
          (slug_has actual e.slug old' here) ga in
      let (g', l) =
        entities_lem new (note_remap e.id actual remap) old' aliases1 {remap' = remap'}
          {entities = entities} {aliases' = aliases'} g.keys linked h2 in
      (record { keys = g'.keys; slugs = λ i s q. g'.slugs i s (g.slugs i s q) }, l)

  set_text_has :
      (id : String) (c : ChunkRow) (chunks : List ChunkRow)
      → has_chunk id (set_text c chunks) ≡ has_chunk id chunks
  unfolding has_chunk set_text
  set_text_has id c [] = refl
  set_text_has id c (d ∷ chunks) =
      elim (Bool-cases (
        d.document_id == c.document_id
        && nat_eq d.version c.version
        && nat_eq d.ordinal c.ordinal)) [
          | inl e ↦ rw e (ap (λ (b : Bool). d.id == id || b) (set_text_has id c chunks))
          | inr e ↦ rw e (ap (λ (b : Bool). d.id == id || b) (set_text_has id c chunks))
        ]

  chunk_lem :
      (id : String) (c : ChunkRow) (chunks chunks' : List ChunkRow)
      → has_chunk id chunks ≡ true
      → insert_chunk fails c chunks ≡ ok chunks'
      → has_chunk id chunks' ≡ true
  unfolding insert_chunk
  chunk_lem id c chunks chunks' h m =
      go (fails (write_chunk c.id)) (has_place c chunks) (has_chunk c.id chunks) m
    where
      there : has_chunk id (c ∷ chunks) ≡ true
      there = ground (arith, h)

      go :
          (b p i : Bool)
          → (if b
              then err (failed_at (write_chunk c.id))
              else if p
              then ok (set_text c chunks)
              else if i
              then err (failed_at (write_chunk c.id))
              else ok (c ∷ chunks))
            ≡ ok chunks'
          → has_chunk id chunks' ≡ true
      go true p i m = cc
      go false true i m =
          subst (λ (x : List ChunkRow). has_chunk id x ≡ true) (ok-injective m)
            (set_text_has id c chunks ∙ h)
      go false false true m = cc
      go false false false m =
          subst (λ (x : List ChunkRow). has_chunk id x ≡ true) (ok-injective m) there

  chunks_lem :
      (id document_id : String) (version : ℕ) (inserts : List ChunkInsert)
      (chunks chunks' : List ChunkRow)
      → has_chunk id chunks ≡ true
      → insert_chunks fails document_id version inserts chunks ≡ ok chunks'
      → has_chunk id chunks' ≡ true
  unfolding insert_chunks
  chunks_lem id document_id version [] chunks chunks' h m =
      subst (λ (x : List ChunkRow). has_chunk id x ≡ true) (ok-injective m) h
  chunks_lem id document_id version (c ∷ inserts) chunks chunks' h m =
      let (chunks1, g, m1) =
        >>=-eq_ok (insert_chunk fails (chunk_row fails document_id version c) chunks) _ m in
      chunks_lem id document_id version inserts chunks1 chunks'
        (chunk_lem id (chunk_row fails document_id version c) chunks chunks1 h g) m1

module _ {V : Type 0} (values : Values V) (fails : Step → Bool) where
  -- The rows that a fact refers to are there.
  abbrev pub FactLinked : List Entity → List ChunkRow → FactRow V → Type 0
  FactLinked entities chunks f =
      (has_entity f.subject_id entities ≡ true)
      × (has_entity f.parameter_id entities ≡ true)
      × (refers_chunk chunks f.chunk_id ≡ true)

  refers_lem :
      (entities : List Entity) (chunks : List ChunkRow) (f : FactRow V)
      → refers values fails entities chunks f ≡ true
      → FactLinked entities chunks f
  unfolding refers
  refers_lem entities chunks f h = (ground (arith, h), ground (arith, h), ground (arith, h))

  -- The primary key of the entities holds, and each alias, and each fact's subject, parameter and chunk, has its row.
  abbrev pub IsLinked : Tables V → Type 0
  IsLinked t =
      HasIds t.entities
      × All (AliasLinked t.entities) t.aliases
      × All (FactLinked t.entities t.chunks) t.facts

  linked_grow :
      (old new : List Entity) (chunks chunks' : List ChunkRow) (f : FactRow V)
      → Grows old new
      → ((id : String) → has_chunk id chunks ≡ true → has_chunk id chunks' ≡ true)
      → FactLinked old chunks f
      → FactLinked new chunks' f
  unfolding refers_chunk
  linked_grow old new chunks chunks' f g c (s, p, k) =
      (Grows-has g f.subject_id s, Grows-has g f.parameter_id p, chunk f.chunk_id k)
    where
      chunk : (o : Option String) → refers_chunk chunks o ≡ true → refers_chunk chunks' o ≡ true
      chunk none k = refl
      chunk (some id) k = c id k

  module _ (encode : Envelope → List ℕ) (decode : List ℕ → Option Envelope)
      (parse_uuid : String → Option String) (trace : String) (cmd : CommitCommand V)
      (committed cluster_dirty : Envelope) (t : Tables V) where
    Steps-IsLinked :
        (t' : Tables V)
        → IsLinked t
        → Steps values fails encode decode parse_uuid trace cmd committed cluster_dirty t t'
        → IsLinked t'
    Steps-IsLinked t' (k, a, f) s =
        let (g, l) =
          entities_lem fails cmd.new_entities [] t.entities t.aliases k a s.entities_made in
        (
          g.keys,
          l,
          facts_lem values fails s.document s.remap t'.entities t'.chunks
              (FactLinked t'.entities t'.chunks) cmd.facts t.facts t'.facts
              (map_All (FactLinked t.entities t.chunks) (FactLinked t'.entities t'.chunks) t.facts
                (λ x. linked_grow t.entities t'.entities t.chunks t'.chunks x g (λ id h.
                  chunks_lem fails id s.document.id cmd.version cmd.chunks t.chunks t'.chunks h
                    s.chunks_made))
                f)
              (All-In
                (Accepted values fails s.document s.remap t'.entities t'.chunks
                  (FactLinked t'.entities t'.chunks))
                cmd.facts
                (λ x m r.
                  refers_lem t'.entities t'.chunks (fact_row values fails s.document s.remap x) r))
              s.facts_made,
        )

    -- Whether a commit succeeds or breaks off, the tables that it leaves have each identifier of an entity once, and a row for
    -- each entity and chunk that an alias or a fact refers to, if the tables before it had.
    pub commit-IsLinked :
        IsLinked t
        → IsLinked
            (commit values fails encode decode parse_uuid trace cmd committed cluster_dirty t).1
    unfolding commit settled
    commit-IsLinked h =
        go
          (commit_tx_body values fails encode decode parse_uuid trace cmd committed cluster_dirty t)
          refl
      where
        go :
            (r : Result StoreError (Tables V))
            → commit_tx_body values fails encode decode parse_uuid trace cmd committed cluster_dirty
                t
              ≡ r
            → IsLinked (settled values fails encode decode parse_uuid trace t r).1
        go (err e) m = h
        go (ok t') m = Steps-IsLinked t' h (
            body_Steps values fails encode decode parse_uuid trace cmd committed cluster_dirty t t'
              m)
