-- ===== src/Catalog/Store/Success.antt =====
-- A commit on tables that no step fails on: which conditions are enough for it to come to its end.
use nornickel_hackathon.Prelude.{
  ℕ, String, Bool, true, false, ◌||◌, Option, some, List, [], ◌∷◌, any, contains, eq_self,
  NoRepeats, All, if◌then◌else◌, Assoc, Result, ok, ◌≡◌, refl, arith,
}
use nornickel_hackathon.Events.{Envelope, marshal_envelope}
use nornickel_hackathon.Outbox.{Row, append_record, append_parsed, append_payload}
use nornickel_hackathon.Catalog.Resolve.{Entity, NumericFact, ids_of}
use nornickel_hackathon.Catalog.Store.{
  Step, StoreError, write_fact, begin_tx, set_rls, take_lock, read_document, write_edges,
  write_status, append_committed, append_dirty, commit_tx, DocumentRow, ChunkRow, FactRow, Tables,
  CommitCommand, Values, find_document, found_document, has_entity, insert_chunks, fact_row,
  conflicts, refers, refers_chunk, set_indexed, recompute_edges, pairs_of, insert_fact,
  insert_facts, append_event, appended, commit_tx_body, settled, commit,
}
use nornickel_hackathon.Catalog.Store.Slugs.{HasIds, Inserted, insert_entities_lem, Placed}
use nornickel_hackathon.Catalog.Store.Inserts.{Unused, result_lem, entities_succeed, actual_there}

module _ {V : Type 0} (values : Values V) (fails : Step → Bool)
    (works : (s : Step) → fails s ≡ false) where
  -- The table has a row with the identifier or the natural key of the fact.
  abbrev pub IsStored : DocumentRow → Assoc String → List (FactRow V) → NumericFact V → Type 0
  IsStored document remap facts f =
      any (conflicts values fails (fact_row values fails document remap f)) facts ≡ true

  conflicts_self : (f : FactRow V) → conflicts values fails f f ≡ true
  unfolding conflicts
  conflicts_self f = rw (eq_self f.id) refl

  fact_succeeds :
      (entities : List Entity) (chunks : List ChunkRow) (f : FactRow V) (old : List (FactRow V))
      → refers values fails entities chunks f ≡ true
      → (facts : List (FactRow V)) × (insert_fact values fails entities chunks f old ≡ ok facts)
        × (any (conflicts values fails f) facts ≡ true)
        × ((p : FactRow V → Bool) → any p old ≡ true → any p facts ≡ true)
  unfolding insert_fact
  fact_succeeds entities chunks f old there =
      rw (works (write_fact f.id), there) (go (any (conflicts values fails f) old) refl)
    where
      go :
          (b : Bool)
          → any (conflicts values fails f) old ≡ b
          → (facts : List (FactRow V)) × (◌≡◌ {A = Result StoreError (List (FactRow V))}
              (if b then ok old else ok (f ∷ old))
              (ok facts))
            × (any (conflicts values fails f) facts ≡ true)
            × ((p : FactRow V → Bool) → any p old ≡ true → any p facts ≡ true)
      go true e = (old, refl, e, (λ p h. h))
      go false e = (f ∷ old, refl, rw (conflicts_self f) refl, (λ p h. ground (arith, h)))

  facts_succeed :
      (document : DocumentRow) (remap : Assoc String) (entities : List Entity)
      (chunks : List ChunkRow) (new : List (NumericFact V)) (old : List (FactRow V))
      → All
          (λ (f : NumericFact V).
            refers values fails entities chunks (fact_row values fails document remap f) ≡ true)
          new
      → (facts : List (FactRow V)) × (insert_facts values fails document remap entities chunks new
            old
          ≡ ok facts)
        × All (IsStored document remap facts) new
        × ((p : FactRow V → Bool) → any p old ≡ true → any p facts ≡ true)
  unfolding insert_facts
  facts_succeed document remap entities chunks [] old h = (old, refl, tt, (λ p m. m))
  facts_succeed document remap entities chunks (f ∷ new) old h =
      let (old', done, here, grows) =
        fact_succeeds entities chunks (fact_row values fails document remap f) old h.0 in
      let (facts, rest, stored, grows') =
        facts_succeed document remap entities chunks new old' h.1 in
      (
        facts,
        rw done rest,
        (grows' (conflicts values fails (fact_row values fails document remap f)) here, stored),
        (λ p m. grows' p (grows p m)),
      )

  -- The subject and the parameter of a fact are each a new entity of the command or have a row, and its chunk
  -- is among the chunks.
  abbrev pub Known : CommitCommand V → List Entity → List ChunkRow → NumericFact V → Type 0
  Known cmd entities chunks f =
      ((contains (ids_of cmd.new_entities) f.subject_id || has_entity f.subject_id entities) ≡ true)
      × ((contains (ids_of cmd.new_entities) f.parameter_id || has_entity f.parameter_id entities)
          ≡ true)
      × (refers_chunk chunks f.chunk_id ≡ true)

  module _ (encode : Envelope → List ℕ) (decode : List ℕ → Option Envelope)
      (parse_uuid : String → Option String) (trace : String) where
    -- The envelope passes the validation, and its identifier is a UUID.
    abbrev pub Sendable : Envelope → Type 0
    Sendable env =
        (id : String) × (raw : List ℕ) × (parse_uuid env.id ≡ some id)
        × (marshal_envelope encode decode env ≡ ok raw)

    event_succeeds :
        (s : Step) (aggregate document_id : String) (env : Envelope) (rows : List Row)
        → Sendable env
        → (rows' : List Row) × (append_event values fails encode decode parse_uuid trace s aggregate
              document_id env rows
            ≡ ok rows')
    unfolding append_event append_record append_parsed append_payload appended
    event_succeeds s aggregate document_id env rows (id, raw, h, k) =
        result_lem
          (append_event values fails encode decode parse_uuid trace s aggregate document_id env
            rows)
          (rw h (rw k (rw (works s) refl)))

    Known-refers :
        (cmd : CommitCommand V) (document : DocumentRow) (remap : Assoc String)
        (old entities : List Entity) (chunks : List ChunkRow) (new : List (NumericFact V))
        → Inserted cmd.new_entities [] old remap entities
        → All (Known cmd old chunks) new
        → All
            (λ (f : NumericFact V).
              refers values fails entities chunks (fact_row values fails document remap f) ≡ true)
            new
    unfolding refers fact_row
    Known-refers cmd document remap old entities chunks [] i h = tt
    Known-refers cmd document remap old entities chunks (f ∷ new) i (k, rest) = (
      rw (actual_there fails works cmd.new_entities old entities remap f.subject_id i k.0) (
          rw (actual_there fails works cmd.new_entities old entities remap f.parameter_id i k.1)
            (rw k.2 refl)),
      Known-refers cmd document remap old entities chunks new i rest,
    )

    -- A commit comes to its end where no statement breaks off, the document has a row, the identifiers of the new
    -- entities are different and have no rows, the chunks can be stored, the two events can be sent, and the subject and the parameter of
    -- each fact are new entities or have rows, whether or not the slug of a new entity has another row. Each new
    -- entity then is the row with its slug, and the table has each fact, with its references replaced, or one with the same key.
    pub commit_succeeds :
        (cmd : CommitCommand V) (committed dirty : Envelope) (t : Tables V) (document : DocumentRow)
        (chunks : List ChunkRow)
        → HasIds t.entities
        → find_document cmd.document_id t.documents ≡ some document
        → NoRepeats (ids_of cmd.new_entities)
        → Unused t.entities cmd.new_entities
        → insert_chunks fails document.id cmd.version cmd.chunks t.chunks ≡ ok chunks
        → All (Known cmd t.entities chunks) cmd.facts
        → Sendable committed
        → Sendable dirty
        → (t' : Tables V) × (remap : Assoc String) × (commit values fails encode decode parse_uuid
              trace cmd committed dirty t
            ≡ (ok tt, t'))
          × Placed remap t'.entities cmd.new_entities
          × All (IsStored document remap t'.facts) cmd.facts
    unfolding commit commit_tx_body found_document settled
    commit_succeeds cmd committed dirty t document chunks k found n u made known sends sends' =
        let (remap, entities, aliases, inserted) =
          entities_succeed fails works cmd.new_entities [] t.entities t.aliases n u in
        let i =
          insert_entities_lem fails cmd.new_entities [] t.entities t.aliases {remap' = remap}
            {entities = entities} {aliases' = aliases} k n (λ id m. refl) inserted in
        let (facts, written, stored, grows) =
          facts_succeed document remap entities chunks cmd.facts t.facts
            (Known-refers cmd document remap t.entities entities chunks cmd.facts i known) in
        let (rows, sent) =
          event_succeeds append_committed "facts" cmd.document_id committed t.outbox sends in
        let (rows', sent') =
          event_succeeds append_dirty "cluster" cmd.document_id dirty rows sends' in
        (
          record {
            documents = set_indexed cmd.document_id t.documents;
            entities = entities;
            aliases = aliases;
            chunks = chunks;
            facts = facts;
            edges = recompute_edges facts (pairs_of cmd.document_id facts) t.edges;
            outbox = rows';
          },
          remap,
          rw
              (
                works begin_tx,
                works set_rls,
                works take_lock,
                works read_document,
                found,
                inserted,
                made,
                written,
                works write_edges,
                works write_status,
                sent,
                sent',
                works commit_tx,
              )
              refl,
          i.placed,
          stored,
        )
