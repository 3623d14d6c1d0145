-- ===== src/Catalog/Store.antt =====
-- internal/catalog/adapters/pg/repository.go: the commit of a document's facts in one transaction,
-- with the tables of db/migrations that it writes.
--
-- A table is the list of its rows, the newest first. A statement breaks off where a row it refers to
-- is missing or a key that it does not handle is taken, and where `fails` says so for that step; an
-- error rolls the transaction back. The numbers, units, quotes and conditions of a fact are a value of
-- `V`, of which the natural key, the geography and the status are read. Pages, offsets, the language and the
-- embedding of a chunk are left out, and so is the column property_id of a fact, which `Commit` does not write. An
-- alias is inserted for an entity that has just been given a row or had one, so that its reference is not checked.

pub mod Slugs
pub mod Unique
pub mod Inserts
pub mod Success
pub mod Commit
pub mod Links
pub mod Stale
use nornickel_hackathon.Prelude.{
  ℕ, zero, suc, ◌+◌, String, Bool, true, false, ◌&&◌, ◌||◌, not, Option, none, some, List, [], ◌∷◌,
  ◌++◌, nat_eq, any, contains, ◌==◌, if◌then◌else◌, lookup, insert, Assoc, Result, ok, err, ◌>>=◌,
  ◌>>◌, fail_if,
}
use Prim.Native.Char.{code}
use nornickel_hackathon.Events.{Envelope}
use nornickel_hackathon.Outbox.{OutboxError, Record, Row, append_record}
use nornickel_hackathon.Catalog.Resolve.{Entity, NumericFact, default_string}

pub data Step : Type 0 where
  begin_tx set_rls take_lock read_document write_edges write_status mark_failed append_committed
        append_dirty commit_tx :
      Step
  write_entity write_alias write_chunk write_fact : String → Step

pub data StoreError : Type 0 where
  document_not_found : StoreError
  failed_at : Step → StoreError
  outbox_error : OutboxError → StoreError

pub record DocumentRow : Type 0 where
  pub id : String
  pub status : String
  pub geography : String
  pub year : Option ℕ

pub record AliasRow : Type 0 where
  pub entity_id : String
  pub alias : String
  pub lang : String

pub record ChunkRow : Type 0 where
  pub id : String
  pub document_id : String
  pub version : ℕ
  pub ordinal : ℕ
  pub text : String
  pub kind : String

pub record EdgeRow : Type 0 where
  pub src : String
  pub dst : String
  pub rel : String
  pub weight : ℕ
  pub provenance : List String

pub record FactRow (V : Type 0) : Type 0 where
  pub id : String
  pub document_id : String
  pub chunk_id : Option String
  pub subject_id : String
  pub parameter_id : String
  pub relation : String
  pub operator : String
  pub values : V
  pub geography : String
  pub doc_year : Option ℕ
  pub validation_status : String
  pub superseded : Bool

pub record Tables (V : Type 0) : Type 0 where
  pub documents : List DocumentRow
  pub entities : List Entity
  pub aliases : List AliasRow
  pub chunks : List ChunkRow
  pub facts : List (FactRow V)
  pub edges : List EdgeRow
  pub outbox : List Row

pub record ChunkInsert : Type 0 where
  pub uuid : String
  pub ordinal : ℕ
  pub text : String
  pub kind : String

pub record CommitCommand (V : Type 0) : Type 0 where
  pub document_id : String
  pub version : ℕ
  pub new_entities : List Entity
  pub chunks : List ChunkInsert
  pub facts : List (NumericFact V)

-- `strings.ReplaceAll(text, "\x00", "")`
unfoldable pub no_null : String → String
no_null String.[] = ""
no_null (String.◌∷◌ c s) =
    let rest = no_null s in if nat_eq (code c) 0 then rest else String.◌∷◌ c rest

-- `documentContextSQL`
unfoldable pub find_document : String → List DocumentRow → Option DocumentRow
find_document id [] = none
find_document id (d ∷ documents) = if d.id == id then some d else find_document id documents

-- `updateDocStatusSQL`
unfoldable pub set_indexed : String → List DocumentRow → List DocumentRow
set_indexed id [] = []
set_indexed id (d ∷ documents) =
    (if d.id == id then record d { status = "indexed" } else d) ∷ set_indexed id documents

unfoldable pub id_of_slug : String → List Entity → Option String
id_of_slug slug [] = none
id_of_slug slug (e ∷ entities) = if e.slug == slug then some e.id else id_of_slug slug entities

unfoldable pub has_entity : String → List Entity → Bool
has_entity id entities = any (λ (e : Entity). e.id == id) entities

unfoldable pub has_alias : AliasRow → List AliasRow → Bool
has_alias a aliases =
    any (λ (b : AliasRow). b.entity_id == a.entity_id && b.alias == a.alias && b.lang == a.lang)
      aliases

unfoldable pub has_chunk : String → List ChunkRow → Bool
has_chunk id chunks = any (λ (c : ChunkRow). c.id == id) chunks

unfoldable pub has_place : ChunkRow → List ChunkRow → Bool
has_place c chunks =
    any
      (λ (d : ChunkRow).
        d.document_id == c.document_id && nat_eq d.version c.version && nat_eq d.ordinal c.ordinal)
      chunks

unfoldable pub set_text : ChunkRow → List ChunkRow → List ChunkRow
set_text c [] = []
set_text c (d ∷ chunks) =
    (if d.document_id == c.document_id && nat_eq d.version c.version && nat_eq d.ordinal c.ordinal
      then record d { text = c.text }
      else d)
    ∷ set_text c chunks

-- The row as `insertEntitySQL` writes it.
unfoldable pub entity_row : Entity → Entity
unfolding no_null
entity_row e = record e {
  canonical_name = no_null e.canonical_name;
  canonical_name_en = no_null e.canonical_name_en;
}

-- `remapID`
unfoldable pub actual_or : String → Option String → String
actual_or id none = id
actual_or id (some actual) = actual

unfoldable pub remap_id : Assoc String → String → String
unfolding actual_or
remap_id remap id = actual_or id (lookup id remap)

unfoldable pub note_remap : String → String → Assoc String → Assoc String
note_remap id actual remap = if actual == id then remap else insert id actual remap

module _ (fails : Step → Bool) where
  -- `insertEntitySQL`, on the row that has the slug: the identifier it returns, and the rows.
  unfoldable pub insert_entity_on :
      Entity → List Entity → Option String → Result StoreError (String × List Entity)
  unfolding has_entity entity_row
  insert_entity_on e entities (some id) = ok (id, entities)
  insert_entity_on e entities none =
      if has_entity e.id entities
      then err (failed_at (write_entity e.id))
      else ok (e.id, entity_row e ∷ entities)

  unfoldable pub insert_entity : Entity → List Entity → Result StoreError (String × List Entity)
  unfolding insert_entity_on id_of_slug
  insert_entity e entities =
      if fails (write_entity e.id)
      then err (failed_at (write_entity e.id))
      else insert_entity_on e entities (id_of_slug e.slug entities)

  unfoldable pub alias_row : String → Entity → AliasRow
  unfolding no_null
  alias_row id e = record { entity_id = id; alias = no_null e.canonical_name; lang = "ru" }

  -- `insertAliasSQL`
  unfoldable pub insert_alias : String → Entity → List AliasRow → Result StoreError (List AliasRow)
  unfolding has_alias alias_row
  insert_alias id e aliases =
      if fails (write_alias e.id)
      then err (failed_at (write_alias e.id))
      else ok (if has_alias (alias_row id e) aliases then aliases else alias_row id e ∷ aliases)

  -- The loop over the new entities.
  unfoldable pub insert_entities :
      List Entity
      → Assoc String
      → List Entity
      → List AliasRow
      → Result StoreError (Assoc String × List Entity × List AliasRow)
  unfolding insert_entity insert_alias note_remap
  insert_entities [] remap entities aliases = ok (remap, entities, aliases)
  insert_entities (e ∷ new_entities) remap entities aliases = do
    (actual, entities') ← insert_entity e entities
    aliases' ← insert_alias actual e aliases
    insert_entities new_entities (note_remap e.id actual remap) entities' aliases'

  unfoldable pub chunk_row : String → ℕ → ChunkInsert → ChunkRow
  unfolding no_null
  chunk_row document_id version c = record {
    id = c.uuid;
    document_id = document_id;
    version = version;
    ordinal = c.ordinal;
    text = no_null c.text;
    kind = default_string c.kind "text";
  }

  -- `insertChunkSQL`
  unfoldable pub insert_chunk : ChunkRow → List ChunkRow → Result StoreError (List ChunkRow)
  unfolding has_place has_chunk set_text
  insert_chunk c chunks =
      if fails (write_chunk c.id)
      then err (failed_at (write_chunk c.id))
      else if has_place c chunks
      then ok (set_text c chunks)
      else if has_chunk c.id chunks
      then err (failed_at (write_chunk c.id))
      else ok (c ∷ chunks)

  unfoldable pub insert_chunks :
      String → ℕ → List ChunkInsert → List ChunkRow → Result StoreError (List ChunkRow)
  unfolding insert_chunk chunk_row
  insert_chunks document_id version [] chunks = ok chunks
  insert_chunks document_id version (c ∷ inserts) chunks = do
    chunks' ← insert_chunk (chunk_row document_id version c) chunks
    insert_chunks document_id version inserts chunks'

-- The pairs of a subject and a parameter that the facts of a document name, each once.
unfoldable pub has_pair : String × String → List (String × String) → Bool
has_pair (src, dst) pairs = any (λ (p : String × String). p.0 == src && p.1 == dst) pairs

unfoldable pub pairs_of : {V : Type 0} → String → List (FactRow V) → List (String × String)
unfolding has_pair
pairs_of document_id [] = []
pairs_of document_id (f ∷ facts) =
    let rest = pairs_of document_id facts in
    if f.document_id == document_id && not (has_pair (f.subject_id, f.parameter_id) rest)
    then (f.subject_id, f.parameter_id) ∷ rest
    else rest

unfoldable pub names_pair : {V : Type 0} → String × String → FactRow V → Bool
names_pair (src, dst) f = f.subject_id == src && f.parameter_id == dst && not f.superseded

unfoldable pub weight_of : {V : Type 0} → String × String → List (FactRow V) → ℕ
unfolding names_pair
weight_of pair [] = 0
weight_of pair (f ∷ facts) =
    let rest = weight_of pair facts in if names_pair pair f then suc rest else rest

unfoldable pub provenance_of : {V : Type 0} → String × String → List (FactRow V) → List String
unfolding names_pair
provenance_of pair [] = []
provenance_of pair (f ∷ facts) =
    let rest = provenance_of pair facts in
    if names_pair pair f && not (contains rest f.document_id) then f.document_id ∷ rest else rest

unfoldable pub is_edge : String × String → EdgeRow → Bool
is_edge (src, dst) e = e.src == src && e.dst == dst && e.rel == "OPERATES_AT"

unfoldable pub put_edge : String × String → ℕ → List String → List EdgeRow → List EdgeRow
unfolding is_edge
put_edge pair weight provenance [] =
    record {
      src = pair.0;
      dst = pair.1;
      rel = "OPERATES_AT";
      weight = weight;
      provenance = provenance;
    }
    ∷ []
put_edge pair weight provenance (e ∷ edges) =
    if is_edge pair e
    then record e { weight = weight; provenance = provenance } ∷ edges
    else e ∷ put_edge pair weight provenance edges

-- `recomputeEdgesSQL`; a pair whose facts are all superseded makes no group.
unfoldable pub recompute_edges :
    {V : Type 0} → List (FactRow V) → List (String × String) → List EdgeRow → List EdgeRow
unfolding weight_of provenance_of put_edge
recompute_edges facts [] edges = edges
recompute_edges facts (pair ∷ pairs) edges = recompute_edges facts pairs (
    if nat_eq (weight_of pair facts) 0
    then edges
    else put_edge pair (weight_of pair facts) (provenance_of pair facts) edges)

unfoldable pub refers_chunk : List ChunkRow → Option String → Bool
unfolding has_chunk
refers_chunk chunks none = true
refers_chunk chunks (some id) = has_chunk id chunks

-- What a fact's value tells a statement: its geography and its status, empty where there is none, and whether
-- two values agree in condition hash, bounds and unit.
pub record Values (V : Type 0) : Type 0 where
  pub geography_of : V → String
  pub status_of : V → String
  pub same_values : V → V → Bool

module _ {V : Type 0} (values : Values V) (fails : Step → Bool) where
  open values use {geography_of, status_of, same_values}

  -- The row of a fact as `insertFactSQL` writes it.
  unfoldable pub fact_row : DocumentRow → Assoc String → NumericFact V → FactRow V
  unfolding remap_id
  fact_row document remap f = record {
    id = f.id;
    document_id = document.id;
    chunk_id = f.chunk_id;
    subject_id = remap_id remap f.subject_id;
    parameter_id = remap_id remap f.parameter_id;
    relation = f.relation;
    operator = f.operator;
    values = f.values;
    geography = default_string (geography_of f.values) document.geography;
    doc_year = document.year;
    validation_status = default_string (status_of f.values) "machine_extracted";
    superseded = false;
  }

  -- The primary key or the natural key of the facts is taken.
  unfoldable pub conflicts : FactRow V → FactRow V → Bool
  conflicts f g =
      f.id == g.id
      || f.document_id == g.document_id
        && f.subject_id == g.subject_id
        && f.parameter_id == g.parameter_id
        && f.operator == g.operator
        && same_values f.values g.values

  unfoldable pub refers : List Entity → List ChunkRow → FactRow V → Bool
  unfolding has_entity refers_chunk
  refers entities chunks f =
      has_entity f.subject_id entities
      && has_entity f.parameter_id entities
      && refers_chunk chunks f.chunk_id

  -- `insertFactSQL`
  unfoldable pub insert_fact :
      List Entity
      → List ChunkRow
      → FactRow V
      → List (FactRow V)
      → Result StoreError (List (FactRow V))
  unfolding conflicts refers
  insert_fact entities chunks f facts =
      if fails (write_fact f.id)
      then err (failed_at (write_fact f.id))
      else if any (conflicts f) facts
      then ok facts
      else if refers entities chunks f
      then ok (f ∷ facts)
      else err (failed_at (write_fact f.id))

  unfoldable pub insert_facts :
      DocumentRow
      → Assoc String
      → List Entity
      → List ChunkRow
      → List (NumericFact V)
      → List (FactRow V)
      → Result StoreError (List (FactRow V))
  unfolding insert_fact fact_row
  insert_facts document remap entities chunks [] facts = ok facts
  insert_facts document remap entities chunks (f ∷ new_facts) facts = do
    facts' ← insert_fact entities chunks (fact_row document remap f) facts
    insert_facts document remap entities chunks new_facts facts'

  unfoldable pub found_document : Option DocumentRow → Result StoreError DocumentRow
  found_document none = err document_not_found
  found_document (some document) = ok document

  abbrev pub step : Step → Result StoreError (Unit {0})
  step s = fail_if (fails s) (failed_at s)

  unfoldable pub appended : Step → Result OutboxError (List Row) → Result StoreError (List Row)
  appended s (ok rows) = if fails s then err (failed_at s) else ok rows
  appended s (err e) = err (outbox_error e)

  -- The JSON text of an envelope and the parse of its identifier are parameters, as in the outbox.
  module _ (encode : Envelope → List ℕ) (decode : List ℕ → Option Envelope)
      (parse_uuid : String → Option String) (trace : String) where
    unfoldable pub append_event :
        Step → String → String → Envelope → List Row → Result StoreError (List Row)
    unfolding appended
    append_event s aggregate document_id envelope rows = appended s (
        append_record encode decode parse_uuid trace true
          (record {
            envelope = envelope;
            aggregate_type = aggregate;
            aggregate_id = some document_id;
            headers = [];
          })
          rows)

    -- The transaction of `Commit`.
    unfoldable pub commit_tx_body :
        CommitCommand V → Envelope → Envelope → Tables V → Result StoreError (Tables V)
    unfolding found_document insert_entities insert_chunks insert_facts recompute_edges pairs_of
        append_event find_document set_indexed
    commit_tx_body cmd committed cluster_dirty t = do
      step begin_tx
      step set_rls
      step take_lock
      step read_document
      document ← found_document (find_document cmd.document_id t.documents)
      (remap, entities, aliases) ← insert_entities fails cmd.new_entities [] t.entities t.aliases
      chunks ← insert_chunks fails document.id cmd.version cmd.chunks t.chunks
      facts ← insert_facts document remap entities chunks cmd.facts t.facts
      step write_edges
      step write_status
      rows ← append_event append_committed "facts" cmd.document_id committed t.outbox
      rows' ← append_event append_dirty "cluster" cmd.document_id cluster_dirty rows
      step commit_tx
      ok (record {
        documents = set_indexed cmd.document_id t.documents;
        entities = entities;
        aliases = aliases;
        chunks = chunks;
        facts = facts;
        edges = recompute_edges facts (pairs_of cmd.document_id facts) t.edges;
        outbox = rows';
      })

    -- An error rolls the transaction back.
    unfoldable pub settled :
        Tables V → Result StoreError (Tables V) → Result StoreError (Unit {0}) × Tables V
    settled t (ok t') = (ok tt, t')
    settled t (err e) = (err e, t)

    unfoldable pub commit :
        CommitCommand V → Envelope → Envelope → Tables V → Result StoreError (Unit {0}) × Tables V
    unfolding settled commit_tx_body
    commit cmd committed cluster_dirty t = settled t (commit_tx_body cmd committed cluster_dirty t)
