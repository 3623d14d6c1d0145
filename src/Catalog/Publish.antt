-- ===== src/Catalog/Publish.antt =====
-- internal/catalog/app/service.go: the end of `CommitExtraction`, from the command to the commit, and the two
-- events that it builds.
--
-- The JSON encodings of the data of the events are arguments, and so are the identifiers and the instants
-- that `events.New` takes, and `hash_of`, the condition hash of a fact's value in hexadecimal.
pub mod Laws
use nornickel_hackathon.Prelude.{
  ℕ, String, Bool, Option, some, List, [], ◌∷◌, Result, ok, err, ◌>>=◌,
}
use Prim.Native.String.{◌++◌}
use nornickel_hackathon.Events.{
  Envelope, Event, EventError, new, facts_committed, epistemic_cluster_dirty,
}
use nornickel_hackathon.Catalog.Resolve.{NumericFact, distinct_from, entity_ids}
use nornickel_hackathon.Catalog.Store.{Step, StoreError, Tables, CommitCommand, Values, commit}

abbrev pub event_source : String
event_source = "kmap/catalog"

pub record CommitResult : Type 0 where
  pub document_id : String
  pub fact_ids : List String
  pub entity_ids : List String
  pub cluster_keys : List String

-- The data of the event about the commit.
pub record CommittedData : Type 0 where
  pub document_id : String
  pub version : ℕ
  pub fact_ids : List String
  pub entity_ids : List String
  pub cluster_keys : List String

-- The data of the event about the clusters that have changed.
pub record DirtyData : Type 0 where
  pub document_id : String
  pub cluster_keys : List String

pub data ServiceError : Type 0 where
  envelope_failed : EventError → ServiceError
  commit_failed : StoreError → ServiceError

-- `factIDs`
unfoldable pub fact_ids : {V : Type 0} → List (NumericFact V) → List String
fact_ids [] = []
fact_ids (f ∷ facts) = f.id ∷ fact_ids facts

module _ {V : Type 0} (hash_of : V → String) where
  unfoldable pub keys_of : List (NumericFact V) → List String
  keys_of [] = []
  keys_of (f ∷ facts) =
      ((((f.subject_id ++ ":") ++ f.parameter_id) ++ ":") ++ hash_of f.values) ∷ keys_of facts

  -- `clusterKeys`
  unfoldable pub cluster_keys : List (NumericFact V) → List String
  unfolding distinct_from keys_of
  cluster_keys facts = distinct_from [] (keys_of facts)

  abbrev pub committed_data : CommitCommand V → CommittedData
  committed_data cmd = record {
    document_id = cmd.document_id;
    version = cmd.version;
    fact_ids = fact_ids cmd.facts;
    entity_ids = entity_ids cmd.new_entities cmd.facts;
    cluster_keys = cluster_keys cmd.facts;
  }

  abbrev pub committed_event : CommitCommand V → Event CommittedData
  committed_event cmd = record {
    typ = facts_committed;
    source = event_source;
    subject = cmd.document_id;
    body = some (committed_data cmd);
  }

  abbrev pub dirty_event : CommitCommand V → Event DirtyData
  dirty_event cmd = record {
    typ = epistemic_cluster_dirty;
    source = event_source;
    subject = cmd.document_id;
    body = some (record { document_id = cmd.document_id; cluster_keys = cluster_keys cmd.facts });
  }

  module _ (marshal_committed : CommittedData → Option (List ℕ))
      (marshal_dirty : DirtyData → Option (List ℕ)) (id dirty_id : String) (now dirty_now : ℕ) where
    unfoldable pub build_envelopes : CommitCommand V → Result EventError (Envelope × Envelope)
    unfolding new
    build_envelopes cmd = do
      committed ← new marshal_committed id now (committed_event cmd)
      cluster_dirty ← new marshal_dirty dirty_id dirty_now (dirty_event cmd)
      ok (committed, cluster_dirty)

    unfoldable pub result_of :
        CommitCommand V
        → Result StoreError (Unit {0}) × Tables V
        → Result ServiceError CommitResult × Tables V
    result_of cmd (err e, t) = (err (commit_failed e), t)
    result_of cmd (ok u, t) = (
      ok (record {
        document_id = cmd.document_id;
        fact_ids = fact_ids cmd.facts;
        entity_ids = entity_ids cmd.new_entities cmd.facts;
        cluster_keys = cluster_keys cmd.facts;
      }),
      t,
    )

    module _ (values : Values V) (fails : Step → Bool) (encode : Envelope → List ℕ)
        (decode : List ℕ → Option Envelope) (parse_uuid : String → Option String)
        (trace : String) where
      unfoldable pub commit_built :
          CommitCommand V
          → Tables V
          → Result EventError (Envelope × Envelope)
          → Result ServiceError CommitResult × Tables V
      unfolding result_of
      commit_built cmd t (err e) = (err (envelope_failed e), t)
      commit_built cmd t (ok (committed, cluster_dirty)) =
          result_of cmd
            (commit values fails encode decode parse_uuid trace cmd committed cluster_dirty t)

      -- `CommitExtraction` once the command is built.
      unfoldable pub commit_command :
          CommitCommand V → Tables V → Result ServiceError CommitResult × Tables V
      unfolding commit_built build_envelopes
      commit_command cmd t = commit_built cmd t (build_envelopes cmd)
