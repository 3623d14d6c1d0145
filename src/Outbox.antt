-- ===== src/Outbox.antt =====
-- internal/platform/outbox: the table of events to publish and the relay that drains it (outbox.go,
-- relay.go).
--
-- A row of ops.outbox is a `Row`, the table a list of rows. Instants are natural numbers. A publish
-- is an argument, from a record to whether it succeeded, and so is each database step that can
-- fail. The headers of a row are the pairs that their JSON text is read as; the error of reading it
-- is left out. The rows that another relay has locked are an argument too (`for update skip locked`).
pub mod Laws
pub mod Order
use nornickel_hackathon.Prelude.{
  ℕ, zero, suc, String, Bool, true, false, ◌&&◌, not, Option, none, some, List, [], ◌∷◌, leb,
  length, take, keep, map, contains, ◌==◌, if◌then◌else◌, lookup, insert, Assoc, Result, ok, err,
  ◌>>=◌,
}
use nornickel_hackathon.Events.{
  Envelope, EventError, validate, marshal_envelope, unmarshal_envelope,
}

pub data OutboxError : Type 0 where
  bad_id begin_failed claim_failed bad_row insert_failed mark_failed commit_failed : OutboxError
  bad_envelope : EventError → OutboxError

pub record Record : Type 0 where
  pub envelope : Envelope
  pub aggregate_type : String
  pub aggregate_id : Option String
  pub headers : Assoc String

pub record Row : Type 0 where
  pub id : String
  pub aggregate_type : String
  pub aggregate_id : Option String
  pub event_type : String
  pub payload : List ℕ
  pub headers : Assoc String
  pub created_at : ℕ
  pub published : Bool

abbrev pub default_batch : ℕ
default_batch = 100

-- `batch <= 0` means the default.
unfoldable pub effective_batch : ℕ → ℕ
effective_batch zero = default_batch
effective_batch (suc n) = suc n

abbrev pub traceparent : String
traceparent = "traceparent"

-- The headers of a record with the trace of the caller added, where it has none of its own and the
-- caller states one; a trace that is not stated is the empty text.
unfoldable pub traced : Assoc String → String → Assoc String
traced headers trace = elim (lookup traceparent headers) [
  | some own ↦ headers
  | none ↦ if trace == "" then headers else insert traceparent trace headers
]

-- `limit $1`, `order by created_at`, `where published_at is null`
unfoldable pub insert_by_time : Row → List Row → List Row
insert_by_time r [] = r ∷ []
insert_by_time r (s ∷ rows) =
    let rest = insert_by_time r rows in
    if leb r.created_at s.created_at then r ∷ s ∷ rows else s ∷ rest

unfoldable pub by_time : List Row → List Row
unfolding insert_by_time
by_time [] = []
by_time (r ∷ rows) = insert_by_time r (by_time rows)

-- `claimSQL`
unfoldable pub claim_rows : (Row → Bool) → ℕ → List Row → List Row
unfolding by_time
claim_rows locked batch table =
    take batch (by_time (keep (λ r. not r.published && not (locked r)) table))

-- `markPublishedSQL`
unfoldable pub mark_published : List String → List Row → List Row
mark_published ids [] = []
mark_published ids (r ∷ rows) =
    (if contains ids r.id then record r { published = true } else r) ∷ mark_published ids rows

pub record Claimed : Type 0 where
  pub id : String
  pub item : Record

-- The loop of `Drain` over the claimed records.
unfoldable pub publish_all : (Record → Bool) → List Claimed → List String
publish_all publish [] = []
publish_all publish (c ∷ claimed) =
    let rest = publish_all publish claimed in if publish c.item then c.id ∷ rest else rest

-- What the database does in one drain: each field is whether that step succeeds.
pub record Database : Type 0 where
  pub begins : Bool
  pub queries : Bool
  pub marks : Bool
  pub commits : Bool

-- The JSON text of an envelope is a parameter, as in the model of the envelope.
module _ (encode : Envelope → List ℕ) (decode : List ℕ → Option Envelope) where
  unfoldable pub append_payload :
      String
      → String
      → Bool
      → Record
      → List Row
      → Result EventError (List ℕ)
      → Result OutboxError (List Row)
  append_payload id trace inserts r table (err e) = err (bad_envelope e)
  append_payload id trace inserts r table (ok payload) =
      if inserts
      then ok (
          record {
            id = id;
            aggregate_type = r.aggregate_type;
            aggregate_id = r.aggregate_id;
            event_type = r.envelope.typ;
            payload = payload;
            headers = traced r.headers trace;
            created_at = r.envelope.time;
            published = false;
          }
          ∷ table)
      else err insert_failed

  unfoldable pub append_parsed :
      Option String → String → Bool → Record → List Row → Result OutboxError (List Row)
  unfolding append_payload
  append_parsed none trace inserts r table = err bad_id
  append_parsed (some id) trace inserts r table =
      append_payload id trace inserts r table (marshal_envelope encode decode r.envelope)

  -- `Append`; `uuid.Parse` on the identifier is the argument `parse`.
  unfoldable pub append_record :
      (String → Option String) → String → Bool → Record → List Row → Result OutboxError (List Row)
  unfolding append_parsed
  append_record parse trace inserts r table =
      append_parsed (parse r.envelope.id) trace inserts r table

  unfoldable pub scan_record : Row → Result OutboxError Claimed
  scan_record row = elim (unmarshal_envelope encode decode row.payload) [
    | err e ↦ err bad_row
    | ok env ↦ ok (record {
      id = row.id;
      item = record {
        envelope = env;
        aggregate_type = row.aggregate_type;
        aggregate_id = row.aggregate_id;
        headers = row.headers;
      };
    })
  ]

  unfoldable pub scan_all : List Row → Result OutboxError (List Claimed)
  scan_all [] = ok []
  scan_all (r ∷ rows) = do c ← scan_record r; cs ← scan_all rows; ok (c ∷ cs)

  unfoldable pub claim_records :
      (Row → Bool) → ℕ → Bool → List Row → Result OutboxError (List Claimed)
  claim_records locked batch queries table =
      if queries then scan_all (claim_rows locked batch table) else err claim_failed

  -- The end of `Drain`: the marks, where there are any, and the commit.
  unfoldable pub finish_drain : Database → List String → List Row → Result OutboxError ℕ × List Row
  finish_drain db [] table = if db.commits then (ok 0, table) else (err commit_failed, table)
  finish_drain db (i ∷ ids) table =
      if db.marks
      then if db.commits
        then (ok (length (i ∷ ids)), mark_published (i ∷ ids) table)
        else (err commit_failed, table)
      else (err mark_failed, table)

  -- What `Drain` does with the records that it claimed.
  unfoldable pub drain_claimed :
      Database
      → (Record → Bool)
      → List Row
      → Result OutboxError (List Claimed)
      → Result OutboxError ℕ × List Row
  unfolding finish_drain
  drain_claimed db publish table (err e) = (err e, table)
  drain_claimed db publish table (ok claimed) = finish_drain db (publish_all publish claimed) table

  -- The result of `Drain` and the table that it leaves. A transaction that is rolled back leaves
  -- the table as it was.
  unfoldable pub drain :
      Database → (Row → Bool) → ℕ → (Record → Bool) → List Row → Result OutboxError ℕ × List Row
  unfolding drain_claimed effective_batch
  drain db locked batch publish table =
      if db.begins
      then drain_claimed db publish table
          (claim_records locked (effective_batch batch) db.queries table)
      else (err begin_failed, table)
