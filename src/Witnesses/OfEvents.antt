-- ===== src/Witnesses/OfEvents.antt =====
-- Witnesses of the bus, the envelope and the outbox.
use nornickel_hackathon.Prelude.{
  String, Bool, true, false, none, some, List, [], ◌∷◌, length, ◌≡◌, refl, ok, Option, ◌==◌,
}
use nornickel_hackathon.Witnesses.{some_envelope, encode, decode}
use nornickel_hackathon.Events.{
  EventError, validate_type, is_audit, is_dlq, unmarshal_envelope, checked_envelope, validate,
}
use nornickel_hackathon.Events.Bus.{AckAction, nack, Message, NatsMsg, DeadLetter}
use nornickel_hackathon.Outbox.{
  Row, Record, Claimed, Database, claim_rows, by_time, insert_by_time, publish_all, scan_all,
  scan_record, claim_records, finish_drain, drain, drain_claimed, effective_batch,
}
use nornickel_hackathon.Outbox.Laws.{drains, Marks, Sent, drain-Marks, drain_stuck}

abbrev message : NatsMsg
message = record {
  subject = "kmap.doc.v1.registered";
  body = 7 ∷ [];
  msg_id = "e1";
  trace_parent = "";
  deliveries = some 2;
}

abbrev keep_subject : String → String → String
keep_subject s prefix = s

abbrev describe : EventError → String
describe e = "bad"

abbrev broker_takes : DeadLetter → Bool
broker_takes d = true

abbrev refuses : Message → AckAction
refuses m = nack

abbrev row : Row
row = record {
  id = "e1";
  aggregate_type = "document";
  aggregate_id = some "d1";
  event_type = "kmap.doc.v1.registered";
  payload = 7 ∷ [];
  headers = [];
  created_at = 4;
  published = false;
}

abbrev table : List Row
table = row ∷ record row { id = "e0"; published = true } ∷ []

abbrev works : Database
works = record { begins = true; queries = true; marks = true; commits = true }

abbrev unlocked : Row → Bool
unlocked r = false

abbrev accepts : Record → Bool
accepts r = true

abbrev is_second : Option String → Bool
is_second none = false
is_second (some id) = id == "d2"

abbrev claimed_row : Claimed
claimed_row = record {
  id = "e1";
  item = record {
    envelope = some_envelope;
    aggregate_type = "document";
    aggregate_id = some "d1";
    headers = [];
  };
}

table-drains : (drain encode decode works unlocked 10 accepts table).0 ≡ ok 1
unfolding drain drain_claimed claim_records claim_rows by_time insert_by_time scan_all scan_record
    unmarshal_envelope checked_envelope validate validate_type publish_all finish_drain
    effective_batch is_audit is_dlq
table-drains = refl

drain-Marks_example :
    (claimed : List Claimed) × (scan_all encode decode
        (claim_rows unlocked (effective_batch 10) table)
      ≡ ok claimed)
    × Marks (Sent accepts claimed) table (drain encode decode works unlocked 10 accepts table).1
    × (1 ≡ length (publish_all accepts claimed))
drain-Marks_example = drain-Marks encode decode works unlocked 10 accepts table table-drains

-- A batch of one that is always rejected, and behind it a row whose record would be accepted.
abbrev blocked : List Row
blocked = row ∷ record row { id = "e2"; aggregate_id = some "d2"; created_at = 5 } ∷ []

abbrev takes_second : Record → Bool
takes_second r = is_second r.aggregate_id

blocked-scans :
    scan_all encode decode (claim_rows unlocked (effective_batch 1) blocked) ≡ ok (claimed_row ∷ [])
unfolding claim_rows by_time insert_by_time scan_all scan_record unmarshal_envelope checked_envelope
    validate validate_type effective_batch is_audit is_dlq
blocked-scans = refl

drain_stuck_example :
    (drains encode decode (λ n. works) unlocked 1 takes_second 7 blocked ≡ blocked)
    × (scan_all encode decode (
          claim_rows unlocked
            (effective_batch 1)
            (drains encode decode (λ n. works) unlocked 1 takes_second 7 blocked))
        ≡ ok (claimed_row ∷ []))
    × (publish_all takes_second (claimed_row ∷ []) ≡ [])
drain_stuck_example =
    drain_stuck encode decode (λ n. works) unlocked 1 takes_second blocked (claimed_row ∷ [])
      blocked-scans (refl, tt) 7
