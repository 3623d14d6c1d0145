-- ===== src/Outbox/Laws.antt =====
-- What a drain of the outbox guarantees.
use nornickel_hackathon.Prelude.{
  ℕ, zero, suc, ◌∙◌, ◌≡◌, refl, sym, subst, ap, arith, String, Bool, true, false, Option, none,
  some, List, [], ◌∷◌, length, contains, ◌==◌, eq_iff, if◌then◌else◌, Result, ok, err, All,
  Bool-cases, inl, inr, ◌⊎◌, ok-injective,
}
use mathlib.Core.Bool.{false≢true}
use nornickel_hackathon.Events.{Envelope, EventError, marshal_envelope}
use nornickel_hackathon.Outbox.{
  OutboxError, Record, Row, Claimed, Database, claim_rows, mark_published, publish_all,
  claim_records, finish_drain, drain_claimed, drain, effective_batch, begin_failed, scan_all,
  append_payload, append_parsed, append_record,
}

-- The claimed record that stands for the row `r` was accepted by the publisher.
abbrev pub Sent : (Record → Bool) → List Claimed → String → Type 0
Sent publish [] id = ⊥
Sent publish (c ∷ claimed) id = ((c.id ≡ id) × (publish c.item ≡ true)) ⊎ Sent publish claimed id

-- One table comes from another by marking rows as published, each of which was sent.
pub data Marks (sent : String → Type 0) : List Row → List Row → Type 0 where
  end : Marks sent [] []
  same : {r : Row} {t u : List Row} → Marks sent t u → Marks sent (r ∷ t) (r ∷ u)
  mark :
      {r : Row} {t u : List Row}
      → sent r.id
      → Marks sent t u
      → Marks sent (r ∷ t) (record r { published = true } ∷ u)

Marks-refl : {sent : String → Type 0} (t : List Row) → Marks sent t t
Marks-refl [] = end
Marks-refl (r ∷ t) = same (Marks-refl t)

publish_all-Sent :
    (publish : Record → Bool) (claimed : List Claimed) (id : String)
    → contains (publish_all publish claimed) id ≡ true
    → Sent publish claimed id
unfolding publish_all
publish_all-Sent publish [] id h = absurd (false≢true h)
publish_all-Sent publish (c ∷ claimed) id h = elim (Bool-cases (publish c.item)) [
  | inr skipped ↦ inr (publish_all-Sent publish claimed id (ground arith))
  | inl accepted ↦ elim (Bool-cases (c.id == id)) [
    | inl here ↦ inl ((eq_iff c.id id).0 here, accepted)
    | inr there ↦ inr (publish_all-Sent publish claimed id (ground arith))
  ]
]

mark_published-nil : (t : List Row) → mark_published [] t ≡ t
unfolding mark_published
mark_published-nil [] = refl
mark_published-nil (r ∷ t) = ap (λ u. r ∷ u) (mark_published-nil t)

mark_published-Marks :
    (publish : Record → Bool) (claimed : List Claimed) (t : List Row)
    → Marks (Sent publish claimed) t (mark_published (publish_all publish claimed) t)
unfolding mark_published
mark_published-Marks publish claimed [] = end
mark_published-Marks publish claimed (r ∷ t) =
    go (contains (publish_all publish claimed) r.id) refl (mark_published-Marks publish claimed t)
  where
    go :
        (b : Bool)
        → contains (publish_all publish claimed) r.id ≡ b
        → Marks (Sent publish claimed) t (mark_published (publish_all publish claimed) t)
        → Marks (Sent publish claimed) (r ∷ t) (
            (if b then record r { published = true } else r)
            ∷ mark_published (publish_all publish claimed) t)
    go true e m = mark (publish_all-Sent publish claimed r.id e) m
    go false e m = same m

module _ (encode : Envelope → List ℕ) (decode : List ℕ → Option Envelope) where
  finish_error :
      (db : Database) (ids : List String) (table : List Row) {e : OutboxError}
      → (finish_drain encode decode db ids table).0 ≡ err e
      → (finish_drain encode decode db ids table).1 ≡ table
  unfolding finish_drain
  finish_error db [] table h = ground arith
  finish_error db (i ∷ ids) table h = ground arith

  claimed_error :
      (db : Database) (publish : Record → Bool) (table : List Row)
      (r : Result OutboxError (List Claimed)) {e : OutboxError}
      → (drain_claimed encode decode db publish table r).0 ≡ err e
      → (drain_claimed encode decode db publish table r).1 ≡ table
  unfolding drain_claimed
  claimed_error db publish table (err x) h = refl
  claimed_error db publish table (ok claimed) h =
      finish_error db (publish_all publish claimed) table h

  -- A drain that returns an error leaves the table as it was.
  pub drain_error_unchanged :
      (db : Database) (locked : Row → Bool) (batch : ℕ) (publish : Record → Bool) (table : List Row)
      {e : OutboxError}
      → (drain encode decode db locked batch publish table).0 ≡ err e
      → (drain encode decode db locked batch publish table).1 ≡ table
  unfolding drain
  drain_error_unchanged db locked batch publish table {e} h = go db.begins h
    where
      go :
          (b : Bool)
          → (if b
              then drain_claimed encode decode db publish table
                  (claim_records encode decode locked (effective_batch batch) db.queries table)
              else (err begin_failed, table)).0
            ≡ err e
          → (if b
              then drain_claimed encode decode db publish table
                  (claim_records encode decode locked (effective_batch batch) db.queries table)
              else (err begin_failed, table)).1
            ≡ table
      go true h =
          claimed_error db publish table
            (claim_records encode decode locked (effective_batch batch) db.queries table) h
      go false h = refl

  finish_ok :
      (db : Database) (ids : List String) (table : List Row) {n : ℕ}
      → (finish_drain encode decode db ids table).0 ≡ ok n
      → ((finish_drain encode decode db ids table).1 ≡ mark_published ids table) × (n ≡ length ids)
  unfolding finish_drain
  finish_ok db [] table h = ground (arith, mark_published-nil table)
  finish_ok db (i ∷ ids) table h = ground arith

  abbrev Drained :
      Database
      → (Record → Bool)
      → List Row
      → Result OutboxError (List Claimed)
      → Result OutboxError ℕ × List Row
      → ℕ
      → Type 0
  Drained db publish table scanned r n =
      (claimed : List Claimed) × (scanned ≡ ok claimed)
      × (r.1 ≡ mark_published (publish_all publish claimed) table)
      × (n ≡ length (publish_all publish claimed))

  claimed_ok :
      (db : Database) (publish : Record → Bool) (table : List Row)
      (r : Result OutboxError (List Claimed)) {n : ℕ}
      → (drain_claimed encode decode db publish table r).0 ≡ ok n
      → Drained db publish table r (drain_claimed encode decode db publish table r) n
  unfolding drain_claimed
  claimed_ok db publish table (err x) h = cc
  claimed_ok db publish table (ok claimed) h =
      let (marked, counted) = finish_ok db (publish_all publish claimed) table h in
      (claimed, refl, marked, counted)

  claim_ok :
      (locked : Row → Bool) (batch : ℕ) (queries : Bool) (table : List Row) {cs : List Claimed}
      → claim_records encode decode locked batch queries table ≡ ok cs
      → scan_all encode decode (claim_rows locked batch table) ≡ ok cs
  unfolding claim_records
  claim_ok locked batch queries table h = ground arith

  drain_ok :
      (db : Database) (locked : Row → Bool) (batch : ℕ) (publish : Record → Bool) (table : List Row)
      {n : ℕ}
      → (drain encode decode db locked batch publish table).0 ≡ ok n
      → Drained db publish table
          (scan_all encode decode (claim_rows locked (effective_batch batch) table))
          (drain encode decode db locked batch publish table)
          n
  unfolding drain
  drain_ok db locked batch publish table {n} h = go db.begins h
    where
      go :
          (b : Bool)
          → (if b
              then drain_claimed encode decode db publish table
                  (claim_records encode decode locked (effective_batch batch) db.queries table)
              else (err begin_failed, table)).0
            ≡ ok n
          → Drained db publish table
              (scan_all encode decode (claim_rows locked (effective_batch batch) table))
              (if b
                then drain_claimed encode decode db publish table
                    (claim_records encode decode locked (effective_batch batch) db.queries table)
                else (err begin_failed, table))
              n
      go true h =
          let (claimed, e, marked, counted) =
            claimed_ok db publish table
              (claim_records encode decode locked (effective_batch batch) db.queries table) h in
          (claimed, claim_ok locked (effective_batch batch) db.queries table e, marked, counted)
      go false h = cc

  -- A drain that returns without an error claims rows, and marks as published no row but those
  -- whose record it sent and the publisher accepted: every other row is left as it was, and none is dropped.
  -- The number that it returns counts the records that were accepted.
  pub drain-Marks :
      (db : Database) (locked : Row → Bool) (batch : ℕ) (publish : Record → Bool) (table : List Row)
      {n : ℕ}
      → (drain encode decode db locked batch publish table).0 ≡ ok n
      → (claimed : List Claimed) × (scan_all encode decode
            (claim_rows locked (effective_batch batch) table)
          ≡ ok claimed)
        × Marks (Sent publish claimed) table (drain encode decode db locked batch publish table).1
        × (n ≡ length (publish_all publish claimed))
  drain-Marks db locked batch publish table h =
      let (claimed, scanned, marked, counted) = drain_ok db locked batch publish table h in
      (
        claimed,
        scanned,
        subst (Marks (Sent publish claimed) table) (sym marked)
            (mark_published-Marks publish claimed table),
        counted,
      )

  rejected_none :
      (publish : Record → Bool) (claimed : List Claimed)
      → All (λ c. publish c.item ≡ false) claimed
      → publish_all publish claimed ≡ []
  unfolding publish_all
  rejected_none publish [] h = refl
  rejected_none publish (c ∷ claimed) h = rw (h.0, rejected_none publish claimed h.1)

  -- The table after a number of drains, one after the other, each with its own database steps.
  abbrev pub drains : (ℕ → Database) → (Row → Bool) → ℕ → (Record → Bool) → ℕ → List Row → List Row
  drains dbs locked batch publish zero table = table
  drains dbs locked batch publish (suc n) table =
      drains dbs locked batch publish n (drain encode decode (dbs n) locked batch publish table).1

  drain_blocked :
      (db : Database) (locked : Row → Bool) (batch : ℕ) (publish : Record → Bool) (table : List Row)
      (claimed : List Claimed)
      → scan_all encode decode (claim_rows locked (effective_batch batch) table) ≡ ok claimed
      → All (λ c. publish c.item ≡ false) claimed
      → (drain encode decode db locked batch publish table).1 ≡ table
  unfolding drain drain_claimed claim_records finish_drain
  drain_blocked db locked batch publish table claimed scanned h =
      rw scanned (ground (arith, rejected_none publish claimed h))

  drains_blocked :
      (dbs : ℕ → Database) (locked : Row → Bool) (batch : ℕ) (publish : Record → Bool)
      (table : List Row) (claimed : List Claimed)
      → scan_all encode decode (claim_rows locked (effective_batch batch) table) ≡ ok claimed
      → All (λ c. publish c.item ≡ false) claimed
      → (n : ℕ) → drains dbs locked batch publish n table ≡ table
  drains_blocked dbs locked batch publish table claimed scanned h zero = refl
  drains_blocked dbs locked batch publish table claimed scanned h (suc n) =
      ap (drains dbs locked batch publish n)
        (drain_blocked (dbs n) locked batch publish table claimed scanned h)
      ∙ drains_blocked dbs locked batch publish table claimed scanned h n

  -- Where the publisher rejects every record that a drain claims, the table is as it was after any
  -- number of drains, whichever of their steps fail: the next one again claims these records, of
  -- which none is accepted, so that no record behind them is reached.
  pub drain_stuck :
      (dbs : ℕ → Database) (locked : Row → Bool) (batch : ℕ) (publish : Record → Bool)
      (table : List Row) (claimed : List Claimed)
      → scan_all encode decode (claim_rows locked (effective_batch batch) table) ≡ ok claimed
      → All (λ c. publish c.item ≡ false) claimed
      → (n : ℕ)
      → (drains dbs locked batch publish n table ≡ table)
        × (scan_all encode decode
              (claim_rows locked (effective_batch batch) (drains dbs locked batch publish n table))
            ≡ ok claimed)
        × (publish_all publish claimed ≡ [])
  drain_stuck dbs locked batch publish table claimed scanned h n =
      let stays = drains_blocked dbs locked batch publish table claimed scanned h n in
      (
        stays,
        ap
              (λ (rows : List Row).
                scan_all encode decode (claim_rows locked (effective_batch batch) rows))
              stays
            ∙ scanned,
        rejected_none publish claimed h,
      )

  payload_lem :
      (id trace : String) (inserts : Bool) (r : Record) (table : List Row)
      (payload : Result EventError (List ℕ)) {rows : List Row}
      → append_payload encode decode id trace inserts r table payload ≡ ok rows
      → (row : Row) × (rows ≡ row ∷ table)
  unfolding append_payload
  payload_lem id trace inserts r table (err e) h = cc
  payload_lem id trace true r table (ok payload) h = (_, sym (ok-injective h))
  payload_lem id trace false r table (ok payload) h = cc

  -- A record that is appended is one new row before the others.
  pub append_record-cons :
      (parse : String → Option String) (trace : String) (inserts : Bool) (r : Record)
      (table : List Row) {rows : List Row}
      → append_record encode decode parse trace inserts r table ≡ ok rows
      → (row : Row) × (rows ≡ row ∷ table)
  unfolding append_record
  append_record-cons parse trace inserts r table {rows} h = go (parse r.envelope.id) h
    where
      go :
          (id : Option String)
          → append_parsed encode decode id trace inserts r table ≡ ok rows
          → (row : Row) × (rows ≡ row ∷ table)
      go none h = cc
      go (some id) h =
          payload_lem id trace inserts r table (marshal_envelope encode decode r.envelope) h
