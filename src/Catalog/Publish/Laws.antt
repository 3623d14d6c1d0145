-- ===== src/Catalog/Publish/Laws.antt =====
-- What the event about a commit says of entities that are not stored.
use nornickel_hackathon.Prelude.{
  ℕ, String, Bool, true, false, Option, none, some, List, ◌∷◌, contains, NoRepeats, Result, ok, err,
  >>=-eq_ok, ok-injective, fail_if, ltb, length, ◌==◌, if◌then◌else◌, ◌≡◌, refl, sym, ap, ◌∙◌,
  subst, inl, inr,
}
use nornickel_hackathon.Events.{
  Envelope, Event, EventError, payload_too_large, source_required, new, marshal_data, checked_data,
  marshal_envelope, validate, validate_type, facts_committed,
}
use nornickel_hackathon.Outbox.{
  OutboxError, Row, Record, append_record, append_parsed, append_payload,
}
use nornickel_hackathon.Catalog.Resolve.{Entity, ids_of, entity_ids}
use nornickel_hackathon.Catalog.Store.{
  append_committed, append_dirty, failed_at, Step, StoreError, Tables, CommitCommand, Values,
  id_of_slug, has_entity, append_event, appended, commit,
}
use nornickel_hackathon.Catalog.Store.Commit.{In, body_Steps, settled_lem}
use nornickel_hackathon.Catalog.Store.Stale.{stale_row}
use nornickel_hackathon.Catalog.Publish.{
  CommitResult, CommittedData, DirtyData, ServiceError, commit_failed, envelope_failed,
  committed_data, committed_event, dirty_event, build_envelopes, result_of, commit_built,
  commit_command,
}

checked_lem :
    {D : Type 0} (marshal : D → Option (List ℕ)) (o : Option (List ℕ)) {raw : List ℕ}
    → checked_data marshal o ≡ ok raw
    → o ≡ some raw
unfolding checked_data
checked_lem marshal none h = cc
checked_lem marshal (some x) {raw} h = go (ltb 262_144 (length x)) h
  where
    go : (b : Bool) → (if b then err payload_too_large else ok x) ≡ ok raw → some x ≡ some raw
    go true h = cc
    go false h = ap some (ok-injective h)

-- The body of an event is the encoding of its data.
new_lem :
    {D : Type 0} (marshal : D → Option (List ℕ)) (id : String) (now : ℕ) (event : Event D) (d : D)
    {env : Envelope}
    → event.body ≡ some d
    → new marshal id now event ≡ ok env
    → (marshal d ≡ some env.body) × (env.typ ≡ event.typ)
unfolding new marshal_data
new_lem marshal id now event d {env} same h =
    let (u1, g1, h1) = >>=-eq_ok (validate_type event.typ) _ h in
    let (u2, g2, h2) = >>=-eq_ok (fail_if (event.source == "") source_required) _ h1 in
    let (raw, g3, h3) = >>=-eq_ok (marshal_data marshal event.body) _ h2 in
    let made = ok-injective h3 in
    (
      checked_lem marshal (marshal d) (sym (ap (marshal_data marshal) same) ∙ g3)
          ∙ ap (λ (x : Envelope). some x.body) made,
      sym (ap (λ (x : Envelope). x.typ) made),
    )

module _ {V : Type 0} (values : Values V) (fails : Step → Bool) (encode : Envelope → List ℕ)
    (decode : List ℕ → Option Envelope) (parse_uuid : String → Option String) (trace : String) where
  -- The row says what the envelope says.
  abbrev Says : Envelope → List Row → List Row → Type 0
  Says env rows rows' =
      (row : Row) × (rows' ≡ row ∷ rows) × (row.payload ≡ encode env) × (row.event_type ≡ env.typ)

  payload_row :
      (id : String) (r : Record) (rows : List Row) (p : Result EventError (List ℕ))
      {rows' : List Row}
      → marshal_envelope encode decode r.envelope ≡ p
      → append_payload encode decode id trace true r rows p ≡ ok rows'
      → Says r.envelope rows rows'
  unfolding append_payload marshal_envelope
  payload_row id r rows (err e) m h = cc
  payload_row id r rows (ok payload) m h =
      let (u, g, h1) = >>=-eq_ok (validate r.envelope) _ m in
      (_, sym (ok-injective h), sym (ok-injective h1), refl)

  record_row :
      (r : Record) (rows : List Row) {rows' : List Row}
      → append_record encode decode parse_uuid trace true r rows ≡ ok rows'
      → Says r.envelope rows rows'
  unfolding append_record append_parsed
  record_row r rows {rows'} h = go (parse_uuid r.envelope.id) h
    where
      go :
          (id : Option String)
          → append_parsed encode decode id trace true r rows ≡ ok rows'
          → Says r.envelope rows rows'
      go none h = cc
      go (some id) h = payload_row id r rows (marshal_envelope encode decode r.envelope) refl h

  appended_lem :
      (s : Step) (o : Result OutboxError (List Row)) {rows : List Row}
      → appended values fails s o ≡ ok rows
      → o ≡ ok rows
  unfolding appended
  appended_lem s (err e) h = cc
  appended_lem s (ok x) {rows} h = go (fails s) h
    where
      go :
          (b : Bool)
          → (if b then err (failed_at s) else ok x) ≡ ok rows
          → ◌≡◌ {A = Result OutboxError (List Row)} (ok x) (ok rows)
      go true h = cc
      go false h = ap ok (ok-injective h)

  event_row :
      (s : Step) (aggregate document_id : String) (env : Envelope) (rows rows' : List Row)
      → append_event values fails encode decode parse_uuid trace s aggregate document_id env rows
        ≡ ok rows'
      → Says env rows rows'
  unfolding append_event
  event_row s aggregate document_id env rows rows' h =
      record_row _ rows
        (appended_lem s (append_record encode decode parse_uuid trace true _ rows) h)

  module _ (hash_of : V → String) (marshal_committed : CommittedData → Option (List ℕ))
      (marshal_dirty : DirtyData → Option (List ℕ)) (id dirty_id : String) (now dirty_now : ℕ) where
    -- The outbox has an event about a commit with these data.
    abbrev pub Published : CommittedData → List Row → Type 0
    Published d rows =
        (env : Envelope) × (row : Row) × In row rows
        × (row.event_type ≡ facts_committed)
        × (row.payload ≡ encode env)
        × (marshal_committed d ≡ some env.body)

    -- What a commit of a command that is built comes from.
    built_lem :
        (cmd : CommitCommand V) (t t' : Tables V) (r : CommitResult)
        (o : Result EventError (Envelope × Envelope))
        → build_envelopes hash_of marshal_committed marshal_dirty id dirty_id now dirty_now cmd ≡ o
        → commit_built hash_of marshal_committed marshal_dirty id dirty_id now dirty_now values
            fails encode decode parse_uuid trace cmd t o
          ≡ (ok r, t')
        → (committed : Envelope) × (dirty : Envelope) × (commit values fails encode decode
              parse_uuid trace cmd committed dirty t
            ≡ (ok tt, t'))
          × (new marshal_committed id now (committed_event hash_of cmd) ≡ ok committed)
          × (r.entity_ids ≡ entity_ids cmd.new_entities cmd.facts)
    unfolding commit_built build_envelopes
    built_lem cmd t t' r (err e) m h =
        let bad : ◌≡◌ {A = Result ServiceError CommitResult} (err (envelope_failed e)) (ok r) =
          ap (λ (x : Result ServiceError CommitResult × Tables V). x.0) h in
        cc
    built_lem cmd t t' r (ok (committed, dirty)) m h =
        let (c, g, h1) =
          >>=-eq_ok (new marshal_committed id now (committed_event hash_of cmd)) _ m in
        let (d, g', h2) =
          >>=-eq_ok (new marshal_dirty dirty_id dirty_now (dirty_event hash_of cmd)) _ h1 in
        let same : c ≡ committed = ap (λ (x : Envelope × Envelope). x.0) (ok-injective h2) in
        let (e, ids) =
          settled (commit values fails encode decode parse_uuid trace cmd committed dirty t) h in
        (committed, dirty, e, g ∙ ap ok same, ids)
      where
        settled :
            (o : Result StoreError (Unit {0}) × Tables V)
            → result_of hash_of marshal_committed marshal_dirty id dirty_id now dirty_now cmd o
              ≡ (ok r, t')
            → (o ≡ (ok tt, t')) × (r.entity_ids ≡ entity_ids cmd.new_entities cmd.facts)
        settled (err e, s) h =
            let bad : ◌≡◌ {A = Result ServiceError CommitResult} (err (commit_failed e)) (ok r) =
              ap (λ (x : Result ServiceError CommitResult × Tables V). x.0) h in
            cc
        settled (ok u, s) h =
            let done : ◌≡◌ {A = Result ServiceError CommitResult} (ok _) (ok r) =
              ap (λ (x : Result ServiceError CommitResult × Tables V). x.0) h in
            (
              ap (λ (x : Result ServiceError CommitResult × Tables V). (ok tt, x.1)) h,
              sym (ap (λ (x : CommitResult). x.entity_ids) (ok-injective done)),
            )

    published :
        (cmd : CommitCommand V) (t t' : Tables V) (committed dirty : Envelope)
        → commit values fails encode decode parse_uuid trace cmd committed dirty t ≡ (ok tt, t')
        → (row : Row) × In row t'.outbox
          × (row.payload ≡ encode committed)
          × (row.event_type ≡ committed.typ)
    unfolding commit
    published cmd t t' committed dirty done =
        let s = body_Steps values fails encode decode parse_uuid trace cmd committed dirty t t' (
          settled_lem values fails encode decode parse_uuid trace cmd committed dirty t _ t'
            done) in
        let (rows, first, second) = s.events_made in
        let (row, e, says, typ) =
          event_row append_committed "facts" cmd.document_id committed t.outbox rows first in
        let (row', e', says', typ') =
          event_row append_dirty "cluster" cmd.document_id dirty rows t'.outbox second in
        (
          row,
          subst (λ (l : List Row). In row l) (sym e')
              (inr (subst (λ (l : List Row). In row l) (sym e) (inl refl))),
          says,
          typ,
        )

    -- Where the slug of a new entity has a row before the commit and the entity's own identifier has none, and no new entity
    -- repeats the identifier of another, the identifier has no row after a commit that succeeds: and yet the result of the
    -- commit names it, and the outbox has the event about the commit with data that name it.
    pub stale_entity_id :
        (cmd : CommitCommand V) (t t' : Tables V) (r : CommitResult) (e : Entity) (other : String)
        → In e cmd.new_entities
        → NoRepeats (ids_of cmd.new_entities)
        → id_of_slug e.slug t.entities ≡ some other
        → has_entity e.id t.entities ≡ false
        → commit_command hash_of marshal_committed marshal_dirty id dirty_id now dirty_now values
            fails encode decode parse_uuid trace cmd t
          ≡ (ok r, t')
        → (has_entity e.id t'.entities ≡ false)
          × (contains r.entity_ids e.id ≡ true)
          × ((d : CommittedData) × Published d t'.outbox × (contains d.entity_ids e.id ≡ true))
    unfolding commit_command
    stale_entity_id cmd t t' r e other m n h k g =
        let (committed, dirty, done, made, ids) =
          built_lem cmd t t' r
            (build_envelopes hash_of marshal_committed marshal_dirty id dirty_id now dirty_now cmd)
            refl g in
        let (gone, named) =
          stale_row values fails encode decode parse_uuid trace cmd committed dirty t e other t' m n
            h k done in
        let (body, typ) =
          new_lem marshal_committed id now (committed_event hash_of cmd)
            (committed_data hash_of cmd) refl made in
        let (row, there, says, named_type) = published cmd t t' committed dirty done in
        (
          gone,
          rw ids named,
          (
            committed_data hash_of cmd,
            (committed, row, there, named_type ∙ typ, says, body),
            named,
          ),
        )
