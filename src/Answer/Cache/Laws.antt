-- ===== src/Answer/Cache/Laws.antt =====
-- The cache against a map from keys to answers, and the worker that removes answers.
use nornickel_hackathon.Prelude.{
  ℕ, ◌+◌, String, Bool, true, false, ◌||◌, Option, none, some, List, [], ◌∷◌, ltb, contains, ◌==◌,
  eq_iff, NoRepeats, if◌then◌else◌, lookup, insert, lookup-insert, Result, ok, err, >>=-eq_ok,
  ok-injective, ◌≡◌, ◌⊎◌, refl, sym, ap, ◌∙◌, arith, Bool-cases, inl, inr,
}
use nornickel_hackathon.Events.Bus.{AckAction, ack, nack}
use nornickel_hackathon.Answer.Cache.{
  CacheError, CacheRow, CachedAnswer, Codec, Table, required, overlaps, slugs_of, resolve_slugs,
  remove_rows, invalidate, after_invalidate, after_resolve, handle, read_evidence, with_evidence,
  with_answer, with_stored, with_plan, write_failed, read_row, row_of, write_row, get, put,
}

abbrev pub keys_of : Table → List String
keys_of [] = []
keys_of ((key, row) ∷ table) = key ∷ keys_of table

-- The primary key of the table.
abbrev pub HasKeys : Table → Type 0
HasKeys table = NoRepeats (keys_of table)

-- A row that does not name one of the slugs.
abbrev pub spared : List String → Option CacheRow → Option CacheRow
spared slugs none = none
spared slugs (some row) = if overlaps slugs row then none else some row

remove-keys :
    (slugs : List String) (table : Table) (key : String)
    → contains (keys_of table) key ≡ false
    → contains (keys_of (remove_rows slugs table)) key ≡ false
unfolding remove_rows
remove-keys slugs [] key h = refl
remove-keys slugs ((k, row) ∷ table) key h = elim (Bool-cases (overlaps slugs row)) [
  | inl e ↦ rw e (remove-keys slugs table key (ground arith))
  | inr e ↦ rw e (ground (arith, remove-keys slugs table key))
]

remove-HasKeys :
    (slugs : List String) (table : Table) → HasKeys table → HasKeys (remove_rows slugs table)
unfolding remove_rows
remove-HasKeys slugs [] h = tt
remove-HasKeys slugs ((k, row) ∷ table) h = elim (Bool-cases (overlaps slugs row)) [
  | inl e ↦ rw e (remove-HasKeys slugs table h.1)
  | inr e ↦ rw e (remove-keys slugs table k h.0, remove-HasKeys slugs table h.1)
]

absent :
    (table : Table) (key : String) → contains (keys_of table) key ≡ false → lookup key table ≡ none
absent [] key h = refl
absent ((k, row) ∷ table) key h = ground (arith, h, absent table key)

lookup-remove :
    (slugs : List String) (table : Table) (key : String)
    → HasKeys table
    → lookup key (remove_rows slugs table) ≡ spared slugs (lookup key table)
unfolding remove_rows
lookup-remove slugs [] key h = refl
lookup-remove slugs ((k, row) ∷ table) key h = elim (Bool-cases (k == key)) [
  | inl e ↦ elim (Bool-cases (overlaps slugs row)) [
    | inl o ↦ rw o (
        rw e (
          rw o (
            absent (remove_rows slugs table) key
              (remove-keys slugs table key (rw (sym ((eq_iff k key).0 e)) h.0)))))
    | inr o ↦ rw o (rw e (rw o refl))
  ]
  | inr e ↦ elim (Bool-cases (overlaps slugs row)) [
    | inl o ↦ rw o (rw e (lookup-remove slugs table key h.1))
    | inr o ↦ rw o (rw e (lookup-remove slugs table key h.1))
  ]
]

insert-keys :
    (key k : String) (row : CacheRow) (table : Table)
    → contains (keys_of (insert key row table)) k ≡ (key == k || contains (keys_of table) k)
insert-keys key k row [] = refl
insert-keys key k row ((j, w) ∷ table) =
    ground (arith, eq_iff j key, eq_iff j k, eq_iff key k, insert-keys key k row table)

insert-HasKeys :
    (key : String) (row : CacheRow) (table : Table) → HasKeys table → HasKeys (insert key row table)
insert-HasKeys key row [] h = (refl, tt)
insert-HasKeys key row ((j, w) ∷ table) h = elim (Bool-cases (j == key)) [
  | inl e ↦ rw e (rw (sym ((eq_iff j key).0 e)) h.0, h.1)
  | inr e ↦ rw e (
    insert-keys key j row table ∙ ground (arith, h.0, e, eq_iff j key, eq_iff key j),
    insert-HasKeys key row table h.1,
  )
]

write-HasKeys :
    {P E A : Type 0} (codec : Codec P E A) (writes : Bool) (key : String) (table : Table)
    (r : Result CacheError CacheRow)
    → HasKeys table
    → HasKeys (write_row codec writes key table r).1
unfolding write_row
write-HasKeys codec writes key table (err e) h = h
write-HasKeys codec true key table (ok row) h = insert-HasKeys key row table h
write-HasKeys codec false key table (ok row) h = h

spared_none : (o : Option CacheRow) → spared [] o ≡ o
unfolding overlaps
spared_none none = refl
spared_none (some row) = refl

-- The outcome of the worker: the rows that name one of the slugs are removed, or nothing is.
abbrev pub Settles : List String → Table → AckAction × Table → Type 0
Settles slugs table (action, after) =
    ((action ≡ ack) × ((key : String) → lookup key after ≡ spared slugs (lookup key table)))
    ⊎ ((action ≡ nack) × (after ≡ table))

invalidate-Settles :
    (works : Bool) (slugs : List String) (table : Table)
    → HasKeys table
    → Settles slugs table (after_invalidate (invalidate works slugs table))
      × HasKeys (after_invalidate (invalidate works slugs table)).1
unfolding invalidate after_invalidate
invalidate-Settles works [] table h = (inl (refl, λ key. sym (spared_none (lookup key table))), h)
invalidate-Settles true (s ∷ slugs) table h =
    (inl (refl, λ key. lookup-remove (s ∷ slugs) table key h), remove-HasKeys (s ∷ slugs) table h)
invalidate-Settles false (s ∷ slugs) table h = (inr (refl, refl), h)

handle_lem :
    (resolves works : Bool) (entities : List (String × String)) (ids : List String) (table : Table)
    → HasKeys table
    → Settles (slugs_of ids entities) table (handle resolves works entities (some ids) table)
      × HasKeys (handle resolves works entities (some ids) table).1
unfolding handle after_resolve resolve_slugs slugs_of
handle_lem resolves works entities [] table h = (
  inl (
    refl,
    λ key. sym (
        ap (λ (s : List String). spared s (lookup key table)) (no_slugs entities)
        ∙ spared_none (lookup key table)),
  ),
  h,
)
  where
    no_slugs : (es : List (String × String)) → slugs_of [] es ≡ []
    no_slugs [] = refl
    no_slugs ((id, slug) ∷ es) = no_slugs es
handle_lem true works entities (id ∷ ids) table h =
    invalidate-Settles works (slugs_of (id ∷ ids) entities) table h
handle_lem false works entities (id ∷ ids) table h = (inr (refl, refl), h)

-- Where the worker takes a message about facts, it acknowledges it and every answer that names a slug
-- of one of the message's entities is gone while all other answers stay, or it asks for the message
-- again and has changed nothing.
pub handle_invalidates :
    (resolves works : Bool) (entities : List (String × String)) (ids : List String) (table : Table)
    → HasKeys table
    → Settles (slugs_of ids entities) table (handle resolves works entities (some ids) table)
handle_invalidates resolves works entities ids table h =
    (handle_lem resolves works entities ids table h).0

-- The table of answers keeps its primary key under each write and each message to the worker.
pub cache-HasKeys :
    {P E A : Type 0} (codec : Codec P E A) (writes : Bool) (ttl now : ℕ) (key : String)
    (value : CachedAnswer P E A) (resolves works : Bool) (entities : List (String × String))
    (ids : List String) (table : Table)
    → HasKeys table
    → HasKeys (put codec writes ttl now key value table).1
      × HasKeys (handle resolves works entities (some ids) table).1
unfolding put
cache-HasKeys codec writes ttl now key value resolves works entities ids table h = (
  write-HasKeys codec writes key table (row_of codec ttl now value) h,
  (handle_lem resolves works entities ids table h).1,
)

-- What the encodings and the columns keep. `Same` tells that two texts are of one JSON value: a
-- column of type jsonb and the raw parts of a stored answer keep the value and not the text, and a
-- decoder of an encoded part reads any text of its value. The text of an evidence is not empty.
pub record IsSound {P E A : Type 0} (codec : Codec P E A) : Type 1 where
  pub Same : List ℕ → List ℕ → Type 0
  pub plan_column :
      (p : P) (raw : List ℕ) → codec.marshal_plan p ≡ some raw → Same raw (codec.jsonb raw)
  pub stored_column :
      (a e raw : List ℕ) → codec.marshal_stored a e ≡ some raw → Same raw (codec.jsonb raw)
  pub plan :
      (p : P) (raw text : List ℕ)
      → codec.marshal_plan p ≡ some raw
      → Same raw text
      → codec.unmarshal_plan text ≡ some p
  pub evidence :
      (e : E) (raw text : List ℕ)
      → codec.marshal_evidence e ≡ some raw
      → Same raw text
      → read_evidence codec text ≡ some e
  pub answer :
      (a : A) (raw text : List ℕ)
      → codec.marshal_answer a ≡ some raw
      → Same raw text
      → codec.unmarshal_answer text ≡ some a
  pub stored :
      (a e raw text : List ℕ)
      → codec.marshal_stored a e ≡ some raw
      → Same raw text
      → (a' : List ℕ) × (e' : List ℕ) × (codec.unmarshal_stored text ≡ some (a', e'))
        × Same a a'
        × Same e e'

module _ {P E A : Type 0} (codec : Codec P E A) (sound : IsSound codec) where
  required_lem : {B : Type 0} (o : Option B) {b : B} → required o ≡ ok b → o ≡ some b
  unfolding required
  required_lem none h = cc
  required_lem (some x) h = cc

  decoded :
      (value : CachedAnswer P E A) (p a e s : List ℕ)
      → codec.marshal_plan value.plan ≡ some p
      → codec.marshal_answer value.answer ≡ some a
      → codec.marshal_evidence value.evidence ≡ some e
      → codec.marshal_stored a e ≡ some s
      → with_plan codec (codec.jsonb s) (codec.unmarshal_plan (codec.jsonb p)) ≡ some value
  unfolding with_plan with_stored with_answer with_evidence
  decoded value p a e s hp ha he hs =
      let (a', e', read, same_a, same_e) =
        sound.stored a e s (codec.jsonb s) hs (sound.stored_column a e s hs) in
      rw (sound.plan value.plan p (codec.jsonb p) hp (sound.plan_column value.plan p hp)) (
        rw read (
          rw (sound.answer value.answer a a' ha same_a)
            (rw (sound.evidence value.evidence e e' he same_e) refl)))

  row_lem :
      (ttl now later : ℕ) (value : CachedAnswer P E A) (row : CacheRow)
      → row_of codec ttl now value ≡ ok row
      → read_row codec later (some row) ≡ (if ltb later (now + ttl) then some value else none)
  unfolding row_of read_row
  row_lem ttl now later value row h =
      let (p, hp, h1) = >>=-eq_ok (required (codec.marshal_plan value.plan)) _ h in
      let (a, ha, h2) = >>=-eq_ok (required (codec.marshal_answer value.answer)) _ h1 in
      let (e, he, h3) = >>=-eq_ok (required (codec.marshal_evidence value.evidence)) _ h2 in
      let (s, hs, h4) = >>=-eq_ok (required (codec.marshal_stored a e)) _ h3 in
      rw (sym (ok-injective h4)) (
        rw
          (decoded value p a e s (required_lem _ hp) (required_lem _ ha) (required_lem _ he)
            (required_lem _ hs))
          refl)

  -- Where the encodings and the columns keep JSON values: after a write that succeeds, a read under its key gives the answer that was written until the time to live
  -- is over and nothing from then on, and a read under another key gives what it gave before.
  pub put-get :
      (writes : Bool) (ttl now later : ℕ) (key k : String) (value : CachedAnswer P E A)
      (table : Table)
      → (put codec writes ttl now key value table).0 ≡ ok tt
      → get codec true later k (put codec writes ttl now key value table).1 ≡ (
          if key == k
          then ok (if ltb later (now + ttl) then some value else none)
          else get codec true later k table)
  unfolding put get write_row
  put-get writes ttl now later key k value table h = go (row_of codec ttl now value) refl h
    where
      go :
          (r : Result CacheError CacheRow)
          → row_of codec ttl now value ≡ r
          → (write_row codec writes key table r).0 ≡ ok tt
          → get codec true later k (write_row codec writes key table r).1 ≡ (
              if key == k
              then ok (if ltb later (now + ttl) then some value else none)
              else get codec true later k table)
      go (err e) m h = cc
      go (ok row) m h = elim (Bool-cases writes) [
        | inl w ↦ rw w (
            rw (lookup-insert key k row table) (elim (Bool-cases (key == k)) [
              | inl same ↦ rw same (ap ok (row_lem ttl now later value row m))
              | inr other ↦ rw other refl
            ]))
        | inr w ↦
            let failed : ◌≡◌ {A = Result CacheError (Unit {0})} (err write_failed) (ok tt) =
              ap (λ (b : Bool). (write_row codec b key table (ok row)).0) (sym w) ∙ h in
            cc
      ]
