-- ===== src/Answer/Cache.antt =====
-- internal/answer: the table of cached answers (adapters/pg/cache.go) and the worker that removes
-- answers when facts are committed (ports/consumer/consumer.go).
--
-- The table ops.answer_cache is an association list from keys to rows. The texts of plans, answers
-- and evidence are made and read by `Codec`. Instants are natural numbers of nanoseconds, so that a
-- time to live below zero is the number 0, which the source treats alike.

pub mod Laws
use nornickel_hackathon.Prelude.{
  ℕ, zero, suc, ◌+◌, String, Bool, true, false, not, Option, none, some, List, [], ◌∷◌, ◌++◌, ltb,
  any, keep, contains, length, ◌==◌, if◌then◌else◌, lookup, insert, Assoc, Result, ok, err, ◌>>=◌,
}
use nornickel_hackathon.Events.Bus.{AckAction, ack, nack, term}

pub data CacheError : Type 0 where
  read_failed marshal_failed write_failed resolve_failed invalidate_failed : CacheError

pub record CacheRow : Type 0 where
  pub plan : List ℕ
  pub answer : List ℕ
  pub entity_slugs : List String
  pub expires_at : ℕ

pub record CachedAnswer (P E A : Type 0) : Type 0 where
  pub plan : P
  pub evidence : E
  pub answer : A

-- protojson and json on the parts of a cached answer; `slugs_in` gives the slugs of the items that a
-- group of a plan lists, empty where an item has none.
pub record Codec (P E A : Type 0) : Type 0 where
  pub marshal_plan : P → Option (List ℕ)
  pub unmarshal_plan : List ℕ → Option P
  pub marshal_evidence : E → Option (List ℕ)
  pub unmarshal_evidence : List ℕ → Option E
  pub empty_evidence : E
  pub marshal_answer : A → Option (List ℕ)
  pub unmarshal_answer : List ℕ → Option A
  pub marshal_stored : List ℕ → List ℕ → Option (List ℕ)
  pub unmarshal_stored : List ℕ → Option (List ℕ × List ℕ)
  -- the text that a column of type jsonb gives back for a text that was written to it
  pub jsonb : List ℕ → List ℕ
  pub slugs_in : P → String → List String

-- 24 hours
abbrev pub default_ttl : ℕ
default_ttl = 86_400_000_000_000

unfoldable pub new_cache : ℕ → ℕ
new_cache zero = default_ttl
new_cache (suc ttl) = suc ttl

unfoldable pub required : {A : Type 0} → Option A → Result CacheError A
required none = err marshal_failed
required (some a) = ok a

abbrev pub Table : Type 0
Table = Assoc CacheRow

-- `entity_slugs && $1`
unfoldable pub overlaps : List String → CacheRow → Bool
overlaps slugs row = any (contains row.entity_slugs) slugs

-- `resolveSlugsSQL`, on the identifiers and slugs of the entities.
unfoldable pub slugs_of : List String → List (String × String) → List String
slugs_of ids [] = []
slugs_of ids ((id, slug) ∷ entities) =
    let rest = slugs_of ids entities in if contains ids id then slug ∷ rest else rest

unfoldable pub resolve_slugs :
    Bool → List (String × String) → List String → Result CacheError (List String)
unfolding slugs_of
resolve_slugs works entities [] = ok []
resolve_slugs works entities (id ∷ ids) =
    if works then ok (slugs_of (id ∷ ids) entities) else err resolve_failed

-- `invalidateSQL`: what it leaves, and how many rows it removes.
unfoldable pub remove_rows : List String → Table → Table
unfolding overlaps
remove_rows slugs [] = []
remove_rows slugs ((key, row) ∷ table) =
    let rest = remove_rows slugs table in if overlaps slugs row then rest else (key, row) ∷ rest

unfoldable pub count_rows : List String → Table → ℕ
unfolding overlaps
count_rows slugs [] = 0
count_rows slugs ((key, row) ∷ table) =
    let rest = count_rows slugs table in if overlaps slugs row then suc rest else rest

unfoldable pub invalidate : Bool → List String → Table → Result CacheError ℕ × Table
unfolding remove_rows count_rows
invalidate works [] table = (ok 0, table)
invalidate works (slug ∷ slugs) table =
    if works
    then (ok (count_rows (slug ∷ slugs) table), remove_rows (slug ∷ slugs) table)
    else (err invalidate_failed, table)

unfoldable pub after_invalidate : Result CacheError ℕ × Table → AckAction × Table
after_invalidate (err e, table) = (nack, table)
after_invalidate (ok removed, table) = (ack, table)

unfoldable pub after_resolve : Bool → Table → Result CacheError (List String) → AckAction × Table
unfolding after_invalidate invalidate
after_resolve works table (err e) = (nack, table)
after_resolve works table (ok slugs) = after_invalidate (invalidate works slugs table)

-- `handle` of the worker; `none` is a message whose data cannot be read. The flags tell whether the
-- query and the deletion succeed.
unfoldable pub handle :
    Bool → Bool → List (String × String) → Option (List String) → Table → AckAction × Table
unfolding after_resolve resolve_slugs
handle resolves works entities none table = (term, table)
handle resolves works entities (some []) table = (ack, table)
handle resolves works entities (some (id ∷ ids)) table =
    after_resolve works table (resolve_slugs resolves entities (id ∷ ids))

module _ {P E A : Type 0} (codec : Codec P E A) where
  open codec use {
    marshal_plan, unmarshal_plan, marshal_evidence, unmarshal_evidence, empty_evidence,
    marshal_answer, unmarshal_answer, marshal_stored, unmarshal_stored, jsonb, slugs_in,
  }

  unfoldable pub plan_slugs : P → List String
  plan_slugs plan =
      keep (λ s. not (s == ""))
        (slugs_in plan "materials" ++ slugs_in plan "processes" ++ slugs_in plan "properties")

  unfoldable pub read_evidence : List ℕ → Option E
  read_evidence [] = some empty_evidence
  read_evidence (b ∷ raw) = unmarshal_evidence (b ∷ raw)

  unfoldable pub with_evidence : P → A → Option E → Option (CachedAnswer P E A)
  with_evidence plan answer none = none
  with_evidence plan answer (some evidence) =
      some (record { plan = plan; evidence = evidence; answer = answer })

  unfoldable pub with_answer : P → List ℕ → Option A → Option (CachedAnswer P E A)
  unfolding with_evidence read_evidence
  with_answer plan raw none = none
  with_answer plan raw (some answer) = with_evidence plan answer (read_evidence raw)

  unfoldable pub with_stored : P → Option (List ℕ × List ℕ) → Option (CachedAnswer P E A)
  unfolding with_answer
  with_stored plan none = none
  with_stored plan (some (answer, evidence)) = with_answer plan evidence (unmarshal_answer answer)

  unfoldable pub with_plan : List ℕ → Option P → Option (CachedAnswer P E A)
  unfolding with_stored
  with_plan raw none = none
  with_plan raw (some plan) = with_stored plan (unmarshal_stored raw)

  -- A row that is there and has not expired; what cannot be read is taken for a miss.
  unfoldable pub read_row : ℕ → Option CacheRow → Option (CachedAnswer P E A)
  unfolding with_plan
  read_row now none = none
  read_row now (some row) =
      if ltb now row.expires_at
      then with_plan (jsonb row.answer) (unmarshal_plan (jsonb row.plan))
      else none

  unfoldable pub get : Bool → ℕ → String → Table → Result CacheError (Option (CachedAnswer P E A))
  unfolding read_row
  get reads now key table = if reads then ok (read_row now (lookup key table)) else err read_failed

  -- The row that `Put` writes.
  unfoldable pub row_of : ℕ → ℕ → CachedAnswer P E A → Result CacheError CacheRow
  unfolding required plan_slugs
  row_of ttl now value = do
    plan ← required (marshal_plan value.plan)
    answer ← required (marshal_answer value.answer)
    evidence ← required (marshal_evidence value.evidence)
    stored ← required (marshal_stored answer evidence)
    ok (record {
      plan = plan;
      answer = stored;
      entity_slugs = plan_slugs value.plan;
      expires_at = now + ttl;
    })

  unfoldable pub write_row :
      Bool → String → Table → Result CacheError CacheRow → Result CacheError (Unit {0}) × Table
  write_row writes key table (err e) = (err e, table)
  write_row writes key table (ok row) =
      if writes then (ok tt, insert key row table) else (err write_failed, table)

  unfoldable pub put :
      Bool → ℕ → ℕ → String → CachedAnswer P E A → Table → Result CacheError (Unit {0}) × Table
  unfolding write_row row_of
  put writes ttl now key value table = write_row writes key table (row_of ttl now value)
