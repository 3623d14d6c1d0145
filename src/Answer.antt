-- ===== src/Answer.antt =====
-- internal/answer/app/service.go: `Ask`, the cache of answers and the events that are sent.
--
-- What `Ask` calls and does not decide itself are the fields of `Parts`: the planner with its terms,
-- the key of a plan, the search with the retrieval that adds to its evidence, the synthesizers, the
-- check of the numbers (in `Answer.Guard`), the cutting of a text into deltas and the encoding of the
-- methods. The state is the cache and the list of the events that were sent, the first one first.
pub mod Guard
pub mod Cache
pub mod Chunks
pub mod Deltas
pub mod Synth
pub mod Events
use nornickel_hackathon.Prelude.{
  ℕ, zero, suc, String, Bool, true, false, ◌&&◌, ◌||◌, not, Option, none, some, List, [], ◌∷◌, ◌++◌,
  nat_eq, ltb, ◌==◌, if◌then◌else◌, lookup, insert, Assoc, Result, ok, err,
}

pub data AskError : Type 0 where
  question_required plan_failed search_failed encode_failed emit_failed cancelled : AskError

pub record GuardReport : Type 0 where
  pub numbers_checked : ℕ
  pub violations : ℕ
  pub degraded : Bool

-- `M` is what the synthesizer says of methods, and `C` its confidence.
pub record Synthesis (M C : Type 0) : Type 0 where
  pub summary : String
  pub methods : M
  pub confidence : C

module _ (P E M C Payload : Type 0) where
  pub record AnswerDoc : Type 0 where
    pub summary : String
    pub confidence : C
    pub payload : Payload
    pub guard : GuardReport

  pub data AskResponse : Type 0 where
    plan_event : P → AskResponse
    evidence_event : E → AskResponse
    delta_event : String → AskResponse
    done_event : AnswerDoc → AskResponse

  pub record CachedAnswer : Type 0 where
    pub plan : P
    pub evidence : E
    pub answer : AnswerDoc

  pub record World : Type 0 where
    pub sent : List AskResponse
    pub cache : Assoc CachedAnswer

  pub record Parts : Type 0 where
    pub plan_and_terms : String → Option (P × List String)
    pub plan_key : P → String → String
    pub search : P → Option E
    pub augment : List String → String → E → E
    -- the configured synthesizer, within its time limit, and the one that quotes the evidence
    pub synthesize : String → E → Option (Synthesis M C)
    pub extractive : E → Synthesis M C
    -- how many numbers were checked, and how many of them nothing supports
    pub run_guard : String → E → ℕ × ℕ
    pub chunk_deltas : String → List String
    pub methods_payload : M → Option Payload
    pub has_cache : Bool
    -- whether the cache can be read and written
    pub cache_reads : Bool
    pub cache_writes : Bool
    -- whether the receiver takes one more event, and whether the request is alive, after these events
    pub accepts : List AskResponse → Bool
    pub alive : List AskResponse → Bool

  abbrev pub Ask : Type 0 → Type 0
  Ask A = World → Result AskError A × World

  abbrev pub continue :
      {A B : Type 0} → (A → Ask B) → Result AskError A × World → Result AskError B × World
  continue f (ok a, w) = f a w
  continue f (err e, w) = (err e, w)

  infixl 5 ◌>>=◌ ◌>>◌
  abbrev pub ◌>>=◌ : {A B : Type 0} → Ask A → (A → Ask B) → Ask B
  ◌>>=◌ m f w = continue f (m w)

  abbrev pub ◌>>◌ : {B : Type 0} → Ask (Unit {0}) → Ask B → Ask B
  m >> n = m >>= λ _. n

  unfoldable pub or_fail : {A : Type 0} → AskError → Option A → Ask A
  or_fail e none w = (err e, w)
  or_fail e (some a) w = (ok a, w)

  module _ (parts : Parts) where
    open parts use {
      plan_and_terms, plan_key, search, augment, synthesize, extractive, run_guard, chunk_deltas,
      methods_payload, has_cache, cache_reads, cache_writes, accepts, alive,
    }

    unfoldable pub emit : AskResponse → Ask (Unit {0})
    emit e w =
        if accepts w.sent
        then (ok tt, record w { sent = w.sent ++ e ∷ [] })
        else (err emit_failed, w)

    unfoldable pub check_alive : Ask (Unit {0})
    check_alive w = if alive w.sent then (ok tt, w) else (err cancelled, w)

    -- The loop over the deltas.
    unfoldable pub emit_deltas : List String → Ask (Unit {0})
    emit_deltas [] w = (ok tt, w)
    emit_deltas (d ∷ deltas) w =
        let rest = emit_deltas deltas in (do check_alive; emit (delta_event d); rest) w

    unfoldable pub replay_cached : CachedAnswer → Ask (Unit {0})
    replay_cached c = do
      emit (plan_event c.plan)
      emit (evidence_event c.evidence)
      emit_deltas (chunk_deltas c.answer.summary)
      emit (done_event c.answer)

    -- The synthesis with its report: where the synthesizer fails, and where a number of its summary
    -- is not supported, the quoting one takes its place.
    unfoldable pub guarded : E → Synthesis M C → Bool → Synthesis M C × GuardReport
    guarded pack result degraded =
        let (checked, violations) = run_guard result.summary pack in
        if ltb 0 violations
        then (let quoted = extractive pack in
            let (checked', violations') = run_guard quoted.summary pack in
            (
              quoted,
              record { numbers_checked = checked'; violations = violations'; degraded = true },
            ))
        else (
          result,
          record { numbers_checked = checked; violations = violations; degraded = degraded },
        )

    unfoldable pub synthesis_of : E → Option (Synthesis M C) → Synthesis M C × GuardReport
    unfolding guarded
    synthesis_of pack none = guarded pack (extractive pack) true
    synthesis_of pack (some result) = guarded pack result false

    unfoldable pub put_cache : String → CachedAnswer → Ask (Unit {0})
    put_cache key c w =
        if has_cache
          && nat_eq c.answer.guard.violations 0
          && not c.answer.guard.degraded
          && cache_writes
        then (ok tt, record w { cache = insert key c w.cache })
        else (ok tt, w)

    unfoldable pub answer_of : Synthesis M C × GuardReport → Payload → AnswerDoc
    answer_of (result, report) payload = record {
      summary = result.summary;
      confidence = result.confidence;
      payload = payload;
      guard = report;
    }

    unfoldable pub ask_evidence : String → P → String → E → Ask (Unit {0})
    ask_evidence question plan key pack = do
      let written = synthesis_of pack (synthesize question pack)
      emit (evidence_event pack)
      emit_deltas (chunk_deltas written.0.summary)
      payload ← or_fail encode_failed (methods_payload written.0.methods)
      put_cache key (record { plan = plan; evidence = pack; answer = answer_of written payload })
      emit (done_event (answer_of written payload))

    unfoldable pub ask_fresh : String → P → List String → String → Ask (Unit {0})
    unfolding ask_evidence
    ask_fresh question plan terms key = do
      emit (plan_event plan)
      found ← or_fail search_failed (search plan)
      ask_evidence question plan key (augment terms question found)

    unfoldable pub ask_cached :
        String → P → List String → String → Option CachedAnswer → Ask (Unit {0})
    unfolding ask_fresh replay_cached
    ask_cached question plan terms key (some c) = replay_cached c
    ask_cached question plan terms key none = ask_fresh question plan terms key

    unfoldable pub cache_get : String → World → Option CachedAnswer
    cache_get key w = if has_cache && cache_reads then lookup key w.cache else none

    unfoldable pub ask_planned : String → String → P × List String → Ask (Unit {0})
    unfolding ask_cached cache_get
    ask_planned question access (plan, terms) w =
        ask_cached question plan terms (plan_key plan access) (cache_get (plan_key plan access) w) w

    -- `Ask`, for a question and the document access of its principal.
    unfoldable pub ask : String → String → Ask (Unit {0})
    unfolding ask_planned
    ask question access =
        if question == ""
        then (λ w. (err question_required, w))
        else (or_fail plan_failed (plan_and_terms question) >>= λ p. ask_planned question access p)
