-- ===== src/Witnesses/OfAnswer.antt =====
-- Witnesses of the answers.
use nornickel_hackathon.Prelude.{
  ℕ, String, true, ◌||◌, ◌&&◌, ◌⊎◌, not, Option, none, some, List, [], ◌∷◌, ◌++◌, All, contains,
  length, IsSubset, ◌≡◌, ◌↔◌, ◌≤◌, refl, ok, ◌==◌,
}
use nornickel_hackathon.Witnesses.{small_float}
use nornickel_hackathon.Answer.{
  Parts, World, ask, ask_planned, ask_cached, ask_fresh, ask_evidence, cache_get, put_cache,
  answer_of, synthesis_of, guarded, emit, emit_deltas, check_alive, or_fail, replay_cached,
}
use nornickel_hackathon.Answer.Events.{Answered, ask_events}
use nornickel_hackathon.Answer.Guard.{
  unsupported, run_guard, run_guard_lem, count, is_year, contains_approx,
}
use nornickel_hackathon.Answer.Chunks.{
  Chunk, interleave_chunks, interleave_chunks_lem, Distinct, ids, given,
}

-- 2020 is a year, 5 is supported, and 9 is not.
run_guard_lem_example :
    let r = run_guard small_float (2020 ∷ 5 ∷ 9 ∷ []) (5 ∷ []) in
    (r.numbers_checked ≡ count small_float (λ v. not (is_year small_float v)) (2020 ∷ 5 ∷ 9 ∷ []))
    × (r.violations ≡ count small_float (unsupported small_float (5 ∷ [])) (2020 ∷ 5 ∷ 9 ∷ []))
    × (r.violations ≤ r.numbers_checked)
    × ((r.violations ≡ 0)
        ↔ All
            (λ v. (is_year small_float v || contains_approx small_float (5 ∷ []) v) ≡ true)
            (2020 ∷ 5 ∷ 9 ∷ []))
run_guard_lem_example = run_guard_lem small_float (2020 ∷ 5 ∷ 9 ∷ []) (5 ∷ [])

abbrev chunk : String → Option (Chunk ℕ)
chunk id = some (record { id = id; content = 0 })

abbrev lexical : List (Option (Chunk ℕ))
lexical = chunk "a" ∷ none ∷ chunk "b" ∷ []

abbrev semantic : List (Option (Chunk ℕ))
semantic = chunk "a" ∷ chunk "c" ∷ []

interleave_chunks_lem_example :
    let r = interleave_chunks ℕ lexical semantic 4 in
    Distinct ℕ 4 r
    × IsSubset (ids ℕ r) (given ℕ lexical ++ given ℕ semantic)
    × ((length r ≡ 4)
        ⊎ ((x : String)
            → contains (ids ℕ r) x
              ≡ (contains (given ℕ lexical ++ given ℕ semantic) x && not (x == ""))))
interleave_chunks_lem_example = interleave_chunks_lem ℕ lexical semantic 4

abbrev parts : Parts ℕ ℕ ℕ ℕ ℕ
parts = record {
  plan_and_terms = λ q. some (1, []);
  plan_key = λ p access. access;
  search = λ p. some 2;
  augment = λ terms q e. e;
  synthesize = λ q e. some (record { summary = "text"; methods = 3; confidence = 1 });
  extractive = λ e. record { summary = "quote"; methods = 3; confidence = 1 };
  run_guard = λ s e. (1, 0);
  chunk_deltas = λ s. s ∷ [];
  methods_payload = λ m. some m;
  has_cache = true;
  cache_reads = true;
  cache_writes = true;
  accepts = λ sent. true;
  alive = λ sent. true;
}

abbrev empty_world : World ℕ ℕ ℕ ℕ ℕ
empty_world = record { sent = []; cache = [] }

question-answered : (ask ℕ ℕ ℕ ℕ ℕ parts "why" "public" empty_world).0 ≡ ok tt
unfolding ask ask_planned ask_cached ask_fresh ask_evidence cache_get put_cache answer_of
    synthesis_of guarded emit emit_deltas check_alive or_fail replay_cached
question-answered = refl

ask_events_example :
    (plan : ℕ) × (terms : List String) × (parts.plan_and_terms "why" ≡ some (plan, terms))
    × Answered ℕ ℕ ℕ ℕ ℕ parts
        (parts.plan_key plan "public")
        empty_world
        (ask ℕ ℕ ℕ ℕ ℕ parts "why" "public" empty_world).1
ask_events_example = ask_events ℕ ℕ ℕ ℕ ℕ parts "why" "public" empty_world question-answered
