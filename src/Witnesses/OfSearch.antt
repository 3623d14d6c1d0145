-- ===== src/Witnesses/OfSearch.antt =====
-- Witnesses of the evidence for a plan.
use nornickel_hackathon.Prelude.{
  ℕ, String, Bool, none, some, List, [], ◌∷◌, ◌++◌, take, length, ◌≡◌, ◌⊎◌, ◌≤◌, refl,
}
use nornickel_hackathon.Witnesses.{small_float, small_asymm, small_split}
use nornickel_hackathon.Catalog.Resolve.{Text}
use nornickel_hackathon.Search.{
  Ranking, Fact, Contradiction, rank_facts, score_facts, score_fact, score_of, final_score,
  sort_facts, insert_fact, assign_refs, final_top_of, fts_top_of, remap_contradictions, remap_found,
  compute_stats, doc_years,
}
use nornickel_hackathon.Search.Pack.{
  Plan, Repo, EvidencePack, build_pack, pack_found, pack_of, empty_pack,
}
use nornickel_hackathon.Search.Rank.{Numbers, Descends, count, rank_facts_best}
use nornickel_hackathon.Search.References.{Referenced, build_pack_lem}

abbrev ranking : Ranking small_float
ranking = record {
  weights = record {
    match_strength = 1;
    rerank_score = 1;
    source_reliability = 1;
    validation_level = 1;
    freshness = 1;
  };
  source_reliability = [];
  validation_level = [];
  freshness_lambda = 0;
  fts_top = 0;
  final_top = 1;
}

abbrev fact : String → String → Fact small_float ℕ
fact id slug = record {
  id = id;
  ref = "";
  subject_slug = slug;
  parameter_slug = "";
  geography = "ru";
  document_id = "d1";
  doc_type = "report";
  year = 0;
  confidence = 0;
  validation_status = "";
  score = 0;
  components = record { match_part = 0; rerank = 0; source = 0; validation = 0; freshness = 0 };
  rest = 0;
}

abbrev facts : List (Fact small_float ℕ)
facts = fact "f1" "zinc" ∷ fact "f2" "copper" ∷ []

facts-Numbers :
    Numbers small_float small_asymm small_split
      (score_facts small_float ranking 2024 ("copper" ∷ []) facts)
unfolding score_facts score_fact score_of final_score
facts-Numbers = (refl, (refl, tt))

rank_facts_best_example :
    let best = take 1 (rank_facts small_float ranking 2024 ("copper" ∷ []) facts) in
    (rest : List (Fact small_float ℕ)) × Descends small_float small_asymm small_split (best ++ rest)
    × ((p : Fact small_float ℕ → Bool)
        → count small_float small_asymm small_split p (best ++ rest)
          ≡ count small_float small_asymm small_split p
              (score_facts small_float ranking 2024 ("copper" ∷ []) facts))
    × (length best ≤ 1)
rank_facts_best_example =
    rank_facts_best small_float small_asymm small_split ranking 2024 ("copper" ∷ []) facts 1
      facts-Numbers

abbrev contradictions : List (Contradiction ℕ)
contradictions =
    record { a_fact_ref = "f2"; b_fact_ref = "f2"; rest = 5 }
    ∷ record { a_fact_ref = "f1"; b_fact_ref = "f2"; rest = 6 }
    ∷ []

abbrev repo : Repo small_float ℕ ℕ ℕ
repo = record {
  expand_entity_ids = λ slugs. some ("x" ∷ []);
  facts = λ ids filter. some facts;
  fts_chunks = λ query top. some (1 ∷ 2 ∷ []);
  contradictions = λ ids. some contradictions;
  surroundings = λ ids. some 0;
}

abbrev text : Text
text = record {
  trim_space = λ s. s;
  to_lower = λ s. s;
  fields = λ s. s ∷ [];
  cut_colon = λ s. none;
  undash = λ s. s;
}

abbrev plan : Plan small_float
plan = record { slugs = "copper" ∷ []; geography = "ru"; constraints = [] }

abbrev show_ref : ℕ → String
show_ref n = "F"

abbrev best_fact : Fact small_float ℕ
best_fact = record (fact "f2" "copper") {
  ref = "F";
  score = 1;
  components = record { match_part = 1; rerank = 0; source = 0; validation = 0; freshness = 0 };
}

abbrev pack : EvidencePack small_float ℕ ℕ ℕ
pack = record {
  facts = best_fact ∷ [];
  chunks = 1 ∷ [];
  contradictions = record { a_fact_ref = "F"; b_fact_ref = "F"; rest = 5 } ∷ [];
  surroundings = some 0;
  stats = record { sources = 1; ru_sources = 1; foreign_sources = 0; year_from = 0; year_to = 0 };
}

pack-built : build_pack small_float ℕ ℕ ℕ repo text show_ref ranking 2024 plan ≡ some pack
unfolding build_pack pack_found pack_of rank_facts score_facts score_fact score_of final_score
    sort_facts insert_fact assign_refs final_top_of fts_top_of remap_contradictions remap_found
    compute_stats doc_years
pack-built = refl

build_pack_lem_example :
    (pack ≡ empty_pack small_float ℕ ℕ ℕ)
    ⊎ ((ids : List String) × (repo.expand_entity_ids plan.slugs ≡ some ids)
        × ((cs : List (Contradiction ℕ)) × (repo.contradictions ids ≡ some cs)
            × Referenced small_float repo text show_ref ranking 2024 cs pack))
build_pack_lem_example =
    build_pack_lem small_float repo text show_ref ranking 2024 plan pack pack-built
