-- ===== src/Search.antt =====
-- internal/search/app: the ranking of facts (ranking.go) and the evidence for a plan (service.go).
--
-- A fact carries the parts that nothing here reads as a value of the type `V`, and a plan is the
-- slugs of its entities, its geography and its constraints. The repository is the record `Repo`:
-- what each of its queries answers, with `none` for an error. The text of the n-th reference,
-- "F" and the number, is the argument `show_ref`.
pub mod Rank
pub mod Pack
pub mod References
use nornickel_hackathon.Prelude.{
  ℕ, zero, suc, ◌+◌, String, Bool, true, false, ◌&&◌, ◌||◌, not, Option, none, some, List, [], ◌∷◌,
  ◌++◌, ltb, leb, nat_eq, length, take, ◌==◌, if◌then◌else◌, contains, lookup, insert, Assoc,
}
use nornickel_hackathon.Float.{Float}
use nornickel_hackathon.Auth.Signed.{join}
use nornickel_hackathon.Catalog.Resolve.{Text}

pub record EvidenceStats : Type 0 where
  pub sources : ℕ
  pub ru_sources : ℕ
  pub foreign_sources : ℕ
  pub year_from : ℕ
  pub year_to : ℕ

pub record Contradiction (V : Type 0) : Type 0 where
  pub a_fact_ref : String
  pub b_fact_ref : String
  pub rest : V

-- `pageLimit`, where `none` is a nil page.
unfoldable pub page_limit : Option ℕ → ℕ → ℕ
page_limit none fallback = fallback
page_limit (some limit) fallback =
    if nat_eq limit 0 then fallback else if ltb 100 limit then 100 else limit

-- The body of the loop of `remapContradictions`.
unfoldable pub remap_found :
    {V : Type 0}
    → Contradiction V
    → Option String
    → Option String
    → List (Contradiction V)
    → List (Contradiction V)
remap_found c none b rest = rest
remap_found c (some a) none rest = rest
remap_found c (some a) (some b) rest = record c { a_fact_ref = a; b_fact_ref = b } ∷ rest

unfoldable pub remap_contradictions :
    {V : Type 0} → List (Contradiction V) → Assoc String → List (Contradiction V)
unfolding remap_found
remap_contradictions [] refs = []
remap_contradictions (c ∷ cs) refs =
    remap_found c (lookup c.a_fact_ref refs) (lookup c.b_fact_ref refs)
      (remap_contradictions cs refs)

-- `planQueryText`: the entities and the parameters of a plan, as words, each once.
module _ (text : Text) where
  open text use {trim_space, cut_colon, undash}

  unfoldable pub readable_slug : String → String
  readable_slug slug = elim (cut_colon slug) [
    | none ↦ undash slug
    | some (before, after) ↦ undash after
  ]

  unfoldable pub add_term : List String → String → List String
  add_term terms value =
      if trim_space value == "" || contains terms (trim_space value)
      then terms
      else terms ++ trim_space value ∷ []

  unfoldable pub add_terms : List String → List String → List String
  unfolding readable_slug add_term
  add_terms terms [] = terms
  add_terms terms (slug ∷ slugs) = add_terms (add_term terms (readable_slug slug)) slugs

  unfoldable pub plan_query_text : List String → List String → String
  unfolding add_terms
  plan_query_text slugs parameters = join " " (add_terms (add_terms [] slugs) parameters)

module _ (float : Float) where
  open float use {F, lt, add, sub, mul, div, lit, exp, round, of_diff}

  pub record RankingWeights : Type 0 where
    pub match_strength : F
    pub rerank_score : F
    pub source_reliability : F
    pub validation_level : F
    pub freshness : F

  pub record Ranking : Type 0 where
    pub weights : RankingWeights
    pub source_reliability : Assoc F
    pub validation_level : Assoc F
    pub freshness_lambda : F
    pub fts_top : ℕ
    pub final_top : ℕ

  pub record ScoreComponents : Type 0 where
    pub match_part : F
    pub rerank : F
    pub source : F
    pub validation : F
    pub freshness : F

  pub record Fact (V : Type 0) : Type 0 where
    pub id : String
    pub ref : String
    pub subject_slug : String
    pub parameter_slug : String
    pub geography : String
    pub document_id : String
    pub doc_type : String
    pub year : ℕ
    pub confidence : F
    pub validation_status : String
    pub score : F
    pub components : ScoreComponents
    pub rest : V

  -- A top that is zero or less means the default.
  unfoldable pub final_top_of : Ranking → ℕ
  final_top_of ranking = if nat_eq ranking.final_top 0 then 30 else ranking.final_top

  unfoldable pub fts_top_of : Ranking → ℕ
  fts_top_of ranking = if nat_eq ranking.fts_top 0 then 200 else ranking.fts_top

  abbrev pub round2 : F → F
  round2 value = div (round (mul value (lit 100 1))) (lit 100 1)

  abbrev pub lookup_or : Assoc F → String → F → F
  lookup_or table key fallback = elim (lookup key table) [ none ↦ fallback | some value ↦ value ]

  -- The negation of lambda is 0 - lambda.
  unfoldable pub score_of : Ranking → F → F → String → String → ℕ → ℕ → ScoreComponents
  score_of ranking match_strength confidence doc_type validation doc_year current_year = record {
    match_part = round2 match_strength;
    rerank = round2 (add (lit 5 10) (mul (lit 5 10) confidence));
    source = round2 (lookup_or ranking.source_reliability doc_type (lit 7 10));
    validation = round2 (lookup_or ranking.validation_level validation (lit 6 10));
    freshness = round2 (
        if nat_eq doc_year 0
        then lit 5 10
        else exp (mul (sub (lit 0 1) ranking.freshness_lambda) (of_diff current_year doc_year)));
  }

  unfoldable pub final_score : Ranking → ScoreComponents → F
  final_score ranking c =
      let w = ranking.weights in
      round2 (
        add
          (add
            (add (add (mul w.match_strength c.match_part) (mul w.rerank_score c.rerank))
              (mul w.source_reliability c.source))
            (mul w.validation_level c.validation))
          (mul w.freshness c.freshness))

  module _ {V : Type 0} where
    -- The body of the loop of `rankFacts`.
    unfoldable pub score_fact : Ranking → ℕ → List String → Fact V → Fact V
    unfolding score_of final_score
    score_fact ranking current_year slugs fact =
        let strength =
          if contains slugs fact.subject_slug || contains slugs fact.parameter_slug
          then lit 1 1
          else lit 6 10 in
        let c =
          score_of ranking strength fact.confidence fact.doc_type fact.validation_status fact.year
            current_year in
        record fact { components = c; score = final_score ranking c }

    unfoldable pub score_facts : Ranking → ℕ → List String → List (Fact V) → List (Fact V)
    unfolding score_fact
    score_facts ranking current_year slugs [] = []
    score_facts ranking current_year slugs (f ∷ facts) =
        score_fact ranking current_year slugs f ∷ score_facts ranking current_year slugs facts

    -- `sort.SliceStable` by descending score.
    unfoldable pub insert_fact : Fact V → List (Fact V) → List (Fact V)
    insert_fact f [] = f ∷ []
    insert_fact f (g ∷ facts) =
        let rest = insert_fact f facts in if lt f.score g.score then g ∷ rest else f ∷ g ∷ facts

    unfoldable pub sort_facts : List (Fact V) → List (Fact V)
    unfolding insert_fact
    sort_facts [] = []
    sort_facts (f ∷ facts) = insert_fact f (sort_facts facts)

    unfoldable pub rank_facts : Ranking → ℕ → List String → List (Fact V) → List (Fact V)
    unfolding score_facts sort_facts
    rank_facts ranking current_year slugs facts =
        sort_facts (score_facts ranking current_year slugs facts)

    -- `assignRefs`, from the reference after the given number on: the facts with their references, and
    -- the references by the identifier of the fact.
    unfoldable pub assign_refs :
        (ℕ → String) → ℕ → Assoc String → List (Fact V) → List (Fact V) × Assoc String
    assign_refs show_ref n refs [] = ([], refs)
    assign_refs show_ref n refs (f ∷ facts) =
        let (rest, all_refs) =
          assign_refs show_ref (suc n) (insert f.id (show_ref (suc n)) refs) facts in
        (record f { ref = show_ref (suc n) } ∷ rest, all_refs)

    unfoldable pub doc_years : Assoc (String × ℕ) → List (Fact V) → Assoc (String × ℕ)
    doc_years docs [] = docs
    doc_years docs (f ∷ facts) = doc_years (insert f.document_id (f.geography, f.year) docs) facts

  abbrev pub count_doc : EvidenceStats → String × ℕ → EvidenceStats
  count_doc stats (geography, year) =
      let s =
        if geography == "ru"
        then record stats { ru_sources = suc stats.ru_sources }
        else if geography == "foreign"
        then record stats { foreign_sources = suc stats.foreign_sources }
        else stats in
      if nat_eq year 0 then s else record s {
        year_from = if nat_eq s.year_from 0 || ltb year s.year_from then year else s.year_from;
        year_to = if ltb s.year_to year then year else s.year_to;
      }

  abbrev pub count_docs : EvidenceStats → Assoc (String × ℕ) → EvidenceStats
  count_docs stats [] = stats
  count_docs stats ((id, info) ∷ docs) = count_docs (count_doc stats info) docs

  unfoldable pub compute_stats : {V : Type 0} → List (Fact V) → EvidenceStats
  unfolding doc_years
  compute_stats facts =
      let docs = doc_years [] facts in
      count_docs
        (record {
          sources = length docs;
          ru_sources = 0;
          foreign_sources = 0;
          year_from = 0;
          year_to = 0;
        })
        docs
