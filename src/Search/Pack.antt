-- ===== src/Search/Pack.antt =====
-- `factFilter` and `buildPack` of internal/search/app/service.go.
--
-- Identifiers of entities, chunks, consensus, gaps, experts and the graph pass through: they are the
-- values of the types `C` and `G`.
use nornickel_hackathon.Prelude.{
  ℕ, String, ◌||◌, Option, none, some, List, [], ◌∷◌, ◌++◌, take, ◌==◌, if◌then◌else◌, Assoc, map,
}
use nornickel_hackathon.Float.{Float}
use nornickel_hackathon.Catalog.Resolve.{Text}
use nornickel_hackathon.Search.{
  Ranking, Fact, Contradiction, EvidenceStats, final_top_of, fts_top_of, rank_facts, assign_refs,
  compute_stats, remap_contradictions, plan_query_text,
}

infixl 5 ◌>>=◌
abbrev pub ◌>>=◌ : {A B : Type 0} → Option A → (A → Option B) → Option B
none >>= f = none
some a >>= f = f a

module _ (float : Float) where
  open float use {F, sub, lit}

  pub record Constraint : Type 0 where
    pub parameter : String
    pub op : String
    pub si_unit : String
    pub vmin_si : F
    pub vmax_si : F

  pub record FactFilter : Type 0 where
    pub geography : String
    pub param_slugs : List String
    pub range_lo : List F
    pub range_hi : List F

  pub record Plan : Type 0 where
    pub slugs : List String
    pub geography : String
    pub constraints : List Constraint

  -- The `switch` of `factFilter`: the range of an operator, or none where the constraint is passed over.
  unfoldable pub range_of : Constraint → Option (F × F)
  range_of c =
      if c.op == "range" || c.op == "eq"
      then some (c.vmin_si, c.vmax_si)
      else if c.op == "lte"
      then some (sub (lit 0 1) (lit 1_000_000_000_000_000_000 1), c.vmax_si)
      else if c.op == "gte"
      then some (c.vmin_si, lit 1_000_000_000_000_000_000 1)
      else none

  unfoldable pub append_range : FactFilter → String → Option (F × F) → FactFilter
  append_range filter parameter none = filter
  append_range filter parameter (some (lo, hi)) = record filter {
    param_slugs = filter.param_slugs ++ parameter ∷ [];
    range_lo = filter.range_lo ++ lo ∷ [];
    range_hi = filter.range_hi ++ hi ∷ [];
  }

  unfoldable pub add_constraint : FactFilter → Constraint → FactFilter
  unfolding append_range range_of
  add_constraint filter c =
      if c.si_unit == "" then filter else append_range filter c.parameter (range_of c)

  unfoldable pub add_constraints : FactFilter → List Constraint → FactFilter
  unfolding add_constraint
  add_constraints filter [] = filter
  add_constraints filter (c ∷ cs) = add_constraints (add_constraint filter c) cs

  unfoldable pub fact_filter : Plan → FactFilter
  unfolding add_constraints
  fact_filter plan =
      add_constraints
        (record {
          geography =
              if plan.geography == "ru" || plan.geography == "foreign" then plan.geography else "";
          param_slugs = [];
          range_lo = [];
          range_hi = [];
        })
        plan.constraints

  module _ (V C G : Type 0) where
    pub record Repo : Type 0 where
      pub expand_entity_ids : List String → Option (List String)
      pub facts : List String → FactFilter → Option (List (Fact float V))
      pub fts_chunks : String → ℕ → Option (List C)
      pub contradictions : List String → Option (List (Contradiction V))
      -- consensus, gaps, experts and the graph, each of them or the first error
      pub surroundings : List String → Option G

    pub record EvidencePack : Type 0 where
      pub facts : List (Fact float V)
      pub chunks : List C
      pub contradictions : List (Contradiction V)
      pub surroundings : Option G
      pub stats : EvidenceStats

    abbrev pub empty_pack : EvidencePack
    empty_pack = record {
      facts = [];
      chunks = [];
      contradictions = [];
      surroundings = none;
      stats = record {
        sources = 0;
        ru_sources = 0;
        foreign_sources = 0;
        year_from = 0;
        year_to = 0;
      };
    }

    module _ (repo : Repo) (text : Text) (show_ref : ℕ → String) (ranking : Ranking float)
        (current_year : ℕ) where
      -- The pack of ranked facts that have their references.
      unfoldable pub pack_of :
          Plan → List String → List (Fact float V) × Assoc String → Option EvidencePack
      pack_of plan ids (facts, refs) = do
        chunks ←
            repo.fts_chunks
              (plan_query_text text plan.slugs (map (λ c. c.parameter) plan.constraints))
              (fts_top_of float ranking)
        contradictions ← repo.contradictions ids
        surroundings ← repo.surroundings ids
        some (record {
          facts = facts;
          chunks = take (final_top_of float ranking) chunks;
          contradictions = remap_contradictions contradictions refs;
          surroundings = some surroundings;
          stats = compute_stats float facts;
        })

      unfoldable pub pack_found : Plan → List String → Option EvidencePack
      unfolding pack_of
      pack_found plan [] = some empty_pack
      pack_found plan (i ∷ ids) = do
        facts ← repo.facts (i ∷ ids) (fact_filter plan)
        pack_of plan (i ∷ ids) (
            assign_refs float show_ref 0 [] (
              take (final_top_of float ranking)
                (rank_facts float ranking current_year plan.slugs facts)))

      -- `buildPack`, where `none` is an error of a query.
      unfoldable pub build_pack : Plan → Option EvidencePack
      unfolding pack_found
      build_pack plan = elim plan.slugs [
        | [] ↦ some empty_pack
        | s ∷ slugs ↦ (repo.expand_entity_ids plan.slugs >>= λ ids. pack_found plan ids)
      ]
