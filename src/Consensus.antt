-- ===== src/Consensus.antt =====
-- internal/epistemic/app/consensus.go: what the facts on one parameter agree on.
--
-- Years are natural numbers, with 0 for a year that is not stated. `sort.Slice` is an insertion
-- sort: samples of equal values may stand in either order, and the median is a value.
pub mod Laws
pub mod Years
use nornickel_hackathon.Prelude.{
  ℕ, zero, suc, ◌+◌, String, Bool, true, false, ◌&&◌, ◌||◌, not, Option, none, some, List, [], ◌∷◌,
  ◌++◌, ltb, leb, nat_eq, length, ◌==◌, if◌then◌else◌, contains,
}
use nornickel_hackathon.Float.{Float}

pub data Verdict : Type 0 where
  insufficient consensus majority split : Verdict

module _ (float : Float) where
  open float use {F, lt, le, eq, add, sub, mul, div, abs, lit, min, max, exp, of_diff}

  pub record ConsensusFact : Type 0 where
    pub lo : F
    pub hi : F
    pub has_range : Bool
    pub confidence : F
    pub doc_type : String
    pub year : ℕ
    pub geography : String
    pub document_id : String
    pub unit : String

  pub record ConsensusResult : Type 0 where
    pub verdict : Verdict
    pub agreed_lo : F
    pub agreed_hi : F
    pub has_range : Bool
    pub overlap_index : F
    pub confidence : F
    pub unit : String
    pub sources : ℕ
    pub ru_sources : ℕ
    pub foreign_sources : ℕ
    pub year_from : ℕ
    pub year_to : ℕ

  pub record Interval : Type 0 where
    pub lo : F
    pub hi : F
    pub weight : F

  unfoldable pub lookup_reliability : String → F
  lookup_reliability doc_type =
      if doc_type == "protocol" || doc_type == "report" || doc_type == "dataset"
      then lit 1 1
      else if doc_type == "article" || doc_type == "handbook" || doc_type == "normative"
      then lit 9 10
      else if doc_type == "patent"
      then lit 8 10
      else if doc_type == "web"
      then lit 5 10
      else lit 7 10

  -- The factor -0.1 is 0 - 0.1.
  unfoldable pub freshness : ℕ → ℕ → F
  freshness current_year doc_year =
      if nat_eq doc_year 0
      then lit 5 10
      else exp (mul (sub (lit 0 1) (lit 1 10)) (of_diff current_year doc_year))

  unfoldable pub clamp : F → F → F → F
  clamp value low high = if lt value low then low else if lt high value then high else value

  -- A single value is widened by two percent to each side.
  unfoldable pub padded : F → F → F × F
  padded lo hi =
      if eq lo hi
      then (sub lo (mul (abs lo) (lit 2 100)), add hi (mul (abs lo) (lit 2 100)))
      else (lo, hi)

  abbrev pub ordered : F × F → F × F
  ordered (lo, hi) = if lt hi lo then (hi, lo) else (lo, hi)

  abbrev pub positive : F → F
  positive weight = if le weight (lit 0 1) then lit 1 1_000_000 else weight

  unfoldable pub interval_of : ℕ → ConsensusFact → Interval
  unfolding padded freshness lookup_reliability
  interval_of current_year fact =
      let (lo, hi) = ordered (padded fact.lo fact.hi) in
      record {
        lo = lo;
        hi = hi;
        weight = positive (
            mul (mul fact.confidence (lookup_reliability fact.doc_type))
              (freshness current_year fact.year));
      }

  unfoldable pub count_year : ConsensusResult → ℕ → ConsensusResult
  count_year result year = if nat_eq year 0 then result else record result {
    year_from =
        if nat_eq result.year_from 0 || ltb year result.year_from then year else result.year_from;
    year_to = if ltb result.year_to year then year else result.year_to;
  }

  unfoldable pub count_stats : ConsensusResult → ConsensusFact → ConsensusResult
  unfolding count_year
  count_stats result fact =
      count_year
        (if fact.geography == "ru"
          then record result { ru_sources = suc result.ru_sources }
          else if fact.geography == "foreign"
          then record result { foreign_sources = suc result.foreign_sources }
          else result)
        fact.year

  -- The state of the loop of `ComputeConsensus`.
  pub record Gathered : Type 0 where
    pub intervals : List Interval
    pub documents : List String
    pub result : ConsensusResult

  unfoldable pub gather_one : ℕ → Gathered → ConsensusFact → Gathered
  unfolding count_stats interval_of
  gather_one current_year g fact = if not fact.has_range then g else record {
    intervals = g.intervals ++ interval_of current_year fact ∷ [];
    documents =
        if contains g.documents fact.document_id
        then g.documents
        else fact.document_id ∷ g.documents;
    result =
        count_stats (if g.result.unit == "" then record g.result { unit = fact.unit } else g.result)
          fact;
  }

  unfoldable pub gather : ℕ → Gathered → List ConsensusFact → Gathered
  gather current_year g [] = g
  gather current_year g (fact ∷ facts) = gather current_year (gather_one current_year g fact) facts

  pub record Extent : Type 0 where
    pub max_lo : F
    pub min_hi : F
    pub min_lo : F
    pub max_hi : F

  unfoldable pub widen : Extent → List Interval → Extent
  widen e [] = e
  widen e (i ∷ intervals) =
      widen
        (record {
          max_lo = max e.max_lo i.lo;
          min_hi = min e.min_hi i.hi;
          min_lo = min e.min_lo i.lo;
          max_hi = max e.max_hi i.hi;
        })
        intervals

  abbrev pub extent_ratio : Extent → F
  extent_ratio e =
      if le (sub e.max_hi e.min_lo) (lit 0 1)
      then lit 1 1
      else div (max (lit 0 1) (sub e.min_hi e.max_lo)) (sub e.max_hi e.min_lo)

  -- `overlapIndex`, of the first interval and the others.
  unfoldable pub overlap_index : Interval → List Interval → F
  unfolding widen
  overlap_index i intervals =
      extent_ratio
        (widen (record { max_lo = i.lo; min_hi = i.hi; min_lo = i.lo; max_hi = i.hi }) intervals)

  unfoldable pub touching : F → F → List Interval → ℕ
  touching agreed_lo agreed_hi [] = 0
  touching agreed_lo agreed_hi (i ∷ intervals) =
      let rest = touching agreed_lo agreed_hi intervals in
      if le agreed_lo i.hi && le i.lo agreed_hi then suc rest else rest

  unfoldable pub verdict_of : List Interval → ℕ → ConsensusResult → Verdict
  unfolding touching
  verdict_of intervals documents result =
      if ltb documents 2
      then insufficient
      else if le (lit 5 10) result.overlap_index && leb 3 documents
      then consensus
      else if le (lit 6 10) (
          div (of_diff (touching result.agreed_lo result.agreed_hi intervals) 0)
            (of_diff (length intervals) 0))
      then majority
      else split

  pub record Sample : Type 0 where
    pub value : F
    pub weight : F

  unfoldable pub samples_of : (Interval → F) → List Interval → List Sample
  samples_of pick [] = []
  samples_of pick (i ∷ intervals) =
      record { value = pick i; weight = i.weight } ∷ samples_of pick intervals

  unfoldable pub insert_sample : Sample → List Sample → List Sample
  insert_sample s [] = s ∷ []
  insert_sample s (r ∷ samples) =
      let rest = insert_sample s samples in if lt r.value s.value then r ∷ rest else s ∷ r ∷ samples

  unfoldable pub sort_samples : List Sample → List Sample
  unfolding insert_sample
  sort_samples [] = []
  sort_samples (s ∷ samples) = insert_sample s (sort_samples samples)

  unfoldable pub total_weight : F → List Interval → F
  total_weight total [] = total
  total_weight total (i ∷ intervals) = total_weight (add total i.weight) intervals

  -- The last loop of `weightedMedian`. The median of no sample, where the source would panic, is `none`.
  unfoldable pub median_from : F → F → List Sample → Option F
  median_from half cumulative [] = none
  median_from half cumulative (s ∷ []) = some s.value
  median_from half cumulative (s ∷ t ∷ samples) =
      let rest = median_from half (add cumulative s.weight) (t ∷ samples) in
      if le half (add cumulative s.weight) then some s.value else rest

  unfoldable pub weighted_median : List Interval → (Interval → F) → Option F
  unfolding median_from sort_samples samples_of total_weight
  weighted_median intervals pick =
      median_from (div (total_weight (lit 0 1) intervals) (lit 2 1)) (lit 0 1)
        (sort_samples (samples_of pick intervals))

  abbrev pub empty_result : ConsensusResult
  empty_result = record {
    verdict = insufficient;
    agreed_lo = lit 0 1;
    agreed_hi = lit 0 1;
    has_range = false;
    overlap_index = lit 0 1;
    confidence = lit 0 1;
    unit = "";
    sources = 0;
    ru_sources = 0;
    foreign_sources = 0;
    year_from = 0;
    year_to = 0;
  }

  -- The end of `ComputeConsensus`, once the medians are computed.
  unfoldable pub concluded :
      Interval → List Interval → ℕ → ConsensusResult → F → F → ConsensusResult
  unfolding overlap_index clamp
  concluded i intervals documents result lo hi =
      let (agreed_lo, agreed_hi) = ordered (lo, hi) in
      let index = overlap_index i intervals in
      let r = record result {
        agreed_lo = agreed_lo;
        agreed_hi = agreed_hi;
        has_range = true;
        overlap_index = index;
        confidence = clamp index (lit 3 10) (lit 95 100);
        sources = documents;
      } in
      record r { verdict = verdict_of (i ∷ intervals) documents r }

  unfoldable pub with_medians :
      Interval → List Interval → ℕ → ConsensusResult → Option F → Option F → Option ConsensusResult
  unfolding concluded
  with_medians i intervals documents result none hi = none
  with_medians i intervals documents result (some lo) none = none
  with_medians i intervals documents result (some lo) (some hi) =
      some (concluded i intervals documents result lo hi)

  unfoldable pub conclude : List Interval → ℕ → ConsensusResult → Option ConsensusResult
  unfolding with_medians
  conclude [] documents result = some (record result { sources = documents })
  conclude (i ∷ intervals) documents result =
      with_medians i intervals documents result (weighted_median (i ∷ intervals) (λ j. j.lo))
        (weighted_median (i ∷ intervals) (λ j. j.hi))

  abbrev pub start : Gathered
  start = record { intervals = []; documents = []; result = empty_result }

  -- `ComputeConsensus`, where `none` is a panic.
  unfoldable pub compute_consensus : List ConsensusFact → ℕ → Option ConsensusResult
  unfolding gather
  compute_consensus facts current_year =
      let g = gather current_year start facts in conclude g.intervals (length g.documents) g.result
