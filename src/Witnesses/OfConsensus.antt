-- ===== src/Witnesses/OfConsensus.antt =====
-- Witnesses of the consensus.
use nornickel_hackathon.Prelude.{ℕ, String, true, false, some, List, [], ◌∷◌, any, ◌≡◌, ◌⊎◌, refl}
use nornickel_hackathon.Witnesses.{small_float, small_asymm}
use nornickel_hackathon.Consensus.{
  ConsensusFact, ConsensusResult, insufficient, majority, compute_consensus, conclude, with_medians,
  concluded, gather, gather_one, interval_of, padded, lookup_reliability, freshness, count_stats,
  count_year, weighted_median, median_from, sort_samples, insert_sample, samples_of, total_weight,
  overlap_index, widen, clamp, verdict_of, touching,
}
use nornickel_hackathon.Consensus.Laws.{Agrees, compute_consensus_lem}
use nornickel_hackathon.Consensus.Years.{Documents, Grounded, YearsIn, consensus_grounds}

abbrev fact : String → ℕ → ℕ → ConsensusFact small_float
fact document lo hi = record {
  lo = lo;
  hi = hi;
  has_range = true;
  confidence = 1;
  doc_type = "report";
  year = 2020;
  geography = "ru";
  document_id = document;
  unit = "mg";
}

abbrev facts : List (ConsensusFact small_float)
facts = fact "d1" 10 20 ∷ fact "d2" 12 18 ∷ []

compute_consensus_lem_example :
    (r : ConsensusResult small_float) × (compute_consensus small_float facts 2024 ≡ some r)
    × (((any (λ f. f.has_range) facts ≡ false) × (r.has_range ≡ false) × (r.verdict ≡ insufficient))
        ⊎ ((any (λ f. f.has_range) facts ≡ true) × Agrees small_float small_asymm 2024 facts r))
compute_consensus_lem_example = compute_consensus_lem small_float small_asymm facts 2024

abbrev agreed : ConsensusResult small_float
agreed = record {
  verdict = majority;
  agreed_lo = 10;
  agreed_hi = 18;
  has_range = true;
  overlap_index = 0;
  confidence = 0;
  unit = "mg";
  sources = 2;
  ru_sources = 2;
  foreign_sources = 0;
  year_from = 2020;
  year_to = 2020;
}

facts-agree : compute_consensus small_float facts 2024 ≡ some agreed
unfolding compute_consensus conclude with_medians concluded gather gather_one interval_of padded
    lookup_reliability freshness count_stats count_year weighted_median median_from sort_samples
    insert_sample samples_of total_weight overlap_index widen clamp verdict_of touching
facts-agree = refl

consensus_grounds_example :
    Documents small_float 2 facts
    × Grounded small_float agreed
    × YearsIn small_float 2020 2020 facts
consensus_grounds_example = consensus_grounds small_float facts 2024 agreed facts-agree
