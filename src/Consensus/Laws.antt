-- ===== src/Consensus/Laws.antt =====
-- What the consensus of internal/epistemic/app/consensus.go promises.
use nornickel_hackathon.Prelude.{
  ℕ, Bool, true, false, ◌&&◌, not, some, List, [], ◌∷◌, ◌++◌, any, length, if◌then◌else◌, ◌==◌, ◌≡◌,
  ◌⊎◌, inl, inr, refl, sym, ap, ◌∙◌, subst, arith, Bool-cases,
}
use nornickel_hackathon.Float.{Float}
use nornickel_hackathon.Consensus.{
  ConsensusFact, ConsensusResult, Interval, Sample, Gathered, insufficient, interval_of, gather_one,
  gather, samples_of, insert_sample, sort_samples, median_from, weighted_median, total_weight,
  concluded, with_medians, conclude, start, count_stats, count_year, compute_consensus,
}

module _ (float : Float) where
  open float use {F, lt, le, lit, add, div}

  Valued : F → List (Sample float) → Type 0
  Valued v [] = ⊥
  Valued v (s ∷ samples) = (v ≡ s.value) ⊎ Valued v samples

  Picked : (Interval float → F) → F → List (Interval float) → Type 0
  Picked pick v [] = ⊥
  Picked pick v (i ∷ intervals) = (v ≡ pick i) ⊎ Picked pick v intervals

  Valued-insert :
      (s : Sample float) (samples : List (Sample float)) (v : F)
      → Valued v (insert_sample float s samples)
      → Valued v (s ∷ samples)
  unfolding Valued insert_sample
  Valued-insert s [] v h = h
  Valued-insert s (r ∷ samples) v h = elim (Bool-cases (lt r.value s.value)) [
    | inl e ↦ ground (arith, e, Valued-insert s samples v)
    | inr e ↦ ground (arith, e)
  ]

  Valued-sort :
      (samples : List (Sample float)) (v : F)
      → Valued v (sort_samples float samples)
      → Valued v samples
  unfolding Valued sort_samples
  Valued-sort [] v h = h
  Valued-sort (s ∷ samples) v h = elim (Valued-insert s (sort_samples float samples) v h) [
    | inl e ↦ inl e
    | inr m ↦ inr (Valued-sort samples v m)
  ]

  Valued-samples :
      (pick : Interval float → F) (intervals : List (Interval float)) (v : F)
      → Valued v (samples_of float pick intervals)
      → Picked pick v intervals
  unfolding Valued samples_of Picked
  Valued-samples pick [] v h = h
  Valued-samples pick (i ∷ intervals) v (inl e) = inl e
  Valued-samples pick (i ∷ intervals) v (inr m) = inr (Valued-samples pick intervals v m)

  insert-cons :
      (s : Sample float) (samples : List (Sample float))
      → (t : Sample float) × (rest : List (Sample float)) × (insert_sample float s samples
          ≡ t ∷ rest)
  unfolding insert_sample
  insert-cons s [] = (s, [], refl)
  insert-cons s (r ∷ samples) = elim (Bool-cases (lt r.value s.value)) [
    | inl e ↦ rw e (r, insert_sample float s samples, refl)
    | inr e ↦ rw e (s, r ∷ samples, refl)
  ]

  median_from_lem :
      (half cumulative : F) (s : Sample float) (samples : List (Sample float))
      → (v : F) × (median_from float half cumulative (s ∷ samples) ≡ some v)
        × Valued v (s ∷ samples)
  unfolding median_from Valued
  median_from_lem half cumulative s [] = (s.value, refl, inl refl)
  median_from_lem half cumulative s (t ∷ samples) =
      elim (Bool-cases (le half (add cumulative s.weight))) [
        | inl e ↦ (s.value, rw e refl, inl refl)
        | inr e ↦
            (let (v, found, m) = median_from_lem half (add cumulative s.weight) t samples in
              (v, rw e found, inr m))
      ]

  -- The median of some intervals is one of the values.
  weighted_median_lem :
      (pick : Interval float → F) (i : Interval float) (intervals : List (Interval float))
      → (v : F) × (weighted_median float (i ∷ intervals) pick ≡ some v)
        × Picked pick v (i ∷ intervals)
  unfolding weighted_median samples_of sort_samples
  weighted_median_lem pick i intervals =
      let half = div (total_weight float (lit 0 1) (i ∷ intervals)) (lit 2 1) in
      let (t, rest, e) =
        insert-cons (record { value = pick i; weight = i.weight })
          (sort_samples float (samples_of float pick intervals)) in
      let (v, found, m) = median_from_lem half (lit 0 1) t rest in
      (
        v,
        ap (median_from float half (lit 0 1)) e ∙ found,
        Valued-samples pick (i ∷ intervals) v
            (Valued-sort (samples_of float pick (i ∷ intervals)) v (subst (Valued v) (sym e) m)),
      )

  -- A bound of the interval of a fact that has a range.
  abbrev pub Reported : (Interval float → F) → ℕ → F → List (ConsensusFact float) → Type 0
  Reported pick year v [] = ⊥
  Reported pick year v (f ∷ facts) =
      ((f.has_range ≡ true) × (v ≡ pick (interval_of float year f))) ⊎ Reported pick year v facts

  Picked-append :
      (pick : Interval float → F) (v : F) (is : List (Interval float)) (i : Interval float)
      → Picked pick v (is ++ i ∷ [])
      → Picked pick v is ⊎ (v ≡ pick i)
  unfolding Picked
  Picked-append pick v [] i (inl e) = inr e
  Picked-append pick v [] i (inr m) = absurd m
  Picked-append pick v (j ∷ is) i (inl e) = inl (inl e)
  Picked-append pick v (j ∷ is) i (inr m) = elim (Picked-append pick v is i m) [
    | inl k ↦ inl (inr k)
    | inr e ↦ inr e
  ]

  taken :
      (year : ℕ) (g : Gathered float) (f : ConsensusFact float)
      → f.has_range ≡ true
      → (gather_one float year g f).intervals ≡ g.intervals ++ interval_of float year f ∷ []
  unfolding gather_one
  taken year g f e = rw e refl

  skipped :
      (year : ℕ) (g : Gathered float) (f : ConsensusFact float)
      → f.has_range ≡ false
      → gather_one float year g f ≡ g
  unfolding gather_one
  skipped year g f e = rw e refl

  Picked-gather_one :
      (pick : Interval float → F) (year : ℕ) (v : F) (g : Gathered float) (f : ConsensusFact float)
      → Picked pick v (gather_one float year g f).intervals
      → Picked pick v g.intervals ⊎ ((f.has_range ≡ true) × (v ≡ pick (interval_of float year f)))
  Picked-gather_one pick year v g f h = elim (Bool-cases f.has_range) [
    | inl e ↦
        (elim (Picked-append pick v g.intervals (interval_of float year f)
          (subst (Picked pick v) (taken year g f e) h)) [ inl m ↦ inl m | inr k ↦ inr (e, k) ])
    | inr e ↦ inl (subst (λ (k : Gathered float). Picked pick v k.intervals) (skipped year g f e) h)
  ]

  Picked-gather :
      (pick : Interval float → F) (year : ℕ) (v : F) (g : Gathered float)
      (facts : List (ConsensusFact float))
      → Picked pick v (gather float year g facts).intervals
      → Picked pick v g.intervals ⊎ Reported pick year v facts
  unfolding gather
  Picked-gather pick year v g [] h = inl h
  Picked-gather pick year v g (f ∷ facts) h =
      elim (Picked-gather pick year v (gather_one float year g f) facts h) [
        | inr m ↦ inr (inr m)
        | inl m ↦ (elim (Picked-gather_one pick year v g f m) [
          | inl k ↦ inl k
          | inr k ↦ inr (inl k)
        ])
      ]

  abbrev is_empty : List (Interval float) → Bool
  is_empty [] = true
  is_empty (i ∷ is) = false

  empty-append : (is : List (Interval float)) (i : Interval float) → is_empty (is ++ i ∷ []) ≡ false
  empty-append [] i = refl
  empty-append (j ∷ is) i = refl

  empty-gather :
      (year : ℕ) (g : Gathered float) (facts : List (ConsensusFact float))
      → is_empty (gather float year g facts).intervals
        ≡ (is_empty g.intervals && not (any (λ f. f.has_range) facts))
  unfolding gather gather_one
  empty-gather year g [] = ground arith
  empty-gather year g (f ∷ facts) = ground (
    arith,
    empty-gather year (gather_one float year g f) facts,
    empty-append g.intervals (interval_of float year f),
  )

  -- The two bounds, whichever way round they came.
  abbrev pub BoundsFrom : ℕ → List (ConsensusFact float) → F → F → Type 0
  BoundsFrom year facts lo hi =
      (Reported (λ i. i.lo) year lo facts × Reported (λ i. i.hi) year hi facts)
      ⊎ (Reported (λ i. i.hi) year lo facts × Reported (λ i. i.lo) year hi facts)

  concluded_bounds :
      (i : Interval float) (intervals : List (Interval float)) (documents : ℕ)
      (result : ConsensusResult float) (lo hi : F)
      → let r = concluded float i intervals documents result lo hi in
        (r.has_range ≡ true)
        × (((r.agreed_lo ≡ lo) × (r.agreed_hi ≡ hi) × (lt hi lo ≡ false))
            ⊎ ((r.agreed_lo ≡ hi) × (r.agreed_hi ≡ lo) × (lt hi lo ≡ true)))
  unfolding concluded
  concluded_bounds i intervals documents result lo hi = elim (Bool-cases (lt hi lo)) [
    | inl e ↦ rw e (refl, inr (refl, refl, refl))
    | inr e ↦ rw e (refl, inl (refl, refl, refl))
  ]

  from_start :
      (pick : Interval float → F) (year : ℕ) (v : F) (facts : List (ConsensusFact float))
      → Picked pick v (gather float year (start float) facts).intervals
      → Reported pick year v facts
  unfolding Picked
  from_start pick year v facts h = elim (Picked-gather pick year v (start float) facts h) [
    | inl m ↦ absurd m
    | inr m ↦ m
  ]

  same_counts :
      (r : ConsensusResult float) (f : ConsensusFact float)
      → ((count_stats float r f).has_range ≡ r.has_range)
        × ((count_stats float r f).verdict ≡ r.verdict)
  unfolding count_stats count_year
  same_counts r f = (ground arith, ground arith)

  same_one :
      (year : ℕ) (g : Gathered float) (f : ConsensusFact float)
      → ((gather_one float year g f).result.has_range ≡ g.result.has_range)
        × ((gather_one float year g f).result.verdict ≡ g.result.verdict)
  unfolding gather_one
  same_one year g f = (
    ground (
      arith,
      (same_counts (if g.result.unit == "" then record g.result { unit = f.unit } else g.result)
          f).0,
    ),
    ground (
      arith,
      (same_counts (if g.result.unit == "" then record g.result { unit = f.unit } else g.result)
          f).1,
    ),
  )

  pub same_gather :
      (year : ℕ) (g : Gathered float) (facts : List (ConsensusFact float))
      → ((gather float year g facts).result.has_range ≡ g.result.has_range)
        × ((gather float year g facts).result.verdict ≡ g.result.verdict)
  unfolding gather
  same_gather year g [] = (refl, refl)
  same_gather year g (f ∷ facts) =
      let (a, b) = same_gather year (gather_one float year g f) facts in
      let (c, d) = same_one year g f in (a ∙ c, b ∙ d)

  module _ (lt_asymm : (a b : F) → lt a b ≡ true → lt b a ≡ false) where
    -- What `compute_consensus_lem` says of the result.
    abbrev pub Agrees : ℕ → List (ConsensusFact float) → ConsensusResult float → Type 0
    Agrees year facts r =
        (r.has_range ≡ true)
        × (lt r.agreed_hi r.agreed_lo ≡ false)
        × BoundsFrom year facts r.agreed_lo r.agreed_hi

    concluded-Agrees :
        (year : ℕ) (facts : List (ConsensusFact float)) (i : Interval float)
        (intervals : List (Interval float)) (documents : ℕ) (result : ConsensusResult float)
        (lo hi : F)
        → Reported (λ j. j.lo) year lo facts
        → Reported (λ j. j.hi) year hi facts
        → Agrees year facts (concluded float i intervals documents result lo hi)
    concluded-Agrees year facts i intervals documents result lo hi a b =
        let (ranged, which) = concluded_bounds i intervals documents result lo hi in
        elim which [
          | inl (x, y, k) ↦ (ranged, rw (x, y) k, rw (x, y) (inl (a, b)))
          | inr (x, y, k) ↦ (ranged, rw (x, y) (lt_asymm hi lo k), rw (x, y) (inr (b, a)))
        ]

    ranged_lem : (b : Bool) → true ≡ not b → b ≡ false
    ranged_lem b h = ground arith

    ranged_lem' : (b : Bool) → false ≡ not b → b ≡ true
    ranged_lem' b h = ground arith

    -- The consensus of any facts is computed, the medians included. Where no fact has a range, the
    -- result has none and its verdict is `insufficient`; otherwise its range is in order, and its two bounds are a
    -- lower and an upper bound of intervals of facts that have a range.
    pub compute_consensus_lem :
        (facts : List (ConsensusFact float)) (year : ℕ)
        → (r : ConsensusResult float) × (compute_consensus float facts year ≡ some r)
          × (((any (λ f. f.has_range) facts ≡ false)
                × (r.has_range ≡ false)
                × (r.verdict ≡ insufficient))
              ⊎ ((any (λ f. f.has_range) facts ≡ true) × Agrees year facts r))
    unfolding compute_consensus conclude with_medians
    compute_consensus_lem facts year = go (gather float year (start float) facts).intervals refl
      where
        go :
            (is : List (Interval float))
            → (gather float year (start float) facts).intervals ≡ is
            → (r : ConsensusResult float) × (conclude float
                  (gather float year (start float) facts).intervals
                  (length (gather float year (start float) facts).documents)
                  (gather float year (start float) facts).result
                ≡ some r)
              × (((any (λ f. f.has_range) facts ≡ false)
                    × (r.has_range ≡ false)
                    × (r.verdict ≡ insufficient))
                  ⊎ ((any (λ f. f.has_range) facts ≡ true) × Agrees year facts r))
        go [] e =
            let (same_range, same_verdict) = same_gather year (start float) facts in
            (
              record (gather float year (start float) facts).result {
                sources = length (gather float year (start float) facts).documents;
              },
              rw e refl,
              inl (
                ranged_lem (any (λ f. f.has_range) facts)
                    (ap is_empty (sym e) ∙ empty-gather year (start float) facts),
                same_range,
                same_verdict,
              ),
            )
        go (i ∷ is) e =
            let (lo, found_lo, m) = weighted_median_lem (λ j. j.lo) i is in
            let (hi, found_hi, n) = weighted_median_lem (λ j. j.hi) i is in
            let documents = length (gather float year (start float) facts).documents in
            let result = (gather float year (start float) facts).result in
            (
              concluded float i is documents result lo hi,
              rw e (rw found_lo (rw found_hi refl)),
              inr (
                ranged_lem' (any (λ f. f.has_range) facts)
                    (ap is_empty (sym e) ∙ empty-gather year (start float) facts),
                concluded-Agrees year facts i is documents result lo hi
                    (from_start (λ j. j.lo) year lo facts (subst (Picked (λ j. j.lo) lo) (sym e) m))
                    (from_start (λ j. j.hi) year hi facts
                      (subst (Picked (λ j. j.hi) hi) (sym e) n)),
              ),
            )
