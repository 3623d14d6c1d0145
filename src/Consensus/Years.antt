-- ===== src/Consensus/Years.antt =====
-- The counts in the consensus of internal/epistemic/app/consensus.go: documents, years and the
-- verdict that rests on them.
use nornickel_hackathon.Prelude.{
  ℕ, suc, ◌≤◌, true, Option, none, some, List, [], ◌∷◌, All, length, ◌==◌, ◌≡◌, ◌≢◌, inl, inr, refl,
  subst, arith, Bool-cases, String, Bool, ◌&&◌, ◌||◌, any, contains, NoRepeats, eq_iff,
}
use mathlib.Core.Bool.{false≢true}
use nornickel_hackathon.Float.{Float}
use nornickel_hackathon.Consensus.{
  ConsensusFact, ConsensusResult, Interval, Gathered, insufficient, consensus, gather_one, gather,
  verdict_of, concluded, with_medians, conclude, weighted_median, start, compute_consensus,
  count_stats, count_year,
}
use nornickel_hackathon.Consensus.Laws.{same_gather}

module _ (float : Float) where
  open float use {F, lt, le, lit}

  -- A verdict on these grounds.
  abbrev pub Grounded : ConsensusResult float → Type 0
  Grounded r =
      (r.verdict ≢ insufficient → 2 ≤ r.sources)
      × (r.verdict ≡ consensus → (3 ≤ r.sources) × (le (lit 5 10) r.overlap_index ≡ true))

  verdict_lem :
      (is : List (Interval float)) (documents : ℕ) (r : ConsensusResult float)
      → (verdict_of float is documents r ≢ insufficient → 2 ≤ documents)
        × (verdict_of float is documents r ≡ consensus
            → (3 ≤ documents) × (le (lit 5 10) r.overlap_index ≡ true))
  unfolding verdict_of
  verdict_lem is documents r = ground arith

  concluded-Grounded :
      (i : Interval float) (is : List (Interval float)) (documents : ℕ)
      (result : ConsensusResult float) (lo hi : F)
      → Grounded (concluded float i is documents result lo hi)
  unfolding concluded
  concluded-Grounded i is documents result lo hi = verdict_lem (i ∷ is) documents _

  -- The years of the result enclose the year.
  abbrev pub Encloses : ConsensusResult float → ℕ → Type 0
  Encloses r y = y ≢ 0 → (r.year_from ≢ 0) × (r.year_from ≤ y) × (y ≤ r.year_to)

  abbrev Covers : ConsensusResult float → ConsensusFact float → Type 0
  Covers r f = f.has_range ≡ true → Encloses r f.year

  -- `s` has seen more years than `r`, and both have a first year where they have a last one.
  Later : ConsensusResult float → ConsensusResult float → Type 0
  Later r s =
      (r.year_from ≢ 0 → (s.year_from ≤ r.year_from) × (s.year_from ≢ 0)) × (r.year_to ≤ s.year_to)

  Later-trans : (r s t : ConsensusResult float) → Later r s → Later s t → Later r t
  unfolding Later
  Later-trans r s t (a, b) (c, d) =
      (λ k. let (x, y) = a k in let (z, u) = c y in (omega (arith, x, z), u), omega (arith, b, d))

  count_year-Later :
      (r : ConsensusResult float) (y : ℕ)
      → Later r (count_year float r y)
        × (y ≢ 0
            → ((count_year float r y).year_from ≢ 0)
              × ((count_year float r y).year_from ≤ y)
              × (y ≤ (count_year float r y).year_to))
  unfolding Later count_year
  count_year-Later r y = ground arith

  count_stats-Later :
      (r : ConsensusResult float) (f : ConsensusFact float)
      → Later r (count_stats float r f) × Encloses (count_stats float r f) f.year
  unfolding count_stats Later
  count_stats-Later r f = elim (Bool-cases (f.geography == "ru")) [
    | inl e ↦ rw e (count_year-Later (record r { ru_sources = suc r.ru_sources }) f.year)
    | inr e ↦ (elim (Bool-cases (f.geography == "foreign")) [
      | inl k ↦
          rw e
            (rw k (count_year-Later (record r { foreign_sources = suc r.foreign_sources }) f.year))
      | inr k ↦ rw e (rw k (count_year-Later r f.year))
    ])
  ]

  gather_one-Later :
      (year : ℕ) (g : Gathered float) (f : ConsensusFact float)
      → Later g.result (gather_one float year g f).result
        × Covers (gather_one float year g f).result f
  unfolding gather_one Later
  gather_one-Later year g f = elim (Bool-cases f.has_range) [
    | inr e ↦ rw e ((λ k. (omega arith, k), omega arith), λ h. absurd (false≢true h))
    | inl e ↦ (elim (Bool-cases (g.result.unit == "")) [
      | inl k ↦ rw e (
          rw k
            (let (a, b) = count_stats-Later (record g.result { unit = f.unit }) f in (a, λ h. b)))
      | inr k ↦ rw e (rw k (let (a, b) = count_stats-Later g.result f in (a, λ h. b)))
    ])
  ]

  Covers-Later :
      (r s : ConsensusResult float) (f : ConsensusFact float) → Later r s → Covers r f → Covers s f
  unfolding Later
  Covers-Later r s f (a, b) c ranged stated =
      let (k, l, m) = c ranged stated in
      let (x, y) = a k in (y, omega (arith, x, l), omega (arith, b, m))

  gather-Covers :
      (year : ℕ) (g : Gathered float) (facts : List (ConsensusFact float))
      → Later g.result (gather float year g facts).result
        × All (Covers (gather float year g facts).result) facts
  unfolding gather Later
  gather-Covers year g [] = ((λ k. (omega arith, k), omega arith), tt)
  gather-Covers year g (f ∷ facts) =
      let (a, b) = gather-Covers year (gather_one float year g f) facts in
      let (c, d) = gather_one-Later year g f in
      (
        Later-trans g.result (gather_one float year g f).result
            (gather float year (gather_one float year g f) facts).result c a,
        (
          Covers-Later (gather_one float year g f).result
              (gather float year (gather_one float year g f) facts).result f a d,
          b,
        ),
      )

  -- What a conclusion from these facts keeps of their counts.
  Kept : ℕ → ConsensusResult float → ConsensusResult float → Type 0
  Kept documents g r =
      (r.sources ≡ documents) × (r.year_from ≡ g.year_from) × (r.year_to ≡ g.year_to) × Grounded r

  some-injective :
      {r s : ConsensusResult float}
      → ◌≡◌ {A = Option (ConsensusResult float)} (some r) (some s)
      → r ≡ s
  some-injective h = cc

  insufficient-Grounded : (r : ConsensusResult float) → r.verdict ≡ insufficient → Grounded r
  insufficient-Grounded r h = (λ k. absurd (k h), λ k. cc)

  medians-Kept :
      (i : Interval float) (is : List (Interval float)) (documents : ℕ) (g : ConsensusResult float)
      (lo hi : Option F) {r : ConsensusResult float}
      → with_medians float i is documents g lo hi ≡ some r
      → Kept documents g r
  unfolding with_medians concluded Kept
  medians-Kept i is documents g none hi e = cc
  medians-Kept i is documents g (some lo) none e = cc
  medians-Kept i is documents g (some lo) (some hi) e =
      subst (Kept documents g) (some-injective e)
        (refl, refl, refl, concluded-Grounded i is documents g lo hi)

  conclude-Kept :
      (is : List (Interval float)) (documents : ℕ) (g : ConsensusResult float)
      {r : ConsensusResult float}
      → g.verdict ≡ insufficient
      → conclude float is documents g ≡ some r
      → Kept documents g r
  unfolding conclude Kept
  conclude-Kept [] documents g h e =
      subst (Kept documents g) (some-injective e)
        (refl, refl, refl, insufficient-Grounded (record g { sources = documents }) h)
  conclude-Kept (i ∷ is) documents g h e =
      medians-Kept i is documents g (weighted_median float (i ∷ is) (λ j. j.lo))
        (weighted_median float (i ∷ is) (λ j. j.hi)) e

  -- The years of the facts that have a range and a year.
  abbrev pub YearsIn : ℕ → ℕ → List (ConsensusFact float) → Type 0
  YearsIn from to facts =
      All (λ f. f.has_range ≡ true → f.year ≢ 0 → (from ≢ 0) × (from ≤ f.year) × (f.year ≤ to))
        facts

  -- The facts that have a range and name the document.
  abbrev pub names : String → ConsensusFact float → Bool
  names d f = f.has_range && f.document_id == d

  -- There are `n` documents that a fact with a range names, each counted once.
  abbrev pub Documents : ℕ → List (ConsensusFact float) → Type 0
  Documents n facts =
      (ids : List String) × NoRepeats ids
      × ((d : String) → contains ids d ≡ any (names d) facts)
      × (n ≡ length ids)

  one_document :
      (year : ℕ) (g : Gathered float) (f : ConsensusFact float)
      → NoRepeats g.documents
      → NoRepeats (gather_one float year g f).documents
        × ((d : String)
            → contains (gather_one float year g f).documents d
              ≡ (contains g.documents d || names d f))
  unfolding gather_one
  one_document year g f h = elim (Bool-cases f.has_range) [
    | inr e ↦ rw e (h, λ d. ground arith)
    | inl e ↦ (elim (Bool-cases (contains g.documents f.document_id)) [
      | inl k ↦ rw e (rw k (h, λ d. seen d k))
      | inr k ↦ rw e (rw k ((k, h), λ d. ground arith))
    ])
  ]
    where
      seen :
          (d : String)
          → contains g.documents f.document_id ≡ true
          → contains g.documents d ≡ (contains g.documents d || f.document_id == d)
      seen d k = elim (Bool-cases (f.document_id == d)) [
        | inl e ↦
            let here : contains g.documents d ≡ true =
              subst (λ (x : String). contains g.documents x ≡ true) ((eq_iff f.document_id d).0 e)
                k in
            ground (arith, here)
        | inr e ↦ ground (arith, e)
      ]

  gather_documents :
      (year : ℕ) (g : Gathered float) (facts : List (ConsensusFact float))
      → NoRepeats g.documents
      → NoRepeats (gather float year g facts).documents
        × ((d : String)
            → contains (gather float year g facts).documents d
              ≡ (contains g.documents d || any (names d) facts))
  unfolding gather
  gather_documents year g [] h = (h, λ d. ground arith)
  gather_documents year g (f ∷ facts) h =
      let (a, b) = one_document year g f h in
      let (c, e) = gather_documents year (gather_one float year g f) facts a in
      (c, λ d. ground (arith, b d, e d))

  -- The sources of the consensus of some facts are the documents that the facts with a range name,
  -- each counted once. It has another verdict than `insufficient` only where two documents or more back it, and
  -- the verdict `consensus` only where three or more do and the overlap is one half or more; the years
  -- of the result enclose the year of each fact that has a range and a year.
  pub consensus_grounds :
      (facts : List (ConsensusFact float)) (year : ℕ) (r : ConsensusResult float)
      → compute_consensus float facts year ≡ some r
      → Documents r.sources facts × Grounded r × YearsIn r.year_from r.year_to facts
  unfolding compute_consensus Kept
  consensus_grounds facts year r h =
      let g = gather float year (start float) facts in
      let (sources, from, to, grounds) =
        conclude-Kept g.intervals (length g.documents) g.result
          (same_gather float year (start float) facts).1 h in
      let (later, covers) = gather-Covers year (start float) facts in
      let (distinct, named) = gather_documents year (start float) facts tt in
      ((g.documents, distinct, named, sources), grounds, rw (from, to) covers)
