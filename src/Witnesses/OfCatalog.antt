-- ===== src/Witnesses/OfCatalog.antt =====
-- Witnesses of the facts and entities of the catalog.
use nornickel_hackathon.Prelude.{ℕ, String, false, none, some, List, [], ◌∷◌, All, ◌≡◌}
use nornickel_hackathon.Witnesses.{small_float, small_asymm}
use nornickel_hackathon.Catalog.{NumericFact, inverted, normalize_bounds}
use nornickel_hackathon.Catalog.Facts.{Reordered, normalize_bounds_ordered}
use nornickel_hackathon.Catalog.Resolve.{Text, BundleEntity, NumericCandidate, build_references}
use nornickel_hackathon.Catalog.Resolve.Laws.{Exists, build_references-Exists}

-- A range that is written from high to low.
abbrev fact : NumericFact small_float
fact = record {
  operator = "range";
  vmin = some 9;
  vmax = some 4;
  unit_code = "mg/l";
  vmin_si = some 9;
  vmax_si = some 4;
  confidence = 1;
}

normalize_bounds_ordered_example :
    let f = normalize_bounds small_float fact in
    (inverted small_float f.vmin f.vmax ≡ false)
    × (inverted small_float f.vmin_si f.vmax_si ≡ false)
    × Reordered small_float small_asymm f.vmin f.vmax fact.vmin fact.vmax
    × Reordered small_float small_asymm f.vmin_si f.vmax_si fact.vmin_si fact.vmax_si
    × (normalize_bounds small_float f ≡ f)
normalize_bounds_ordered_example = normalize_bounds_ordered small_float small_asymm fact

abbrev text : Text
text = record {
  trim_space = λ s. s;
  to_lower = λ s. s;
  fields = λ s. s ∷ [];
  cut_colon = λ s. none;
  undash = λ s. s;
}

abbrev fresh : ℕ → String
fresh n = "n"

abbrev bundle : List BundleEntity
bundle = record { typ = "material"; etype = "material"; slug = "copper"; name = "Copper" } ∷ []

abbrev candidates : List (NumericCandidate ℕ)
candidates =
    record {
      subject = "copper";
      subject_slug = "copper";
      parameter = "yield";
      parameter_slug = "yield";
      operator = "eq";
      extraction_method = "rule";
      extractor_version = "1";
      chunk_id = "c1";
      relation = "has";
      values = 3;
    }
    ∷ []

build_references-Exists_example :
    let (facts, made) =
      build_references text fresh [] "1" (("yield", "p1") ∷ []) bundle candidates in
    All
      (λ f.
        Exists (("yield", "p1") ∷ []) made f.subject_id
        × Exists (("yield", "p1") ∷ []) made f.parameter_id)
      facts
build_references-Exists_example =
    build_references-Exists text fresh (("yield", "p1") ∷ []) [] "1" bundle candidates
