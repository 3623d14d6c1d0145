-- ===== src/Witnesses/OfRls.antt =====
-- Witnesses of the row security, and of the cutting and the methods of a summary.
use nornickel_hackathon.Prelude.{
  none, ℕ, String, Bool, false, none, some, List, [], ◌∷◌, leb, keep, get_elem?, ◌==◌,
  if◌then◌else◌, length, ok, ◌≡◌, ◌<◌, refl, arith,
}
use nornickel_hackathon.Auth.{doc_access_levels}
use nornickel_hackathon.Rls.{
  Principal, RlsError, normalize_rls, documents_select, with_rls, seen_documents,
}
use nornickel_hackathon.Rls.Levels.{rank_of, with_rls_levels}
use nornickel_hackathon.Answer.Synth.{Strings, FactItem, Evidence}
use nornickel_hackathon.Witnesses.{small_float}
use nornickel_hackathon.Answer.Deltas.{
  is_gap, words_from, find_words, chunk_deltas, concat, without_gap, chunk_deltas_ends,
}

abbrev manager : Principal
manager = record { user_id = "u3"; doc_access = "confidential" }

abbrev documents : List (String × String)
documents = ("d1", "public") ∷ ("d2", "restricted") ∷ []

abbrev fine : RlsError → Bool
fine e = false

is_level : get_elem? doc_access_levels 2 ≡ some (normalize_rls manager).0
unfolding normalize_rls
is_level = refl

opened : with_rls fine manager (λ s. ok (seen_documents s.0 documents)) ≡ ok (("d1", "public") ∷ [])
unfolding with_rls normalize_rls seen_documents documents_select
opened = refl

with_rls_levels_example :
    ((("d1", "public") ∷ [])
      ≡ keep
          (λ (d : String × String). leb (rank_of d.1) (rank_of (normalize_rls manager).0))
          documents)
    × ((normalize_rls manager).0
        ≡ (if manager.doc_access == "" then "internal" else manager.doc_access))
with_rls_levels_example =
    with_rls_levels manager fine documents (("d1", "public") ∷ []) 2 is_level
      ((0, refl), ((3, refl), tt)) opened

-- " ab c"
abbrev summary : List ℕ
summary = 32 ∷ 97 ∷ 98 ∷ 32 ∷ 99 ∷ []

few_words : length (find_words summary) < 3
unfolding find_words words_from is_gap
few_words = omega arith

chunk_deltas_ends_example :
    (chunks : List (List ℕ)) × (chunk_deltas 3 1 summary ≡ some chunks)
    × (concat chunks ≡ without_gap summary summary)
chunk_deltas_ends_example = chunk_deltas_ends 1 summary 3 (omega arith) few_words

abbrev strings : Strings ℕ
strings = record {
  trim_space = λ s. s;
  trim_suffix = λ s ext. s;
  to_lower = λ s. s;
  format_number = λ n. "n";
  squeeze = λ s. s;
  itoa = λ n. "n";
  first_runes = λ n s. s;
  has_more = λ n s. false;
}

abbrev fact : FactItem small_float strings
fact = record {
  ref = "F1";
  subject_slug = "process:leaching";
  subject_name = "Leaching";
  source_title = "Report";
  parameter_name = "yield";
  geography = "ru";
  operator = "eq";
  unit = "";
  vmin = some 3;
  vmax = none;
}

abbrev pack : Evidence small_float strings
pack = record {
  facts = fact ∷ fact ∷ [];
  chunks = [];
  consensus = [];
  contradictions = [];
  gaps = [];
}
