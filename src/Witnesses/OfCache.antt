-- ===== src/Witnesses/OfCache.antt =====
-- Witnesses of the table of cached answers.
use nornickel_hackathon.Prelude.{
  ℕ, ◌+◌, true, none, some, List, [], ◌∷◌, ltb, ◌==◌, if◌then◌else◌, ◌≡◌, refl, sym, ap, ◌∙◌, subst,
  ok, Option,
}
use nornickel_hackathon.Answer.Cache.{
  CachedAnswer, Codec, Table, handle, slugs_of, get, put, row_of, write_row, required, plan_slugs,
  read_evidence,
}
use nornickel_hackathon.Answer.Cache.Laws.{Settles, IsSound, handle_invalidates, put-get}

abbrev tail : List ℕ → Option (List ℕ)
tail [] = none
tail (x ∷ xs) = some xs

abbrev only_empty : List ℕ → List ℕ → Option (List ℕ)
only_empty [] e = some e
only_empty (x ∷ a) e = none

-- Plans, evidence and answers that are bytes already; an answer with a text is not encoded.
abbrev codec : Codec (List ℕ) (List ℕ) (List ℕ)
codec = record {
  marshal_plan = λ p. some p;
  unmarshal_plan = λ p. some p;
  marshal_evidence = λ e. some (1 ∷ e);
  unmarshal_evidence = tail;
  empty_evidence = [];
  marshal_answer = λ a. some a;
  unmarshal_answer = λ a. some a;
  marshal_stored = only_empty;
  unmarshal_stored = λ s. some ([], s);
  jsonb = λ text. text;
  slugs_in = λ p group. "material:copper" ∷ [];
}

evidence_read : (e : List ℕ) → read_evidence codec (1 ∷ e) ≡ some e
unfolding read_evidence
evidence_read e = refl

-- The column keeps the text itself here.
sound : IsSound codec
sound = record {
  Same = λ raw text. raw ≡ text;
  plan_column = λ p raw h. refl;
  stored_column = λ a e raw h. refl;
  plan = λ p raw text h k. ap some (sym k) ∙ sym h;
  evidence = λ e raw text h k. evidence_sound e raw text h k;
  answer = λ a raw text h k. ap some (sym k) ∙ sym h;
  stored = λ a e raw text h k. stored_sound a e raw text h k;
}
  where
    evidence_sound :
        (e raw text : List ℕ)
        → ◌≡◌ {A = Option (List ℕ)} (some (1 ∷ e)) (some raw)
        → raw ≡ text
        → read_evidence codec text ≡ some e
    evidence_sound e raw text h k =
        let m : (1 ∷ e) ≡ raw = cc in
        subst (λ (r : List ℕ). read_evidence codec r ≡ some e) (m ∙ k) (evidence_read e)

    stored_sound :
        (a e raw text : List ℕ)
        → only_empty a e ≡ some raw
        → raw ≡ text
        → (a' : List ℕ) × (e' : List ℕ) × (◌≡◌ {A = Option (List ℕ × List ℕ)}
            (some ([], text))
            (some (a', e')))
          × (a ≡ a')
          × (e ≡ e')
    stored_sound [] e raw text h k = let m : e ≡ raw = cc in ([], text, refl, refl, m ∙ k)
    stored_sound (x ∷ a) e raw text h k = absurd (none_some h)
      where
        none_some : {l : List ℕ} → ◌≡◌ {A = Option (List ℕ)} none (some l) → ⊥
        none_some h = cc

abbrev table : Table
table =
    (
      "k1",
      record {
        plan = 1 ∷ [];
        answer = 2 ∷ [];
        entity_slugs = "material:nickel" ∷ [];
        expires_at = 90;
      },
    )
    ∷ []

handle_invalidates_example :
    Settles
      (slugs_of ("n1" ∷ []) (("n1", "material:nickel") ∷ []))
      table
      (handle true true (("n1", "material:nickel") ∷ []) (some ("n1" ∷ [])) table)
handle_invalidates_example =
    handle_invalidates true true (("n1", "material:nickel") ∷ []) ("n1" ∷ []) table (refl, tt)

abbrev value : CachedAnswer (List ℕ) (List ℕ) (List ℕ)
value = record { plan = 7 ∷ []; evidence = 8 ∷ []; answer = [] }

written : (put codec true 60 5 "k2" value table).0 ≡ ok tt
unfolding put row_of write_row required plan_slugs
written = refl

put-get_example : get codec true 20 "k2" (put codec true 60 5 "k2" value table).1 ≡ (
    if "k2" == "k2"
    then ok (if ltb 20 (5 + 60) then some value else none)
    else get codec true 20 "k2" table)
put-get_example = put-get codec sound true 60 5 20 "k2" "k2" value table written
