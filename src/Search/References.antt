-- ===== src/Search/References.antt =====
-- The references that the contradictions of the evidence make to its facts.
use nornickel_hackathon.Prelude.{
  ℕ, suc, ◌≤◌, String, Bool, true, ◌&&◌, Option, none, some, List, [], ◌∷◌, All, any, take, length,
  length-take_le, map, Assoc, lookup, insert, lookup-insert, eq_iff, ◌==◌, ◌≡◌, ◌⊎◌, refl, sym, ap,
  subst, arith, inl, inr,
}
use nornickel_hackathon.Float.{Float}
use nornickel_hackathon.Catalog.Resolve.{Text}
use nornickel_hackathon.Search.{
  Ranking, Fact, Contradiction, assign_refs, remap_found, remap_contradictions, rank_facts,
  final_top_of, fts_top_of, plan_query_text,
}
use nornickel_hackathon.Search.Pack.{
  Plan, Repo, EvidencePack, pack_of, pack_found, build_pack, ◌>>=◌, fact_filter, empty_pack,
}

module _ (float : Float) {V : Type 0} where
  -- Whether some fact has this identifier and this reference.
  abbrev pub has_ref : List (Fact float V) → String → String → Bool
  has_ref facts id ref = any (λ f. f.id == id && f.ref == ref) facts

  assign_refs_lem :
      (show_ref : ℕ → String) (n : ℕ) (refs : Assoc String) (facts : List (Fact float V))
      (k r : String)
      → lookup k (assign_refs float show_ref n refs facts).1 ≡ some r
      → (has_ref (assign_refs float show_ref n refs facts).0 k r ≡ true) ⊎ (lookup k refs ≡ some r)
  unfolding assign_refs
  assign_refs_lem show_ref n refs [] k r h = inr h
  assign_refs_lem show_ref n refs (f ∷ facts) k r h =
      elim (assign_refs_lem show_ref (suc n) (insert f.id (show_ref (suc n)) refs) facts k r h) [
        | inl a ↦ inl (ground (arith, a))
        | inr b ↦
            ground
              (arith, b, lookup-insert f.id k (show_ref (suc n)) refs, eq_iff (show_ref (suc n)) r)
      ]

  assign_refs-length :
      (show_ref : ℕ → String) (n : ℕ) (refs : Assoc String) (facts : List (Fact float V))
      → length (assign_refs float show_ref n refs facts).0 ≡ length facts
  unfolding assign_refs
  assign_refs-length show_ref n refs [] = refl
  assign_refs-length show_ref n refs (f ∷ facts) =
      ap suc (assign_refs-length show_ref (suc n) (insert f.id (show_ref (suc n)) refs) facts)

  abbrev pub Among : Contradiction V → List (Contradiction V) → Type 0
  Among c [] = ⊥
  Among c (d ∷ ds) = (c ≡ d) ⊎ Among c ds

  -- A contradiction of these, with its two facts named by their references.
  abbrev pub Refers : List (Fact float V) → List (Contradiction V) → Contradiction V → Type 0
  Refers facts cs d =
      (c : Contradiction V) × Among c cs
      × (d.rest ≡ c.rest)
      × (has_ref facts c.a_fact_ref d.a_fact_ref ≡ true)
      × (has_ref facts c.b_fact_ref d.b_fact_ref ≡ true)

  All-Among :
      (facts : List (Fact float V)) (c : Contradiction V) (cs ds : List (Contradiction V))
      → All (Refers facts cs) ds
      → All (Refers facts (c ∷ cs)) ds
  All-Among facts c cs [] h = tt
  All-Among facts c cs (d ∷ ds) ((e, m, x, y, z), h) =
      ((e, inr m, x, y, z), All-Among facts c cs ds h)

  remap_found_lem :
      (facts : List (Fact float V)) (c : Contradiction V) (a b : Option String)
      (cs rest : List (Contradiction V))
      → ((r : String) → a ≡ some r → has_ref facts c.a_fact_ref r ≡ true)
      → ((r : String) → b ≡ some r → has_ref facts c.b_fact_ref r ≡ true)
      → All (Refers facts cs) rest
      → All (Refers facts (c ∷ cs)) (remap_found c a b rest)
  unfolding remap_found
  remap_found_lem facts c none b cs rest x y h = All-Among facts c cs rest h
  remap_found_lem facts c (some a) none cs rest x y h = All-Among facts c cs rest h
  remap_found_lem facts c (some a) (some b) cs rest x y h =
      ((c, inl refl, refl, x a refl, y b refl), All-Among facts c cs rest h)

  remap_lem :
      (facts : List (Fact float V)) (refs : Assoc String)
      → ((k r : String) → lookup k refs ≡ some r → has_ref facts k r ≡ true)
      → (cs : List (Contradiction V)) → All (Refers facts cs) (remap_contradictions cs refs)
  unfolding remap_contradictions
  remap_lem facts refs good [] = tt
  remap_lem facts refs good (c ∷ cs) =
      remap_found_lem facts c (lookup c.a_fact_ref refs) (lookup c.b_fact_ref refs) cs
        (remap_contradictions cs refs) (good c.a_fact_ref) (good c.b_fact_ref)
        (remap_lem facts refs good cs)

  fresh_refs :
      (show_ref : ℕ → String) (facts : List (Fact float V)) (k r : String)
      → lookup k (assign_refs float show_ref 0 [] facts).1 ≡ some r
      → has_ref (assign_refs float show_ref 0 [] facts).0 k r ≡ true
  fresh_refs show_ref facts k r h = elim (assign_refs_lem show_ref 0 [] facts k r h) [
    | inl a ↦ a
    | inr b ↦ cc
  ]

module _ (float : Float) {V C G : Type 0} (repo : Repo float V C G) (text : Text)
    (show_ref : ℕ → String) (ranking : Ranking float) (current_year : ℕ) where
  bind_some :
      {A B : Type 0} (o : Option A) (f : A → Option B) {b : B}
      → (o >>= f) ≡ some b
      → (a : A) × (o ≡ some a) × (f a ≡ some b)
  bind_some none f h = cc
  bind_some (some a) f h = (a, refl, h)

  some-injective :
      {a b : EvidencePack float V C G}
      → ◌≡◌ {A = Option (EvidencePack float V C G)} (some a) (some b)
      → a ≡ b
  some-injective h = cc

  -- What the evidence keeps of its parts.
  abbrev pub Referenced : List (Contradiction V) → EvidencePack float V C G → Type 0
  Referenced cs pack =
      (length pack.facts ≤ final_top_of float ranking)
      × (length pack.chunks ≤ final_top_of float ranking)
      × All (Refers float pack.facts cs) pack.contradictions

  Known : List String → EvidencePack float V C G → Type 0
  Known ids pack =
      (cs : List (Contradiction V)) × (repo.contradictions ids ≡ some cs) × Referenced cs pack

  pack_of_lem :
      (plan : Plan float) (ids : List String) (fs : List (Fact float V))
      {pack : EvidencePack float V C G}
      → length fs ≤ final_top_of float ranking
      → pack_of float V C G repo text show_ref ranking current_year plan ids
          (assign_refs float show_ref 0 [] fs)
        ≡ some pack
      → Known ids pack
  unfolding pack_of Known
  pack_of_lem plan ids fs short h =
      let (facts, refs) = assign_refs float show_ref 0 [] fs in
      let (chunks, a, h1) =
        bind_some
          (repo.fts_chunks
            (plan_query_text text plan.slugs (map (λ c. c.parameter) plan.constraints))
            (fts_top_of float ranking))
          _ h in
      let (cs, b, h2) = bind_some (repo.contradictions ids) _ h1 in
      let (around, c, h3) = bind_some (repo.surroundings ids) _ h2 in
      (
        cs,
        b,
        subst (Referenced cs) (some-injective h3) (
          subst (λ n. n ≤ final_top_of float ranking)
              (sym (assign_refs-length float show_ref 0 [] fs)) short,
          length-take_le (final_top_of float ranking) chunks,
          remap_lem float facts refs (fresh_refs float show_ref fs) cs,
        ),
      )

  pack_found_lem :
      (plan : Plan float) (ids : List String) {pack : EvidencePack float V C G}
      → pack_found float V C G repo text show_ref ranking current_year plan ids ≡ some pack
      → (pack ≡ empty_pack float V C G) ⊎ Known ids pack
  unfolding pack_found Known
  pack_found_lem plan [] h = inl (sym (some-injective h))
  pack_found_lem plan (i ∷ ids) h =
      let (facts, a, h1) = bind_some (repo.facts (i ∷ ids) (fact_filter float plan)) _ h in
      let top =
        take (final_top_of float ranking)
          (rank_facts float ranking current_year plan.slugs facts) in
      inr (
        pack_of_lem plan (i ∷ ids) top
          (length-take_le (final_top_of float ranking)
            (rank_facts float ranking current_year plan.slugs facts))
          h1)

  build_pack_cases :
      (plan : Plan float) (slugs : List String) {pack : EvidencePack float V C G}
      → elim slugs [
        | [] ↦ some (empty_pack float V C G)
        | s ∷ ss ↦
            (repo.expand_entity_ids plan.slugs >>= λ ids.
            pack_found float V C G repo text show_ref ranking current_year plan ids)
      ]
        ≡ some pack
      → (pack ≡ empty_pack float V C G)
        ⊎ ((ids : List String) × (repo.expand_entity_ids plan.slugs ≡ some ids) × Known ids pack)
  build_pack_cases plan [] h = inl (sym (some-injective h))
  build_pack_cases plan (s ∷ ss) h =
      let (ids, a, h1) =
        bind_some (repo.expand_entity_ids plan.slugs)
          (λ ids. pack_found float V C G repo text show_ref ranking current_year plan ids) h in
      elim (pack_found_lem plan ids h1) [ inl e ↦ inl e | inr k ↦ inr (ids, a, k) ]

  -- The evidence that is built for a plan is empty, or it has at most the configured number of facts
  -- and of chunks, and each of its contradictions is one that the repository stores for the entities of the plan,
  -- whose two facts are facts of the evidence, named by their references there.
  pub build_pack_lem :
      (plan : Plan float) (pack : EvidencePack float V C G)
      → build_pack float V C G repo text show_ref ranking current_year plan ≡ some pack
      → (pack ≡ empty_pack float V C G)
        ⊎ ((ids : List String) × (repo.expand_entity_ids plan.slugs ≡ some ids)
            × ((cs : List (Contradiction V)) × (repo.contradictions ids ≡ some cs)
                × Referenced cs pack))
  unfolding build_pack Known
  build_pack_lem plan pack h = build_pack_cases plan plan.slugs h
