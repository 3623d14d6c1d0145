-- ===== src/Search/Rank.antt =====
-- The order of the facts in the evidence.
use nornickel_hackathon.Prelude.{
  ℕ, suc, ◌≤◌, String, Bool, true, false, ◌||◌, List, [], ◌∷◌, ◌++◌, All, take, drop,
  take-append-drop, length, length-take_le, if◌then◌else◌, ◌≡◌, refl, arith, Bool-cases, inl, inr,
}
use nornickel_hackathon.Float.{Float}
use nornickel_hackathon.Search.{Ranking, Fact, score_facts, insert_fact, sort_facts, rank_facts}

module _ (float : Float) (lt_asymm : (a b : float.F) → float.lt a b ≡ true → float.lt b a ≡ false)
    (lt_split : (a b c : float.F)
      → float.eq b b ≡ true
      → float.lt a c ≡ true
      → (float.lt a b || float.lt b c) ≡ true) where
  open float use {F, lt, eq}

  module _ {V : Type 0} where
    -- Each fact scores no less than those after it.
    abbrev pub Descends : List (Fact float V) → Type 0
    Descends [] = Unit
    Descends (f ∷ facts) = All (λ g. lt f.score g.score ≡ false) facts × Descends facts

    -- The scores are numbers: a NaN is not equal to itself.
    abbrev pub Numbers : List (Fact float V) → Type 0
    Numbers facts = All (λ f. eq f.score f.score ≡ true) facts

    insert-Numbers :
        (f : Fact float V) (facts : List (Fact float V))
        → eq f.score f.score ≡ true
        → Numbers facts
        → Numbers (insert_fact float f facts)
    unfolding insert_fact
    insert-Numbers f [] h a = (h, tt)
    insert-Numbers f (g ∷ facts) h a = elim (Bool-cases (lt f.score g.score)) [
      | inl e ↦ rw e (a.0, insert-Numbers f facts h a.1)
      | inr e ↦ rw e (h, a)
    ]

    sort-Numbers : (facts : List (Fact float V)) → Numbers facts → Numbers (sort_facts float facts)
    unfolding sort_facts
    sort-Numbers [] h = tt
    sort-Numbers (f ∷ facts) h =
        insert-Numbers f (sort_facts float facts) h.0 (sort-Numbers facts h.1)

    abbrev pub count : (Fact float V → Bool) → List (Fact float V) → ℕ
    count p [] = 0
    count p (f ∷ facts) = let rest = count p facts in if p f then suc rest else rest

    insert-All :
        (n : F) (f : Fact float V) (facts : List (Fact float V))
        → lt n f.score ≡ false
        → All (λ g. lt n g.score ≡ false) facts
        → All (λ g. lt n g.score ≡ false) (insert_fact float f facts)
    unfolding insert_fact
    insert-All n f [] h a = (h, tt)
    insert-All n f (g ∷ facts) h a = elim (Bool-cases (lt f.score g.score)) [
      | inl e ↦ rw e (a.0, insert-All n f facts h a.1)
      | inr e ↦ rw e (h, a)
    ]

    All-below :
        (m n : F) (facts : List (Fact float V))
        → eq n n ≡ true
        → lt m n ≡ false
        → All (λ g. lt n g.score ≡ false) facts
        → All (λ g. lt m g.score ≡ false) facts
    All-below m n [] k h a = tt
    All-below m n (g ∷ facts) k h a =
        (ground (arith, lt_split m n g.score k, h, a.0), All-below m n facts k h a.1)

    insert-Descends :
        (f : Fact float V) (facts : List (Fact float V))
        → Numbers facts
        → Descends facts
        → Descends (insert_fact float f facts)
    unfolding insert_fact
    insert-Descends f [] k h = (tt, tt)
    insert-Descends f (g ∷ facts) k h = elim (Bool-cases (lt f.score g.score)) [
      | inl e ↦ rw e (
        insert-All g.score f facts (lt_asymm f.score g.score e) h.0,
        insert-Descends f facts k.1 h.1,
      )
      | inr e ↦ rw e ((e, All-below f.score g.score facts k.0 e h.0), h)
    ]

    sort-Descends :
        (facts : List (Fact float V)) → Numbers facts → Descends (sort_facts float facts)
    unfolding sort_facts
    sort-Descends [] h = tt
    sort-Descends (f ∷ facts) h =
        insert-Descends f (sort_facts float facts) (sort-Numbers facts h.1)
          (sort-Descends facts h.1)

    count-insert :
        (p : Fact float V → Bool) (f : Fact float V) (facts : List (Fact float V))
        → count p (insert_fact float f facts) ≡ count p (f ∷ facts)
    unfolding insert_fact
    count-insert p f [] = refl
    count-insert p f (g ∷ facts) = ground (arith, count-insert p f facts)

    count-sort :
        (p : Fact float V → Bool) (facts : List (Fact float V))
        → count p (sort_facts float facts) ≡ count p facts
    unfolding sort_facts
    count-sort p [] = refl
    count-sort p (f ∷ facts) =
        ground (arith, count-insert p f (sort_facts float facts), count-sort p facts)

    -- Where the scores are numbers, on which the comparison is an order, the first `top` ranked facts are the best: with some rest they are the scored facts, each as
    -- often, in an order of descending score; so no fact of the rest scores more than one of them.
    pub rank_facts_best :
        (ranking : Ranking float) (current_year : ℕ) (slugs : List String)
        (facts : List (Fact float V)) (top : ℕ)
        → Numbers (score_facts float ranking current_year slugs facts)
        → let best = take top (rank_facts float ranking current_year slugs facts) in
          (rest : List (Fact float V)) × Descends (best ++ rest)
          × ((p : Fact float V → Bool)
              → count p (best ++ rest)
                ≡ count p (score_facts float ranking current_year slugs facts))
          × (length best ≤ top)
    unfolding rank_facts
    rank_facts_best ranking current_year slugs facts top numbers =
        let scored = score_facts float ranking current_year slugs facts in
        (
          drop top (sort_facts float scored),
          rw take-append-drop (sort-Descends scored numbers),
          λ p. rw take-append-drop (count-sort p scored),
          length-take_le top (sort_facts float scored),
        )
