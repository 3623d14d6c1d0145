-- ===== src/Catalog/Facts.antt =====
-- The classification of facts as the service makes it: the bounds are put in order first.
use nornickel_hackathon.Prelude.{
  String, true, false, Option, none, some, ◌≡◌, ◌↔◌, ◌⊎◌, inl, inr, refl, arith, Bool-cases, subst,
}
use nornickel_hackathon.Float.{Float}
use nornickel_hackathon.Catalog.{
  NumericFact, ParameterDef, machine_extracted, weak_evidence, rejected, inverted, order_bounds,
  order_si, normalize_bounds, lacks_bound, valid_bounds, implausible, classify_fact, is_blank,
}

module _ (float : Float)
    (lt_asymm : (a b : float.F) → float.lt a b ≡ true → float.lt b a ≡ false) where
  open float use {F, lt, lit}

  swapped : (lo hi : Option F) → inverted float lo hi ≡ true → inverted float hi lo ≡ false
  unfolding inverted
  swapped none hi h = ground arith
  swapped (some a) none h = ground arith
  swapped (some a) (some b) h = lt_asymm b a h

  order_lem :
      (fact : NumericFact float)
      → (inverted float (order_bounds float fact).vmin (order_bounds float fact).vmax ≡ false)
        × ((order_bounds float fact).vmin_si ≡ fact.vmin_si)
        × ((order_bounds float fact).vmax_si ≡ fact.vmax_si)
  unfolding order_bounds
  order_lem fact = elim (Bool-cases (inverted float fact.vmin fact.vmax)) [
    | inl e ↦ rw e (swapped fact.vmin fact.vmax e, refl, refl)
    | inr e ↦ rw e (e, refl, refl)
  ]

  order_si_lem :
      (fact : NumericFact float)
      → (inverted float (order_si float fact).vmin_si (order_si float fact).vmax_si ≡ false)
        × ((order_si float fact).vmin ≡ fact.vmin)
        × ((order_si float fact).vmax ≡ fact.vmax)
  unfolding order_si
  order_si_lem fact = elim (Bool-cases (inverted float fact.vmin_si fact.vmax_si)) [
    | inl e ↦ rw e (swapped fact.vmin_si fact.vmax_si e, refl, refl)
    | inr e ↦ rw e (e, refl, refl)
  ]

  ordered :
      (fact : NumericFact float)
      → (inverted float (normalize_bounds float fact).vmin (normalize_bounds float fact).vmax
          ≡ false)
        × (inverted float
              (normalize_bounds float fact).vmin_si
              (normalize_bounds float fact).vmax_si
            ≡ false)
  unfolding normalize_bounds
  ordered fact =
      let (a, same_min, same_max) = order_lem fact in
      let (b, keeps_min, keeps_max) = order_si_lem (order_bounds float fact) in
      (rw (keeps_min, keeps_max) a, b)

  bounds_kept :
      (fact : NumericFact float)
      → (((order_bounds float fact).vmin ≡ fact.vmin)
          × ((order_bounds float fact).vmax ≡ fact.vmax))
        ⊎ ((inverted float fact.vmin fact.vmax ≡ true)
            × ((order_bounds float fact).vmin ≡ fact.vmax)
            × ((order_bounds float fact).vmax ≡ fact.vmin))
  unfolding order_bounds
  bounds_kept fact = elim (Bool-cases (inverted float fact.vmin fact.vmax)) [
    | inl e ↦ rw e (inr (refl, refl, refl))
    | inr e ↦ rw e (inl (refl, refl))
  ]

  si_kept :
      (fact : NumericFact float)
      → (((order_si float fact).vmin_si ≡ fact.vmin_si)
          × ((order_si float fact).vmax_si ≡ fact.vmax_si))
        ⊎ ((inverted float fact.vmin_si fact.vmax_si ≡ true)
            × ((order_si float fact).vmin_si ≡ fact.vmax_si)
            × ((order_si float fact).vmax_si ≡ fact.vmin_si))
  unfolding order_si
  si_kept fact = elim (Bool-cases (inverted float fact.vmin_si fact.vmax_si)) [
    | inl e ↦ rw e (inr (refl, refl, refl))
    | inr e ↦ rw e (inl (refl, refl))
  ]

  -- The bounds `lo` and `hi` are those of before, or those of before swapped where they were in the
  -- wrong order.
  abbrev pub Reordered : Option F → Option F → Option F → Option F → Type 0
  Reordered lo hi vmin vmax =
      ((lo ≡ vmin) × (hi ≡ vmax)) ⊎ ((inverted float vmin vmax ≡ true) × (lo ≡ vmax) × (hi ≡ vmin))

  reordered :
      (fact : NumericFact float)
      → let f = normalize_bounds float fact in
        Reordered f.vmin f.vmax fact.vmin fact.vmax
        × Reordered f.vmin_si f.vmax_si fact.vmin_si fact.vmax_si
  unfolding normalize_bounds
  reordered fact =
      let (a, same_min, same_max) = order_si_lem (order_bounds float fact) in
      let (b, si_min, si_max) = order_lem fact in
      (
        rw (same_min, same_max) (bounds_kept fact),
        subst
            (λ (hi : Option F).
              Reordered (normalize_bounds float fact).vmin_si (normalize_bounds float fact).vmax_si
                fact.vmin_si hi)
            si_max
            (subst
              (λ (lo : Option F).
                Reordered (normalize_bounds float fact).vmin_si
                  (normalize_bounds float fact).vmax_si lo (order_bounds float fact).vmax_si)
              si_min (si_kept (order_bounds float fact))),
      )

  normal_same :
      (f : NumericFact float)
      → inverted float f.vmin f.vmax ≡ false
      → inverted float f.vmin_si f.vmax_si ≡ false
      → normalize_bounds float f ≡ f
  unfolding normalize_bounds
  normal_same f a b = rw a (rw b refl)

  -- After its bounds are put in order a fact has no bound above its other bound, in neither unit; in
  -- each unit it has the bounds of before, swapped only where they were in the wrong order, and putting
  -- them in order again changes nothing.
  pub normalize_bounds_ordered :
      (fact : NumericFact float)
      → let f = normalize_bounds float fact in
        (inverted float f.vmin f.vmax ≡ false)
        × (inverted float f.vmin_si f.vmax_si ≡ false)
        × Reordered f.vmin f.vmax fact.vmin fact.vmax
        × Reordered f.vmin_si f.vmax_si fact.vmin_si fact.vmax_si
        × (normalize_bounds float f ≡ f)
  normalize_bounds_ordered fact =
      let (a, b) = ordered fact in
      let (c, d) = reordered fact in (a, b, c, d, normal_same (normalize_bounds float fact) a b)

  lacks_swap :
      (operator : String) (a b : Option F)
      → inverted float a b ≡ true
      → lacks_bound float operator b a ≡ lacks_bound float operator a b
  unfolding lacks_bound inverted
  lacks_swap operator none b h = ground arith
  lacks_swap operator (some x) none h = ground arith
  lacks_swap operator (some x) (some y) h = refl

  same_lacks :
      (fact : NumericFact float)
      → let f = normalize_bounds float fact in
        (f.operator ≡ fact.operator)
        × (f.unit_code ≡ fact.unit_code)
        × (lacks_bound float f.operator f.vmin f.vmax
            ≡ lacks_bound float fact.operator fact.vmin fact.vmax)
  unfolding normalize_bounds
  same_lacks fact = ground (arith, lacks_swap fact.operator fact.vmin fact.vmax)

  -- A fact with a unit, once its bounds are in order, is rejected just where its operator lacks a
  -- bound: a range that was written from high to low is not rejected.
  pub rejected_iff :
      (fact : NumericFact float) (def : Option (ParameterDef float))
      → is_blank fact.unit_code ≡ false
      → ((classify_fact float (normalize_bounds float fact) def).0 ≡ rejected)
        ↔ (lacks_bound float fact.operator fact.vmin fact.vmax ≡ true)
  unfolding classify_fact valid_bounds
  rejected_iff fact def h =
      let (a, b) = ordered fact in
      let (op, unit, lacks) = same_lacks fact in ground (arith, b, op, unit, lacks, h)

  -- Classification never raises the confidence, and lowers it for weak evidence alone, to one half
  -- at most; a fact is machine extracted just where it has a unit, valid bounds and no bound outside its definition.
  pub classify_confidence :
      (fact : NumericFact float) (def : Option (ParameterDef float))
      → let (status, confidence) = classify_fact float fact def in
        ((confidence ≡ fact.confidence)
          ⊎ ((status ≡ weak_evidence)
              × (confidence ≡ lit 1 2)
              × (lt (lit 1 2) fact.confidence ≡ true)))
        × ((status ≡ machine_extracted) ↔ (
            (is_blank fact.unit_code ≡ false)
            × (valid_bounds float fact ≡ true)
            × (implausible float fact def ≡ false)))
  unfolding classify_fact
  classify_confidence fact def = ground arith
