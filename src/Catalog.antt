-- ===== src/Catalog.antt =====
-- internal/catalog/domain: the classification of an extracted number (fact.go) and the entity that is
-- made for a new name (entity.go). `none` is a nil pointer.
pub mod Facts
pub mod Merge
pub mod Publish
pub mod Resolve
pub mod Store
use nornickel_hackathon.Prelude.{
  ℕ, zero, suc, String, Bool, true, false, ◌&&◌, ◌||◌, not, Option, none, some, List, [], ◌∷◌, leb,
  nat_eq, ◌==◌, if◌then◌else◌, contains, Result, ok, err,
}
use Prim.Native.Char.{Char, code}
use nornickel_hackathon.Float.{Float}

-- unicode.IsSpace, on a code point.
unfoldable pub is_space : ℕ → Bool
is_space c =
    (leb 9 c && leb c 13)
    || nat_eq c 32
    || nat_eq c 0x85
    || nat_eq c 0xa0
    || nat_eq c 0x1680
    || (leb 0x2000 c && leb c 0x200a)
    || nat_eq c 0x2028
    || nat_eq c 0x2029
    || nat_eq c 0x202f
    || nat_eq c 0x205f
    || nat_eq c 0x3000

-- `strings.TrimSpace(s) == ""`
unfoldable pub is_blank : String → Bool
unfolding is_space
is_blank String.[] = true
is_blank (String.◌∷◌ c s) = is_space (code c) && is_blank s

pub data FactStatus : Type 0 where
  machine_extracted weak_evidence needs_unit_review rejected : FactStatus

module _ (float : Float) where
  open float use {F, lt, add, sub, mul, abs, lit}

  -- The fields of `NumericFact` that classification reads or writes.
  pub record NumericFact : Type 0 where
    pub operator : String
    pub vmin : Option F
    pub vmax : Option F
    pub unit_code : String
    pub vmin_si : Option F
    pub vmax_si : Option F
    pub confidence : F

  pub record ParameterDef : Type 0 where
    pub plausible_min : Option F
    pub plausible_max : Option F

  -- The tolerance of a bound, `math.Abs(bound)*rel + rel`.
  unfoldable pub slack : F → F
  slack bound = add (mul (abs bound) (lit 1 1_000_000_000)) (lit 1 1_000_000_000)

  unfoldable pub below : F → Option F → Bool
  unfolding slack
  below value none = false
  below value (some bound) = lt value (sub bound (slack bound))

  unfoldable pub above : F → Option F → Bool
  unfolding slack
  above value none = false
  above value (some bound) = lt (add bound (slack bound)) value

  unfoldable pub plausible_one : ParameterDef → Option F → Bool
  unfolding below above
  plausible_one d none = true
  plausible_one d (some value) =
      not (below value d.plausible_min) && not (above value d.plausible_max)

  unfoldable pub plausible : ParameterDef → Option F → Option F → Bool
  unfolding plausible_one
  plausible d vmin vmax = plausible_one d vmin && plausible_one d vmax

  -- `*lo > *hi`, where both are there
  unfoldable pub inverted : Option F → Option F → Bool
  inverted none hi = false
  inverted (some lo) none = false
  inverted (some lo) (some hi) = lt hi lo

  unfoldable pub order_bounds : NumericFact → NumericFact
  order_bounds fact =
      if inverted fact.vmin fact.vmax
      then record fact { vmin = fact.vmax; vmax = fact.vmin }
      else fact

  unfoldable pub order_si : NumericFact → NumericFact
  order_si fact =
      if inverted fact.vmin_si fact.vmax_si
      then record fact { vmin_si = fact.vmax_si; vmax_si = fact.vmin_si }
      else fact

  unfoldable pub normalize_bounds : NumericFact → NumericFact
  unfolding order_bounds order_si
  normalize_bounds fact = order_si (order_bounds fact)

  abbrev pub is_nil : Option F → Bool
  is_nil none = true
  is_nil (some x) = false

  -- The `switch` of `validBounds`: whether the operator lacks a bound that it needs.
  unfoldable pub lacks_bound : String → Option F → Option F → Bool
  lacks_bound operator vmin vmax =
      if operator == "range" || operator == "pm"
      then is_nil vmin || is_nil vmax
      else if operator == "lte" || operator == "lt" || operator == "to"
      then is_nil vmax
      else if operator == "gte" || operator == "gt" || operator == "from"
      then is_nil vmin
      else if operator == "eq" || operator == "approx"
      then is_nil vmin && is_nil vmax
      else false

  unfoldable pub valid_bounds : NumericFact → Bool
  valid_bounds fact =
      if lacks_bound fact.operator fact.vmin fact.vmax
      then false
      else if inverted fact.vmin_si fact.vmax_si
      then false
      else true

  unfoldable pub implausible : NumericFact → Option ParameterDef → Bool
  unfolding plausible
  implausible fact none = false
  implausible fact (some d) = not (plausible d fact.vmin_si fact.vmax_si)

  unfoldable pub classify_fact : NumericFact → Option ParameterDef → FactStatus × F
  classify_fact fact def =
      if is_blank fact.unit_code
      then (needs_unit_review, fact.confidence)
      else if not (valid_bounds fact)
      then (rejected, fact.confidence)
      else if implausible fact def
      then (weak_evidence, if lt (lit 1 2) fact.confidence then lit 1 2 else fact.confidence)
      else (machine_extracted, fact.confidence)
