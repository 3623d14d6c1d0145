-- ===== src/Float.antt =====
-- Go's float64. Its values and operations are parameters: the fields of `Float`. A decimal literal
-- of the source is `lit n d`, the value nearest to n / d.
use nornickel_hackathon.Prelude.{ℕ, Bool}

pub record Float : Type 1 where
  pub F : Type 0
  pub lt : F → F → Bool
  pub le : F → F → Bool
  pub eq : F → F → Bool
  pub add : F → F → F
  pub sub : F → F → F
  pub mul : F → F → F
  pub div : F → F → F
  pub abs : F → F
  pub lit : ℕ → ℕ → F
  -- math.Min, math.Max, math.Exp and math.Round
  pub min : F → F → F
  pub max : F → F → F
  pub exp : F → F
  pub round : F → F
  -- the conversion of the difference of two integers
  pub of_diff : ℕ → ℕ → F
  -- whether the conversion to an integer and back gives the value again
  pub is_whole : F → Bool
