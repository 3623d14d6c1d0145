-- ===== src/Answer/Guard.antt =====
-- internal/answer/app/guard.go and numbers.go: the check of the numbers of a summary.
--
-- The patterns of numbers.go and the fields of the evidence are read before: `literals` are the
-- numbers of the summary once its citations and quoted names are taken out, and `supported` the
-- numbers that `allowedNumbers` collects.
use nornickel_hackathon.Prelude.{
  ℕ, suc, ◌+◌, ◌≤◌, Bool, true, false, ◌&&◌, ◌||◌, not, List, [], ◌∷◌, All, if◌then◌else◌, ◌≡◌, ◌↔◌,
  refl, arith,
}
use nornickel_hackathon.Float.{Float}

module _ (float : Float) where
  open float use {F, lt, le, sub, mul, abs, lit, is_whole}

  unfoldable pub is_year : F → Bool
  is_year value = is_whole value && le (lit 1900 1) value && le value (lit 2100 1)

  abbrev pub tolerance : F → F
  tolerance t = if lt t (lit 1 1_000_000_000) then lit 1 1_000_000_000 else t

  unfoldable pub approx_equal : F → F → Bool
  approx_equal a b = le (abs (sub a b)) (tolerance (mul (lit 1 100) (abs b)))

  unfoldable pub contains_approx : List F → F → Bool
  unfolding approx_equal
  contains_approx [] target = false
  contains_approx (value ∷ values) target =
      if approx_equal target value then true else contains_approx values target

  pub record GuardResult : Type 0 where
    pub numbers_checked : ℕ
    pub violations : ℕ

  -- One pass of the loop of `runGuard`.
  unfoldable pub check_number : List F → GuardResult → F → GuardResult
  check_number supported result value =
      if is_year value
      then result
      else if contains_approx supported value
      then record result { numbers_checked = suc result.numbers_checked }
      else record {
        numbers_checked = suc result.numbers_checked;
        violations = suc result.violations;
      }

  unfoldable pub check_numbers : List F → GuardResult → List F → GuardResult
  check_numbers supported result [] = result
  check_numbers supported result (value ∷ values) =
      check_numbers supported (check_number supported result value) values

  unfoldable pub run_guard : List F → List F → GuardResult
  unfolding check_numbers
  run_guard literals supported =
      check_numbers supported (record { numbers_checked = 0; violations = 0 }) literals

  -- How many numbers of a list pass a test.
  abbrev pub count : (F → Bool) → List F → ℕ
  count p [] = 0
  count p (x ∷ xs) = let rest = count p xs in if p x then suc rest else rest

  abbrev pub unsupported : List F → F → Bool
  unsupported supported value = not (is_year value) && not (contains_approx supported value)

  one_lem :
      (supported : List F) (r : GuardResult) (v : F)
      → ((check_number supported r v).numbers_checked
          ≡ (if is_year v then 0 else 1) + r.numbers_checked)
        × ((check_number supported r v).violations
            ≡ (if unsupported supported v then 1 else 0) + r.violations)
  unfolding check_number
  one_lem supported r v = (ground arith, ground arith)

  check_numbers_lem :
      (supported : List F) (r : GuardResult) (vs : List F)
      → ((check_numbers supported r vs).numbers_checked
          ≡ r.numbers_checked + count (λ v. not (is_year v)) vs)
        × ((check_numbers supported r vs).violations
            ≡ r.violations + count (unsupported supported) vs)
  unfolding check_numbers
  check_numbers_lem supported r [] = (omega arith, omega arith)
  check_numbers_lem supported r (v ∷ vs) =
      let (a, b) = check_numbers_lem supported (check_number supported r v) vs in
      let (c, d) = one_lem supported r v in (ground (arith, a, c), ground (arith, b, d))

  none_counted :
      (supported vs : List F)
      → (count (unsupported supported) vs ≡ 0)
        ↔ All (λ v. (is_year v || contains_approx supported v) ≡ true) vs
  none_counted supported [] = (λ h. tt, λ h. refl)
  none_counted supported (v ∷ vs) =
      ground (arith, (none_counted supported vs).0, (none_counted supported vs).1)

  count_le :
      (supported vs : List F) → count (unsupported supported) vs ≤ count (λ v. not (is_year v)) vs
  count_le supported [] = omega arith
  count_le supported (v ∷ vs) = ground (arith, count_le supported vs)

  -- The guard counts each number of a summary that is no year, and as a violation each of these that
  -- no supported number is near to. So it reports no violation just where each number of
  -- the summary is a year or near to a supported one, and never more violations than numbers.
  pub run_guard_lem :
      (literals supported : List F)
      → let r = run_guard literals supported in
        (r.numbers_checked ≡ count (λ v. not (is_year v)) literals)
        × (r.violations ≡ count (unsupported supported) literals)
        × (r.violations ≤ r.numbers_checked)
        × ((r.violations ≡ 0)
            ↔ All (λ v. (is_year v || contains_approx supported v) ≡ true) literals)
  unfolding run_guard
  run_guard_lem literals supported =
      let (a, b) =
        check_numbers_lem supported (record { numbers_checked = 0; violations = 0 }) literals in
      let (c, d) = none_counted supported literals in
      (
        omega (arith, a),
        omega (arith, b),
        omega (arith, a, b, count_le supported literals),
        (λ h. c (omega (arith, h, b)), λ h. omega (arith, b, d h)),
      )
