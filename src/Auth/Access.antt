-- ===== src/Auth/Access.antt =====
-- Document access by role (auth.go).
use nornickel_hackathon.Prelude.{
  ℕ, zero, suc, ◌≤◌, ◌<◌, max, String, true, false, Option, none, some, List, [], ◌∷◌, ◌≡◌, refl,
  ◌∙◌, ap, inl, inr, arith, contains, lookup, get_elem?, IsSubset, eq_iff, ◌==◌, Bool-cases,
}
use nornickel_hackathon.Auth.{
  raise, highest_from, doc_access_for_roles, doc_access_by_role, doc_access_levels, known_roles,
  known_roles_set,
}

-- The level of one role; an unknown role has none.
rank : String → ℕ
rank role = elim (lookup role doc_access_by_role) [ none ↦ 0 | some level ↦ level ]

rank-lt : (role : String) → rank role < 4
unfolding rank
rank-lt role = ground arith

-- The highest level of a list of roles.
abbrev top_rank : List String → ℕ
top_rank [] = 0
top_rank (role ∷ roles) = max (rank role) (top_rank roles)

top_rank-lt : (roles : List String) → top_rank roles < 4
top_rank-lt [] = omega arith
top_rank-lt (role ∷ roles) = omega (arith, rank-lt role, top_rank-lt roles)

raise_lem :
    (highest : ℕ) (role : String)
    → raise highest (lookup role doc_access_by_role) ≡ max highest (rank role)
unfolding rank raise
raise_lem highest role = go (lookup role doc_access_by_role)
  where
    go : (o : Option ℕ) → raise highest o ≡ max highest (elim o [ none ↦ 0 | some level ↦ level ])
    go none = omega arith
    go (some level) = ground arith

highest_from_lem :
    (highest : ℕ) (roles : List String) → highest_from highest roles ≡ max highest (top_rank roles)
unfolding highest_from
highest_from_lem highest [] = omega arith
highest_from_lem highest (role ∷ roles) =
    rw (raise_lem highest role) (omega (arith, highest_from_lem (max highest (rank role)) roles))

doc_access_lem :
    (roles : List String)
    → doc_access_for_roles roles ≡ get_elem? doc_access_levels (top_rank roles)
unfolding doc_access_for_roles
doc_access_lem roles = rw highest_from_lem (ap (get_elem? doc_access_levels) (omega arith))

rank_le_top :
    (roles : List String) (role : String) → contains roles role ≡ true → rank role ≤ top_rank roles
rank_le_top [] role h = ground arith
rank_le_top (r ∷ roles) role h = elim (Bool-cases (r == role)) [
  | inl e ↦ rw (← (eq_iff r role).0 e) (omega arith)
  | inr e ↦ omega (arith, rank_le_top roles role (ground arith))
]

top_rank_le :
    (n : ℕ) (roles : List String)
    → ((r : String) → contains roles r ≡ true → rank r ≤ n)
    → top_rank roles ≤ n
top_rank_le n [] h = omega arith
top_rank_le n (r ∷ roles) h =
    omega (arith, h r (rw ((eq_iff r r).1 refl)), top_rank_le n roles (λ s m. h s (ground arith)))

-- The level of a list of roles is found for every list, without an index out of range, and a list
-- that holds all roles of another has a level at least as high.
pub doc_access_mono :
    (xs ys : List String)
    → IsSubset xs ys
    → (i : ℕ) × (j : ℕ) × (doc_access_for_roles xs ≡ get_elem? doc_access_levels i)
      × (doc_access_for_roles ys ≡ get_elem? doc_access_levels j)
      × (i ≤ j)
      × (j < 4)
doc_access_mono xs ys h = (
  top_rank xs,
  top_rank ys,
  doc_access_lem xs,
  doc_access_lem ys,
  top_rank_le _ xs (λ r m. rank_le_top ys r (h r m)),
  top_rank-lt ys,
)

unknown-rank : (role : String) → contains known_roles_set role ≡ false → rank role ≡ 0
unfolding rank
unknown-rank role h = ground arith

top_rank-known_roles : (roles : List String) → top_rank (known_roles roles) ≡ top_rank roles
unfolding known_roles
top_rank-known_roles [] = refl
top_rank-known_roles (r ∷ roles) = elim (Bool-cases (contains known_roles_set r)) [
  | inl e ↦ rw e (omega (arith, top_rank-known_roles roles))
  | inr e ↦ rw e (omega (arith, top_rank-known_roles roles, unknown-rank r e))
]

-- Dropping the unknown roles does not change the document access.
pub doc_access-known_roles :
    (roles : List String) → doc_access_for_roles (known_roles roles) ≡ doc_access_for_roles roles
doc_access-known_roles roles =
    doc_access_lem (known_roles roles)
    ∙ ap (get_elem? doc_access_levels) (top_rank-known_roles roles)
    ∙ (rw doc_access_lem)

-- Every list of roles has a level, and it is not the empty text.
pub doc_access_total :
    (roles : List String) → (level : String) × (doc_access_for_roles roles ≡ some level)
doc_access_total roles = go (top_rank roles) (top_rank-lt roles) (doc_access_lem roles)
  where
    go :
        (n : ℕ)
        → n < 4
        → doc_access_for_roles roles ≡ get_elem? doc_access_levels n
        → (level : String) × (doc_access_for_roles roles ≡ some level)
    go zero h e = ("public", e)
    go (suc zero) h e = ("internal", e)
    go (suc (suc zero)) h e = ("confidential", e)
    go (suc (suc (suc zero))) h e = ("restricted", e)
    go (suc (suc (suc (suc n)))) h e = absurd (omega arith)
