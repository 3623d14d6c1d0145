-- ===== src/Auth/Rules.antt =====
-- Role-based access control (rbac.go).
use nornickel_hackathon.Prelude.{
  String, Bool, true, false, ◌||◌, Option, none, some, List, [], ◌∷◌, ◌≡◌, refl, ◌∙◌, inl, inr,
  arith, any, all, not, all-contains, All-contains, all-lookup, sym, contains, keep, lookup, eq_iff,
  ◌==◌, Bool-cases, contains-keep, All,
}
use mathlib.Core.Bool.{false≢true}
use nornickel_hackathon.Auth.{
  Principal, has_role, granted, known_roles, known_roles_set, allowed, operation_roles,
  role_partner, role_expert, role_admin,
}

any-keep :
    (p : String → Bool) (roles : List String) (xs : List String)
    → ((x : String) → contains xs x ≡ true → p x ≡ true)
    → any (contains (keep p roles)) xs ≡ any (contains roles) xs
any-keep p roles [] h = refl
any-keep p roles (x ∷ xs) h = ground (
  arith,
  contains-keep p roles x,
  h x,
  eq_iff x x,
  any-keep p roles xs (λ y m. h y (ground arith)),
)

-- Every role that the table grants is a known role, and partner stands only under ask.
table_known :
    all (λ (e : String × List String). all (contains known_roles_set) e.1) operation_roles ≡ true
table_known = refl

only_ask : String × List String → Bool
only_ask e = e.0 == "ask" || not (contains e.1 role_partner)

table_partner : all only_ask operation_roles ≡ true
unfolding only_ask
table_partner = refl

-- Whether an operation is allowed depends on the known roles alone: dropping the others changes no
-- decision.
pub allowed-known_roles :
    (operation : String) (p : Principal)
    → allowed operation (record p { roles = known_roles p.roles }) ≡ allowed operation p
unfolding allowed known_roles
allowed-known_roles operation p = go (lookup operation operation_roles) refl
  where
    go :
        (o : Option (List String))
        → lookup operation operation_roles ≡ o
        → granted (record p { roles = known_roles p.roles }) o ≡ granted p o
    go none e = refl
    go (some roles) e = any-keep (contains known_roles_set) p.roles roles (λ x.
        all-contains (contains known_roles_set) roles x (
          all-lookup (λ e. all (contains known_roles_set) e.1) operation_roles operation table_known
            e))

partner_not_granted :
    (held roles : List String)
    → All (λ r. r ≡ role_partner) held
    → contains roles role_partner ≡ false
    → any (contains held) roles ≡ false
partner_not_granted held [] h m = refl
partner_not_granted held (x ∷ roles) h m = elim (Bool-cases (contains held x)) [
  | inl e ↦
      let same : x ≡ role_partner = All-contains (λ r. r ≡ role_partner) held x h e in
      absurd (false≢true (sym m ∙ ground (arith, eq_iff x role_partner)))
  | inr e ↦ rw e (partner_not_granted held roles h (ground arith))
]

-- A principal with no role but partner is allowed nothing but to ask.
pub partner_only_asks :
    (operation : String) (p : Principal)
    → All (λ r. r ≡ role_partner) p.roles
    → allowed operation p ≡ true
    → operation ≡ "ask"
unfolding allowed only_ask
partner_only_asks operation p h = go (lookup operation operation_roles) refl
  where
    go :
        (o : Option (List String))
        → lookup operation operation_roles ≡ o
        → granted p o ≡ true
        → operation ≡ "ask"
    go none e m = absurd (false≢true m)
    go (some roles) e m = elim (Bool-cases (contains roles role_partner)) [
      | inl yes_partner ↦
          (eq_iff operation "ask").0
            (ground (arith, all-lookup only_ask operation_roles operation table_partner e))
      | inr without ↦ absurd (false≢true (sym (partner_not_granted p.roles roles h without) ∙ m))
    ]

-- The four decision operations are allowed to an expert or an administrator, and to nobody else.
pub decision_allowed :
    (operation : String) (p : Principal)
    → contains
        ("fact.decision" ∷ "entity.merge" ∷ "contradiction.decision" ∷ "review.queue" ∷ [])
        operation
      ≡ true
    → allowed operation p ≡ (has_role p role_expert || has_role p role_admin)
unfolding allowed
decision_allowed operation p h =
    All-contains (λ o. allowed o p ≡ (has_role p role_expert || has_role p role_admin)) decisions
      operation (one, (one, (one, (one, tt)))) h
  where
    decisions : List String
    decisions = "fact.decision" ∷ "entity.merge" ∷ "contradiction.decision" ∷ "review.queue" ∷ []

    one :
        (has_role p role_expert || (has_role p role_admin || false))
        ≡ (has_role p role_expert || has_role p role_admin)
    one = ground arith
