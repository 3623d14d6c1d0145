-- ===== src/Auth.antt =====
-- internal/platform/auth: roles, document access and the operations a role may perform (auth.go,
-- rbac.go). The verifiers and the signed metadata are in the child modules.
pub mod Access
pub mod Rules
pub mod Verifiers
pub mod Signed
use nornickel_hackathon.Prelude.{
  ℕ, zero, String, Bool, true, false, ◌&&◌, ◌||◌, Option, none, some, List, [], ◌∷◌, ◌≡◌, ltb,
  if◌then◌else◌, contains, any, keep, lookup, get_elem?, Assoc,
}

abbrev pub role_researcher : String
role_researcher = "researcher"

abbrev pub role_analyst : String
role_analyst = "analyst"

abbrev pub role_manager : String
role_manager = "manager"

abbrev pub role_expert : String
role_expert = "expert"

abbrev pub role_admin : String
role_admin = "admin"

abbrev pub role_partner : String
role_partner = "partner"

abbrev pub access_public : String
access_public = "public"

-- `knownRoles`
abbrev pub known_roles_set : List String
known_roles_set =
    role_researcher ∷ role_analyst ∷ role_manager ∷ role_expert ∷ role_admin ∷ role_partner ∷ []

abbrev pub doc_access_by_role : Assoc ℕ
doc_access_by_role =
    (role_partner, 0)
    ∷ (role_researcher, 1)
    ∷ (role_analyst, 1)
    ∷ (role_manager, 2)
    ∷ (role_expert, 2)
    ∷ (role_admin, 3)
    ∷ []

abbrev pub doc_access_levels : List String
doc_access_levels = access_public ∷ "internal" ∷ "confidential" ∷ "restricted" ∷ []

pub record Principal : Type 0 where
  pub user_id : String
  pub name : String
  pub roles : List String
  pub doc_access : String

unfoldable pub has_role : Principal → String → Bool
has_role principal role = contains principal.roles role

unfoldable pub has_any_role : Principal → List String → Bool
unfolding has_role
has_any_role principal roles = any (has_role principal) roles

unfoldable pub known_roles : List String → List String
known_roles roles = keep (contains known_roles_set) roles

-- The body of the loop of `DocAccessForRoles`, on what the map has for the role.
unfoldable pub raise : ℕ → Option ℕ → ℕ
raise highest none = highest
raise highest (some level) = if ltb highest level then level else highest

unfoldable pub highest_from : ℕ → List String → ℕ
unfolding raise
highest_from highest [] = highest
highest_from highest (role ∷ roles) =
    highest_from (raise highest (lookup role doc_access_by_role)) roles

-- `none` stands for the panic of an index out of range.
unfoldable pub doc_access_for_roles : List String → Option String
unfolding highest_from
doc_access_for_roles roles = get_elem? doc_access_levels (highest_from 0 roles)

abbrev pub all_but_partner : List String
all_but_partner = role_researcher ∷ role_analyst ∷ role_manager ∷ role_expert ∷ role_admin ∷ []

abbrev pub deciders : List String
deciders = role_expert ∷ role_admin ∷ []

abbrev pub operation_roles : Assoc (List String)
operation_roles =
    (
      "ask",
      role_researcher ∷ role_analyst ∷ role_manager ∷ role_expert ∷ role_admin ∷ role_partner ∷ [],
    )
    ∷ ("search", all_but_partner)
    ∷ ("browse", all_but_partner)
    ∷ ("document.upload", role_analyst ∷ role_admin ∷ [])
    ∷ ("fact.decision", deciders)
    ∷ ("entity.merge", deciders)
    ∷ ("contradiction.decision", deciders)
    ∷ ("review.queue", deciders)
    ∷ []

-- The second half of `Allowed`, on what the map has for the operation.
unfoldable pub granted : Principal → Option (List String) → Bool
unfolding has_any_role
granted principal none = false
granted principal (some roles) = has_any_role principal roles

unfoldable pub allowed : String → Principal → Bool
unfolding granted
allowed operation principal = granted principal (lookup operation operation_roles)
