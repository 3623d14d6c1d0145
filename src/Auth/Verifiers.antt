-- ===== src/Auth/Verifiers.antt =====
-- The verifiers of bearer tokens: a fixed table of demonstration tokens (demo.go) and a chain of
-- verifiers (composite.go). An error is `ErrUnauthorized` or what a member of the chain returns.
use nornickel_hackathon.Prelude.{
  String, Option, none, some, List, [], ◌∷◌, ◌≡◌, refl, ap, arith, ◌==◌, if◌then◌else◌, lookup,
  Assoc, Result, ok, err, inl, inr, ◌>>=◌, Bool-cases,
}
use nornickel_hackathon.Auth.Access.{doc_access_total}
use nornickel_hackathon.Auth.{Principal, known_roles, doc_access_for_roles}

pub data VerifyError : Type 0 where
  unauthorized : VerifyError
  -- an error of a member, with its text
  other : String → VerifyError

pub record DemoToken : Type 0 where
  pub sub : String
  pub name : String
  pub roles : List String
  pub doc_access : String

-- The access of a token, computed from its known roles where it states none; `none` is the panic of
-- `DocAccessForRoles`.
unfoldable pub token_access : DemoToken → Option String
token_access t =
    if t.doc_access == "" then doc_access_for_roles (known_roles t.roles) else some t.doc_access

unfoldable pub with_access : DemoToken → Option String → Option Principal
with_access t none = none
with_access t (some level) =
    some
      (record { user_id = t.sub; name = t.name; roles = known_roles t.roles; doc_access = level })

unfoldable pub demo_principal : DemoToken → Option Principal
unfolding with_access token_access
demo_principal t = with_access t (token_access t)

unfoldable pub add_entry :
    String → Option Principal → Option (Assoc Principal) → Option (Assoc Principal)
add_entry token none table = none
add_entry token (some p) none = none
add_entry token (some p) (some table) = some ((token, p) ∷ table)

-- The table that `NewDemoVerifier` builds; a panic for one token is a panic of the whole.
unfoldable pub demo_verifier : Assoc DemoToken → Option (Assoc Principal)
unfolding add_entry
demo_verifier [] = some []
demo_verifier ((token, t) ∷ tokens) = add_entry token (demo_principal t) (demo_verifier tokens)

unfoldable pub found : Option Principal → Result VerifyError Principal
found none = err unauthorized
found (some p) = ok p

unfoldable pub demo_verify : Assoc Principal → String → Result VerifyError Principal
unfolding found
demo_verify principals token = found (lookup token principals)

abbrev pub Verifier : Type 0
Verifier = String → Result VerifyError Principal

unfoldable pub or_rest :
    Result VerifyError Principal → Result VerifyError Principal → Result VerifyError Principal
or_rest (ok principal) rest = ok principal
or_rest (err e) rest = rest

unfoldable pub composite_verify : List Verifier → Verifier
unfolding or_rest
composite_verify [] token = err unauthorized
composite_verify (candidate ∷ verifiers) token =
    or_rest (candidate token) (composite_verify verifiers token)

-- The result of a chain by what its members say: the first member that accepts decides, and when all
-- refuse, the chain refuses with its own error.
pub data Decides (token : String) : List Verifier → Result VerifyError Principal → Type 0 where
  all_refused : Decides token [] (err unauthorized)
  accepts :
      {v : Verifier} {vs : List Verifier} {p : Principal}
      → v token ≡ ok p
      → Decides token (v ∷ vs) (ok p)
  passes :
      {v : Verifier} {vs : List Verifier} {e : VerifyError} {r : Result VerifyError Principal}
      → v token ≡ err e
      → Decides token vs r
      → Decides token (v ∷ vs) r

-- A chain answers with the principal of the first member that accepts the token, and refuses with
-- its own error where every member refuses.
pub composite-Decides :
    (vs : List Verifier) (token : String) → Decides token vs (composite_verify vs token)
unfolding composite_verify
composite-Decides [] token = all_refused
composite-Decides (v ∷ vs) token = go (v token) refl (composite-Decides vs token)
  where
    go :
        (r : Result VerifyError Principal)
        → v token ≡ r
        → Decides token vs (composite_verify vs token)
        → Decides token (v ∷ vs) (or_rest r (composite_verify vs token))
    go (ok p) e rest = accepts e
    go (err x) e rest = passes e rest

-- What the table of tokens says of one token.
abbrev pub entry_principal : Option DemoToken → Result VerifyError (Option Principal)
entry_principal none = err unauthorized
entry_principal (some t) = ok (demo_principal t)

token_access_total : (t : DemoToken) → (level : String) × (token_access t ≡ some level)
unfolding token_access
token_access_total t = elim (Bool-cases (t.doc_access == "")) [
  | inl e ↦ rw e (doc_access_total (known_roles t.roles))
  | inr e ↦ (t.doc_access, rw e)
]

demo_principal_total : (t : DemoToken) → (p : Principal) × (demo_principal t ≡ some p)
unfolding demo_principal
demo_principal_total t =
    let (level, e) = token_access_total t in
    (
      record { user_id = t.sub; name = t.name; roles = known_roles t.roles; doc_access = level },
      ap (with_access t) e,
    )

-- A verifier is built for every table of tokens, without an index out of range. It refuses the
-- tokens that are not in the table, and answers any other with the principal of its definition.
pub demo_lem :
    (tokens : Assoc DemoToken)
    → (table : Assoc Principal) × (demo_verifier tokens ≡ some table)
      × ((token : String)
          → entry_principal (lookup token tokens) ≡ (demo_verify table token >>= λ p. ok (some p)))
unfolding demo_verifier demo_verify
demo_lem [] = ([], refl, λ token. refl)
demo_lem ((k, t) ∷ tokens) =
    let (table, built, same) = demo_lem tokens in
    let (p, e) = demo_principal_total t in
    (
      (k, p) ∷ table,
      ground (arith, e, built),
      λ token. elim (Bool-cases (k == token)) [
        | inl here ↦ simp (here, e)
        | inr there ↦ simp there (same token)
      ],
    )
