-- ===== src/Rls.antt =====
-- internal/platform/pg/rls.go: the row security of a transaction, and the policy of db/migrations on
-- the documents that it shows.
pub mod Levels
use nornickel_hackathon.Prelude.{
  String, Bool, true, false, ◌||◌, not, List, [], ◌∷◌, ◌==◌, if◌then◌else◌, Result, ok, err, ◌>>=◌,
  ◌>>◌, fail_if,
}

abbrev pub default_doc_access : String
default_doc_access = "internal"

abbrev pub default_user_id : String
default_user_id = "system"

-- The principal of a transaction: the access and the user.
pub record Principal : Type 0 where
  pub user_id : String
  pub doc_access : String

unfoldable pub normalize_rls : Principal → String × String
normalize_rls principal = (
  if principal.doc_access == "" then default_doc_access else principal.doc_access,
  if principal.user_id == "" then default_user_id else principal.user_id,
)

-- The policy documents_select: whether a session with an access sees a document of a level.
unfoldable pub documents_select : String → String → Bool
documents_select access level =
    if access == "restricted"
    then true
    else if access == "confidential"
    then not (level == "restricted")
    else if access == "internal"
    then level == "public" || level == "internal"
    else level == "public"

pub data RlsError : Type 0 where
  begin_failed set_failed commit_failed : RlsError
  inner : String → RlsError

-- `WithRLS`: the function runs in a transaction with the settings of the principal.
unfoldable pub with_rls {ℓ} :
    {A : Type ℓ}
    → (RlsError → Bool)
    → Principal
    → (String × String → Result RlsError A)
    → Result RlsError A
unfolding normalize_rls
with_rls fails principal fn = do
  fail_if (fails begin_failed) begin_failed
  fail_if (fails set_failed) set_failed
  a ← fn (normalize_rls principal)
  fail_if (fails commit_failed) commit_failed
  ok a

-- The documents that a query sees in such a transaction, from their identifiers and levels.
unfoldable pub seen_documents : String → List (String × String) → List (String × String)
unfolding documents_select
seen_documents access [] = []
seen_documents access ((id, level) ∷ documents) =
    let rest = seen_documents access documents in
    if documents_select access level then (id, level) ∷ rest else rest
