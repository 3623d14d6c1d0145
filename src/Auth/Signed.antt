-- ===== src/Auth/Signed.antt =====
-- The principal that one service hands to another in signed request metadata (grpc.go).
--
-- The metadata type, the keyed hash and the decimal printing of a timestamp are not the program's:
-- they are the fields of `Platform`. Instants are counted in nanoseconds, timestamps in seconds.
pub mod Laws
use nornickel_hackathon.Prelude.{
  ℕ, suc, ◌+◌, ◌*◌, ◌/◌, String, Bool, true, false, ◌||◌, ◌&&◌, not, Option, none, some, List, [],
  ◌∷◌, ltb, ◌==◌, if◌then◌else◌,
}
use Prim.Native.String.{◌++◌}
use nornickel_hackathon.Auth.{Principal, access_public}

-- An int64 that was read from a text.
pub data ℤ : Type 0 where
  pos : ℕ → ℤ
  negsuc : ℕ → ℤ

pub record Platform : Type 1 where
  -- metadata.MD with its `Set` and `Get`; `none` is a request without metadata
  pub Md : Type 0
  pub empty : Md
  pub set : String → List String → Md → Md
  pub get : Md → String → List String
  -- hex.EncodeToString of HMAC-SHA256 under a key
  pub mac : String → String → String
  -- strconv.FormatInt and strconv.ParseInt, in base 10
  pub format_int : ℕ → String
  pub parse_int : String → Option ℤ

abbrev pub md_user : String
md_user = "x-kmap-user"

abbrev pub md_roles : String
md_roles = "x-kmap-roles"

abbrev pub md_doc_access : String
md_doc_access = "x-kmap-doc-access"

abbrev pub md_signature : String
md_signature = "x-kmap-principal-sig"

abbrev pub md_timestamp : String
md_timestamp = "x-kmap-principal-ts"

abbrev pub second : ℕ
second = 1_000_000_000

-- 5 * time.Minute
abbrev pub max_principal_age : ℕ
max_principal_age = 300 * second

-- strings.Join
unfoldable pub join : String → List String → String
join sep [] = ""
join sep (x ∷ []) = x
join sep (x ∷ y ∷ ys) = (x ++ sep) ++ join sep (y ∷ ys)

-- The unit separator, "\x1f".
abbrev pub separator : String
separator = "\u{1f}"

unfoldable pub canonical_principal : Principal → String → String
canonical_principal p timestamp =
    join separator (p.user_id ∷ p.doc_access ∷ join "," p.roles ∷ timestamp ∷ [])

-- `age < -maxPrincipalAge || age > maxPrincipalAge`, for the age of a timestamp in seconds.
unfoldable pub out_of_window : ℕ → ℤ → Bool
out_of_window now (pos s) =
    ltb (now + max_principal_age) (s * second) || ltb (s * second + max_principal_age) now
out_of_window now (negsuc s) = ltb max_principal_age (now + suc s * second)

-- `values[0]`, where there is one
unfoldable pub first_value : List String → Option String
first_value [] = none
first_value (v ∷ vs) = some v

module _ (platform : Platform) where
  open platform use {Md, empty, set, get, mac, format_int, parse_int}

  unfoldable pub sign_principal : String → Principal → String → String
  sign_principal key p timestamp = mac key (canonical_principal p timestamp)

  -- `md.Set(mdRoles, ...)`, which is made only for a list that is not empty.
  unfoldable pub set_roles : List String → Md → Md
  set_roles [] md = md
  set_roles (r ∷ rs) md = set md_roles (r ∷ rs) md

  -- The metadata of the outgoing context; `none` stands for a context without a principal, which is
  -- passed on as it is. A key is a text, empty where none is set.
  unfoldable pub outgoing_context : String → ℕ → Option Principal → Option Md
  unfolding set_roles
  outgoing_context key now none = none
  outgoing_context key now (some p) =
      let named = set md_doc_access (p.doc_access ∷ []) (set md_user (p.user_id ∷ []) empty) in
      let listed = set_roles p.roles named in
      let timestamp = format_int (now / second) in
      some (
        if key == ""
        then listed
        else set md_signature (sign_principal key p timestamp ∷ [])
            (set md_timestamp (timestamp ∷ []) listed))

  unfoldable pub first_of_md : Md → String → Option String
  unfolding first_value
  first_of_md md k = first_value (get md k)

  -- The last tests of `verifyIncoming`, on the timestamp that was read.
  unfoldable pub check_parsed : Principal → String → ℕ → String → String → Option ℤ → Bool
  check_parsed p key now timestamp signature none = false
  check_parsed p key now timestamp signature (some seconds) =
      if out_of_window now seconds then false else sign_principal key p timestamp == signature

  unfoldable pub check_signature : Principal → String → ℕ → Option String → Option String → Bool
  unfolding check_parsed
  check_signature p key now none signature = false
  check_signature p key now (some timestamp) none = false
  check_signature p key now (some timestamp) (some signature) =
      check_parsed p key now timestamp signature (parse_int timestamp)

  unfoldable pub verify_incoming : Md → Principal → String → ℕ → Bool
  unfolding check_signature
  verify_incoming md p key now =
      check_signature p key now (first_of_md md md_timestamp) (first_of_md md md_signature)

  -- The document access that the metadata names; public where it names none.
  unfoldable pub incoming_access : Option String → String
  incoming_access none = access_public
  incoming_access (some level) = if level == "" then access_public else level

  unfoldable pub principal_of : Md → String → Principal
  unfolding incoming_access
  principal_of md user = record {
    user_id = user;
    name = "";
    roles = get md md_roles;
    doc_access = incoming_access (first_of_md md md_doc_access);
  }

  unfoldable pub accept_user : String → ℕ → Md → Option String → Option Principal
  accept_user key now md none = none
  accept_user key now md (some user) =
      if user == ""
      then none
      else if not (key == "") && not (verify_incoming md (principal_of md user) key now)
      then none
      else some (principal_of md user)

  unfoldable pub principal_from_incoming : String → ℕ → Option Md → Option Principal
  unfolding accept_user
  principal_from_incoming key now none = none
  principal_from_incoming key now (some md) = accept_user key now md (first_of_md md md_user)
