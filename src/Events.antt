-- ===== src/Events.antt =====
-- internal/platform/events: the subjects of events (subjects.go) and the envelope that carries one
-- (envelope.go). The data of an envelope are taken for valid JSON, so that its encoding does not fail.
pub mod Laws
pub mod Bus
use nornickel_hackathon.Prelude.{
  ℕ, ◌*◌, String, Bool, true, false, ◌||◌, ◌&&◌, not, fail_if, Option, none, some, List, [], ◌∷◌,
  ltb, nat_eq, length, ◌==◌, if◌then◌else◌, contains, Result, ok, err, ◌>>=◌, ◌>>◌,
}
use Prim.Native.String.{◌++◌}
use text.Mathlib.Text.{starts_with}

pub data EventError : Type 0 where
  unknown_type unsupported_specversion id_required source_required time_required : EventError
  payload_too_large content_type_required bad_data bad_envelope : EventError

abbrev pub document_registered : String
document_registered = "kmap.doc.v1.registered"

abbrev pub document_extracted : String
document_extracted = "kmap.doc.v1.extracted"

abbrev pub document_parse_failed : String
document_parse_failed = "kmap.doc.v1.parse-failed"

abbrev pub facts_committed : String
facts_committed = "kmap.facts.v1.committed"

abbrev pub epistemic_cluster_dirty : String
epistemic_cluster_dirty = "kmap.epistemic.v1.cluster-dirty"

abbrev pub epistemic_updated : String
epistemic_updated = "kmap.epistemic.v1.updated"

abbrev pub known_types : List String
known_types =
    document_registered ∷ "kmap.doc.v1.parsed" ∷ document_parse_failed ∷ document_extracted
    ∷ facts_committed ∷ epistemic_cluster_dirty ∷ epistemic_updated ∷ []

abbrev pub audit_prefix : String
audit_prefix = "kmap.audit.v1."

abbrev pub dlq_prefix : String
dlq_prefix = "kmap.dlq."

unfoldable pub audit : String → String
audit action = audit_prefix ++ action

unfoldable pub dlq : String → String
dlq stage = dlq_prefix ++ stage

unfoldable pub is_audit : String → Bool
is_audit typ = starts_with typ audit_prefix

unfoldable pub is_dlq : String → Bool
is_dlq typ = starts_with typ dlq_prefix

unfoldable pub validate_type : String → Result EventError (Unit {0})
unfolding is_audit is_dlq
validate_type typ =
    if contains known_types typ
    then ok tt
    else if is_audit typ || is_dlq typ
    then ok tt
    else err unknown_type

abbrev pub spec_version : String
spec_version = "1.0"

abbrev pub content_type : String
content_type = "application/json"

abbrev pub max_payload_bytes : ℕ
max_payload_bytes = 256 * 1024

-- `time` counts from Go's zero time, so 0 is the instant for which `IsZero` holds; `body` is `Data`.
pub record Envelope : Type 0 where
  pub specversion : String
  pub id : String
  pub source : String
  pub typ : String
  pub subject : String
  pub time : ℕ
  pub data_content_type : String
  pub body : List ℕ

pub record Event {ℓ} (D : Type ℓ) : Type ℓ where
  pub typ : String
  pub source : String
  pub subject : String
  pub body : Option D

abbrev pub is_empty : List ℕ → Bool
is_empty [] = true
is_empty (x ∷ xs) = false

unfoldable pub validate : Envelope → Result EventError (Unit {0})
validate env = do
  fail_if (not (env.specversion == spec_version)) unsupported_specversion
  fail_if (env.id == "") id_required
  fail_if (env.source == "") source_required
  fail_if (nat_eq env.time 0) time_required
  validate_type env.typ
  fail_if (ltb max_payload_bytes (length env.body)) payload_too_large
  fail_if (not (is_empty env.body) && env.data_content_type == "") content_type_required

-- json.Marshal on the data is the argument `marshal`; `none` is its error.
module _ {ℓ} {D : Type ℓ} (marshal : D → Option (List ℕ)) where
  unfoldable pub checked_data : Option (List ℕ) → Result EventError (List ℕ)
  checked_data none = err bad_data
  checked_data (some raw) =
      if ltb max_payload_bytes (length raw) then err payload_too_large else ok raw

  unfoldable pub marshal_data : Option D → Result EventError (List ℕ)
  unfolding checked_data
  marshal_data none = ok []
  marshal_data (some d) = checked_data (marshal d)

  -- `id` and `now` are what `newID` and the clock give.
  unfoldable pub new : String → ℕ → Event D → Result EventError Envelope
  new id now event = do
    validate_type event.typ
    fail_if (event.source == "") source_required
    raw ← marshal_data event.body
    ok (record {
      specversion = spec_version;
      id = id;
      source = event.source;
      typ = event.typ;
      subject = event.subject;
      time = now;
      data_content_type = content_type;
      body = raw;
    })

-- The JSON text of an envelope is a parameter: `encode` and `decode`, whose `none` is an error.
module _ (encode : Envelope → List ℕ) (decode : List ℕ → Option Envelope) where
  unfoldable pub marshal_envelope : Envelope → Result EventError (List ℕ)
  marshal_envelope env = do validate env; ok (encode env)

  unfoldable pub checked_envelope : Option Envelope → Result EventError Envelope
  checked_envelope none = err bad_envelope
  checked_envelope (some env) = do validate env; ok env

  unfoldable pub unmarshal_envelope : List ℕ → Result EventError Envelope
  unfolding checked_envelope
  unmarshal_envelope raw = checked_envelope (decode raw)
