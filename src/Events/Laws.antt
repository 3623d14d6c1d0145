-- ===== src/Events/Laws.antt =====
-- Subjects and envelopes: what the constructors promise to the validators.
use nornickel_hackathon.Prelude.{
  ℕ, String, Bool, true, false, ◌||◌, ap, subst, ok-injective, >>=-eq_ok, fail_if, Option, none,
  some, List, ◌≡◌, ◌≢◌, refl, arith, ltb, length, ◌==◌, if◌then◌else◌, contains, Result, ok, err,
  ◌>>=◌, eq_iff,
}
use Prim.Native.String.{◌++◌}
use text.Mathlib.Text.{starts_with}
use text.Mathlib.TextEquality.{starts_with_iff}
use text.Mathlib.TextLemmas.{prefix-append}
use nornickel_hackathon.Events.{
  known_types, source_required, unknown_type, checked_envelope, EventError, Envelope, Event, audit,
  dlq, validate_type, validate, new, marshal_data, checked_data, marshal_envelope,
  unmarshal_envelope, audit_prefix, dlq_prefix, is_audit, is_dlq, max_payload_bytes,
}

starts_with-append : (p s : String) → starts_with (p ++ s) p ≡ true
starts_with-append p s = (starts_with_iff (p ++ s) p).1 (prefix-append p s)

-- Every audit subject and every dead-letter subject is a valid event type, and is known as what it
-- is.
pub audit-dlq_valid :
    (action stage : String)
    → (validate_type (audit action) ≡ ok tt)
      × (validate_type (dlq stage) ≡ ok tt)
      × (is_audit (audit action) ≡ true)
      × (is_dlq (dlq stage) ≡ true)
unfolding validate_type audit dlq
audit-dlq_valid action stage =
    let a : is_audit (audit_prefix ++ action) ≡ true = starts_with-append audit_prefix action in
    let d : is_dlq (dlq_prefix ++ stage) ≡ true = starts_with-append dlq_prefix stage in
    (
      go (contains known_types (audit_prefix ++ action)) (is_audit (audit_prefix ++ action))
          (is_dlq (audit_prefix ++ action))
          (ap (λ (b : Bool). b || is_dlq (audit_prefix ++ action)) a),
      go (contains known_types (dlq_prefix ++ stage)) (is_audit (dlq_prefix ++ stage))
          (is_dlq (dlq_prefix ++ stage)) (ground (arith, d)),
      a,
      d,
    )
  where
    go :
        (b x y : Bool)
        → (x || y) ≡ true
        → ◌≡◌ {A = Result EventError (Unit {0})}
            (if b then ok tt else if x || y then ok tt else err unknown_type)
            (ok tt)
    go b x y h = ground arith

module _ {ℓ} {D : Type ℓ} (marshal : D → Option (List ℕ)) where
  data_lem :
      (d : Option D) (raw : List ℕ)
      → marshal_data marshal d ≡ ok raw
      → ltb max_payload_bytes (length raw) ≡ false
  unfolding marshal_data
  data_lem none raw h = ground arith
  data_lem (some d) raw h = go (marshal d) h
    where
      go :
          (o : Option (List ℕ))
          → checked_data marshal o ≡ ok raw
          → ltb max_payload_bytes (length raw) ≡ false
      go none h = ground arith
      go (some x) h = ground arith

-- An envelope that `New` builds passes `Validate`, given that the generated identifier is not empty
-- and the clock does not show the zero time.
pub new-validate {ℓ} :
    {D : Type ℓ} (marshal : D → Option (List ℕ)) (id : String) (now : ℕ) (event : Event D)
    {env : Envelope}
    → id ≢ ""
    → now ≢ 0
    → new marshal id now event ≡ ok env
    → validate env ≡ ok tt
unfolding new validate
new-validate marshal id now event {env} hid hnow h =
    let (u, typed, h1) = >>=-eq_ok (validate_type event.typ) _ h in
    let (v, sourced, h2) = >>=-eq_ok (fail_if (event.source == "") source_required) _ h1 in
    let (raw, marshaled, h3) = >>=-eq_ok (marshal_data marshal event.body) _ h2 in
    subst (λ e. validate e ≡ ok tt) (ok-injective h3)
      (ground (arith, typed, sourced, eq_iff id "", data_lem marshal event.body raw marshaled))

module _ (encode : Envelope → List ℕ) (decode : List ℕ → Option Envelope)
    (decode-encode : (env : Envelope) → decode (encode env) ≡ some env) where
  -- What `Marshal` writes, `Unmarshal` reads back, and `Marshal` writes just the envelopes that
  -- pass `Validate`.
  pub marshal_round_trip :
      (env : Envelope)
      → (marshal_envelope encode decode env >>= unmarshal_envelope encode decode)
        ≡ (validate env >>= λ u. ok env)
  unfolding marshal_envelope unmarshal_envelope
  marshal_round_trip env = go (validate env) refl
    where
      go :
          (r : Result EventError (Unit {0}))
          → validate env ≡ r
          → ((r >>= λ u. ok (encode env)) >>= λ raw. checked_envelope encode decode (decode raw))
            ≡ (r >>= λ u. ok env)
      go (ok u) e = rw decode-encode (rw e)
      go (err x) e = refl
