-- ===== src/Witnesses/OfAuth.antt =====
-- Witnesses of the rules on roles, of the verifiers and of the signed principal.
use nornickel_hackathon.Prelude.{
  ℕ, zero, suc, String, false, ◌||◌, none, some, List, [], ◌∷◌, ◌==◌, if◌then◌else◌, ◌≡◌, ◌≢◌, refl,
  ap, ◌<◌, ◌^◌, ◌/◌, arith,
}
use nornickel_hackathon.Auth.{Principal, role_expert, role_admin, has_role, allowed, access_public}
use nornickel_hackathon.Witnesses.{unlike}
use nornickel_hackathon.Auth.Rules.{decision_allowed}
use nornickel_hackathon.Auth.Signed.{
  Platform, ℤ, pos, canonical_principal, outgoing_context, principal_from_incoming, first_of_md,
  out_of_window, md_timestamp, md_signature, md_user, md_roles, md_doc_access, verify_incoming,
  check_parsed, check_signature, sign_principal, join, first_value, accept_user, principal_of,
  incoming_access, second,
}
use nornickel_hackathon.Auth.Signed.Laws.{
  accepted-signed, signed_round_trip, unstated_access_refused,
}

abbrev partner : Principal
partner = record { user_id = "u1"; name = "Ann"; roles = "partner" ∷ []; doc_access = "public" }

abbrev expert : Principal
expert = record {
  user_id = "u2";
  name = "Bo";
  roles = "expert" ∷ "visitor" ∷ [];
  doc_access = "confidential";
}

decision_allowed_example :
    allowed "entity.merge" expert ≡ (has_role expert role_expert || has_role expert role_admin)
decision_allowed_example = decision_allowed "entity.merge" expert refl

-- Metadata as a function, a hash that joins the key and the text, and numbers in base one.
abbrev ones : ℕ → String
ones zero = String.[]
ones (suc n) = String.◌∷◌ "x" (ones n)

abbrev count_ones : String → ℕ
count_ones String.[] = 0
count_ones (String.◌∷◌ c s) = suc (count_ones s)

count-ones : (n : ℕ) → count_ones (ones n) ≡ n
count-ones zero = refl
count-ones (suc n) = ap suc (count-ones n)

abbrev small_platform : Platform
small_platform = record {
  Md = String → List String;
  empty = λ k. [];
  set = λ k v md j. if k == j then v else md j;
  get = λ md j. md j;
  mac = λ key text. Prim.Native.String.◌++◌ key text;
  format_int = ones;
  parse_int = λ s. some (pos (count_ones s));
}

parse-ones :
    (n : ℕ) → n < 2 ^ 63 → small_platform.parse_int (small_platform.format_int n) ≡ some (pos n)
parse-ones n h = ap (λ k. some (pos k)) (count-ones n)

signed_round_trip_example :
    principal_from_incoming small_platform "key" 5_000_000_000
      (outgoing_context small_platform "key" 3_000_000_000 (some expert))
    ≡ some (record expert { name = "" })
signed_round_trip_example =
    signed_round_trip small_platform (λ k j v vs md known known'. refl) (λ k known. refl) parse-ones
      "key" 3_000_000_000 5_000_000_000 expert (unlike "u2" "" refl) (unlike "confidential" "" refl)
      (omega arith) (omega arith) (omega arith)

abbrev sent_md : String → List String
sent_md j =
    if md_user == j
    then "u2" ∷ []
    else if md_roles == j
    then "expert" ∷ "visitor" ∷ []
    else if md_doc_access == j
    then "confidential" ∷ []
    else if md_signature == j
    then small_platform.mac "key" (canonical_principal expert (ones 3)) ∷ []
    else if md_timestamp == j
    then ones 3 ∷ []
    else []

sent_md-accepted :
    principal_from_incoming small_platform "key" 5_000_000_000 (some sent_md)
    ≡ some (record expert { name = "" })
unfolding principal_from_incoming verify_incoming check_parsed check_signature sign_principal
    canonical_principal join first_of_md first_value out_of_window accept_user principal_of
    incoming_access
sent_md-accepted = refl

accepted-signed_example :
    (text : String) × (s : ℤ) × (first_of_md small_platform sent_md md_timestamp ≡ some text)
    × (small_platform.parse_int text ≡ some s)
    × (out_of_window 5_000_000_000 s ≡ false)
    × (first_of_md small_platform sent_md md_signature
        ≡ some (small_platform.mac "key" (canonical_principal (record expert { name = "" }) text)))
    × (expert.user_id ≢ "")
accepted-signed_example =
    accepted-signed small_platform "key" 5_000_000_000 sent_md (record expert { name = "" })
      (unlike "key" "" refl) sent_md-accepted

abbrev silent : Principal
silent = record expert { doc_access = "" }

other_hash :
    small_platform.mac "key" (
      canonical_principal
        (record silent { doc_access = access_public })
        (small_platform.format_int (3_000_000_000 / second)))
    ≢ small_platform.mac "key"
        (canonical_principal silent (small_platform.format_int (3_000_000_000 / second)))
unfolding canonical_principal join
other_hash = unlike _ _ refl

unstated_access_refused_example :
    principal_from_incoming small_platform "key" 5_000_000_000
      (outgoing_context small_platform "key" 3_000_000_000 (some silent))
    ≡ none
unstated_access_refused_example =
    unstated_access_refused small_platform (λ k j v vs md known known'. refl) (λ k known. refl)
      parse-ones "key" 3_000_000_000 5_000_000_000 silent (unlike "key" "" refl)
      (unlike "u2" "" refl) refl (omega arith) other_hash
