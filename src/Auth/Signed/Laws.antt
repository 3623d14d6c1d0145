-- ===== src/Auth/Signed/Laws.antt =====
-- What the signed metadata guarantees to the receiver.
use nornickel_hackathon.Prelude.{
  ℕ, ◌+◌, ◌/◌, ◌^◌, ◌<◌, ◌≤◌, String, true, false, Option, none, some, List, [], ◌∷◌, ◌≡◌, ◌≢◌,
  refl, arith, contains, eq_iff, ◌==◌, if◌then◌else◌, Bool-cases, inl, inr, ◌⊎◌, ap, ◌∙◌,
}
use nornickel_hackathon.Auth.{Principal, access_public}
use nornickel_hackathon.Auth.Signed.{
  Platform, ℤ, pos, md_user, md_roles, md_doc_access, md_signature, md_timestamp, second,
  max_principal_age, canonical_principal, sign_principal, set_roles, outgoing_context, first_of_md,
  check_signature, check_parsed, first_value, verify_incoming, principal_of, accept_user,
  principal_from_incoming, out_of_window,
}

abbrev pub md_keys : List String
md_keys = md_user ∷ md_roles ∷ md_doc_access ∷ md_signature ∷ md_timestamp ∷ []

in_window :
    (sent received : ℕ)
    → received + second ≤ sent + max_principal_age
    → sent ≤ received + max_principal_age
    → out_of_window received (pos (sent / second)) ≡ false
unfolding out_of_window
in_window sent received early late = ground arith

module _ (platform : Platform) where
  open platform use {Md, empty, set, get, mac, format_int, parse_int}

  first_lem : (md : Md) (k v : String) → get md k ≡ v ∷ [] → first_of_md platform md k ≡ some v
  unfolding first_of_md
  first_lem md k v h = ap first_value h

  checked_signed :
      (p : Principal) (key : String) (now : ℕ) (t sig : Option String)
      → check_signature platform p key now t sig ≡ true
      → (text : String) × (s : ℤ) × (t ≡ some text)
        × (parse_int text ≡ some s)
        × (out_of_window now s ≡ false)
        × (sig ≡ some (mac key (canonical_principal p text)))
  unfolding check_signature sign_principal
  checked_signed p key now none sig h = ground arith
  checked_signed p key now (some t) none h = ground arith
  checked_signed p key now (some t) (some sig) h = go (parse_int t) refl h
    where
      go :
          (o : Option ℤ)
          → parse_int t ≡ o
          → check_parsed platform p key now t sig o ≡ true
          → (text : String) × (s : ℤ) × (◌≡◌ {A = Option String} (some t) (some text))
            × (parse_int text ≡ some s)
            × (out_of_window now s ≡ false)
            × (◌≡◌ {A = Option String} (some sig) (some (mac key (canonical_principal p text))))
      go none e h = ground arith
      go (some s) e h = (
        t,
        s,
        refl,
        e,
        ground arith,
        ground (arith, eq_iff (mac key (canonical_principal p t)) sig),
      )

  accepted_user :
      (key : String) (now : ℕ) (md : Md) (p : Principal) (user : Option String)
      → key ≢ ""
      → accept_user platform key now md user ≡ some p
      → (p.user_id ≢ "") × (verify_incoming platform md p key now ≡ true)
  unfolding accept_user principal_of
  accepted_user key now md p none set_key h = ground arith
  accepted_user key now md p (some user) set_key h =
      let same : principal_of platform md user ≡ p = ground arith in
      (ground (arith, eq_iff user ""), rw (← same) (ground (arith, eq_iff key "")))

  -- With a key set, a principal that is accepted from the metadata `md` has a user name, and the
  -- metadata has a timestamp inside the window and the keyed hash of just this principal and that
  -- timestamp.
  pub accepted-signed :
      (key : String) (now : ℕ) (md : Md) (p : Principal)
      → key ≢ ""
      → principal_from_incoming platform key now (some md) ≡ some p
      → (text : String) × (s : ℤ) × (first_of_md platform md md_timestamp ≡ some text)
        × (parse_int text ≡ some s)
        × (out_of_window now s ≡ false)
        × (first_of_md platform md md_signature ≡ some (mac key (canonical_principal p text)))
        × (p.user_id ≢ "")
  unfolding principal_from_incoming verify_incoming
  accepted-signed key now md p set_key h =
      let (named, valid) = accepted_user key now md p (first_of_md platform md md_user) set_key h in
      let (text, s, a, b, c, d) =
        checked_signed p key now (first_of_md platform md md_timestamp)
          (first_of_md platform md md_signature) valid in
      (text, s, a, b, c, d, named)

  accept_lem :
      (key : String) (now : ℕ) (md : Md) (p : Principal)
      → p.user_id ≢ ""
      → p.doc_access ≢ ""
      → first_of_md platform md md_user ≡ some p.user_id
      → get md md_roles ≡ p.roles
      → first_of_md platform md md_doc_access ≡ some p.doc_access
      → ((key == "") ≡ true) ⊎ (verify_incoming platform md (record p { name = "" }) key now ≡ true)
      → principal_from_incoming platform key now (some md) ≡ some (record p { name = "" })
  unfolding principal_from_incoming accept_user principal_of
  accept_lem key now md p hu ha user roles access valid =
      let same : principal_of platform md p.user_id ≡ record p { name = "" } =
        rw (roles, access) (ground (arith, eq_iff p.doc_access "")) in
      rw user (ground (arith, same, eq_iff p.user_id ""))

  -- The laws of the metadata are asked for these keys, which are in lower case, and for lists of
  -- values that are not empty.
  module _
      (get-set : (k j v : String) (vs : List String) (md : Md)
        → contains md_keys k ≡ true
        → contains md_keys j ≡ true
        → get (set k (v ∷ vs) md) j ≡ (if k == j then v ∷ vs else get md j))
      (get-empty : (k : String) → contains md_keys k ≡ true → get empty k ≡ [])
      (parse-format : (n : ℕ) → n < 2 ^ 63 → parse_int (format_int n) ≡ some (pos n)) where
    abbrev named : Principal → Md
    named p = set md_doc_access (p.doc_access ∷ []) (set md_user (p.user_id ∷ []) empty)

    get-listed :
        (p : Principal) (roles : List String)
        → (get (set_roles platform roles (named p)) md_user ≡ p.user_id ∷ [])
          × (get (set_roles platform roles (named p)) md_roles ≡ roles)
          × (get (set_roles platform roles (named p)) md_doc_access ≡ p.doc_access ∷ [])
    unfolding set_roles
    get-listed p [] = (simp get-set, simp (get-set, get-empty), simp get-set)
    get-listed p (r ∷ rs) = (simp get-set, simp get-set, simp get-set)

    abbrev stamped : String → ℕ → Principal → Md
    stamped key sent p =
        set md_signature (sign_principal platform key p (format_int (sent / second)) ∷ []) (
          set md_timestamp (format_int (sent / second) ∷ []) (set_roles platform p.roles (named p)))

    stamped_valid :
        (key : String) (sent received : ℕ) (p : Principal)
        → sent / second < 2 ^ 63
        → received + second ≤ sent + max_principal_age
        → sent ≤ received + max_principal_age
        → verify_incoming platform (stamped key sent p) (record p { name = "" }) key received ≡ true
    unfolding verify_incoming first_of_md sign_principal canonical_principal out_of_window
    stamped_valid key sent received p bound early late =
        let t : String = format_int (sent / second) in
        let at_time : first_of_md platform (stamped key sent p) md_timestamp ≡ some t =
          first_lem (stamped key sent p) md_timestamp t (simp get-set) in
        let at_sig : first_of_md platform (stamped key sent p) md_signature
            ≡ some (sign_principal platform key p t) =
          first_lem (stamped key sent p) md_signature (sign_principal platform key p t)
            (simp get-set) in
        rw (at_time, at_sig, check_signature, parse-format (sent / second) bound)
          (ground (
            arith,
            in_window sent received early late,
            eq_iff (mac key (canonical_principal p t)) (mac key (canonical_principal p t)),
            same_canonical t,
          ))
      where
        same_canonical :
            (t : String) → canonical_principal (record p { name = "" }) t ≡ canonical_principal p t
        same_canonical t = refl

    -- Where the metadata keep the values of the program's keys and a printed timestamp is read back: a principal with a user name and a document access arrives as it was sent, but for its
    -- display name, if both sides have the same key, the sender's clock is before 2 ^ 63 seconds and the clocks differ by less than the window (on the receiver's side, less one second for the rounding of the timestamp).
    pub signed_round_trip :
        (key : String) (sent received : ℕ) (p : Principal)
        → p.user_id ≢ ""
        → p.doc_access ≢ ""
        → sent / second < 2 ^ 63
        → received + second ≤ sent + max_principal_age
        → sent ≤ received + max_principal_age
        → principal_from_incoming platform key received
            (outgoing_context platform key sent (some p))
          ≡ some (record p { name = "" })
    unfolding outgoing_context first_of_md
    signed_round_trip key sent received p hu ha bound early late =
        let (user, roles, access) = get-listed p p.roles in
        elim (Bool-cases (key == "")) [
          | inl e ↦ rw e (
              accept_lem key received (set_roles platform p.roles (named p)) p hu ha
                (first_lem (set_roles platform p.roles (named p)) md_user p.user_id user) roles
                (first_lem (set_roles platform p.roles (named p)) md_doc_access p.doc_access access)
                (inl e))
          | inr e ↦ rw e (
              accept_lem key received (stamped key sent p) p hu ha
                (first_lem (stamped key sent p) md_user p.user_id (simp get-set user))
                (simp get-set roles)
                (first_lem (stamped key sent p) md_doc_access p.doc_access (simp get-set access))
                (inr (stamped_valid key sent received p bound early late)))
        ]

    arrived :
        (key : String) (sent : ℕ) (p : Principal)
        → p.doc_access ≡ ""
        → principal_of platform (stamped key sent p) p.user_id
          ≡ record p { name = ""; doc_access = access_public }
    unfolding principal_of
    arrived key sent p ha =
        let (user, roles, access) = get-listed p p.roles in
        let stated : first_of_md platform (stamped key sent p) md_doc_access ≡ some "" =
          first_lem (stamped key sent p) md_doc_access ""
            (simp get-set (access ∙ ap (λ (d : String). d ∷ []) ha)) in
        rw stated (simp get-set (rw roles))

    access_refused :
        (key : String) (sent received : ℕ) (p : Principal)
        → p.doc_access ≡ ""
        → sent / second < 2 ^ 63
        → mac key (
            canonical_principal
              (record p { doc_access = access_public })
              (format_int (sent / second)))
          ≢ mac key (canonical_principal p (format_int (sent / second)))
        → verify_incoming platform
            (stamped key sent p)
            (principal_of platform (stamped key sent p) p.user_id)
            key
            received
          ≡ false
    unfolding verify_incoming sign_principal canonical_principal
    access_refused key sent received p ha bound differ =
        let t : String = format_int (sent / second) in
        let at_time : first_of_md platform (stamped key sent p) md_timestamp ≡ some t =
          first_lem (stamped key sent p) md_timestamp t (simp get-set) in
        let at_sig : first_of_md platform (stamped key sent p) md_signature
            ≡ some (sign_principal platform key p t) =
          first_lem (stamped key sent p) md_signature (sign_principal platform key p t)
            (simp get-set) in
        rw (arrived key sent p ha) (
          rw (at_time, at_sig, check_signature, parse-format (sent / second) bound)
            (ground (
              arith,
              eq_iff (mac key (canonical_principal (record p { doc_access = access_public }) t))
                  (mac key (canonical_principal p t)),
            )))

    -- Where the metadata keep the values of the program's keys and a printed timestamp is read back: a principal whose document access is empty is refused: the receiver reads the empty access as
    -- public, and the hash that it expects is of that. This needs a key, a user name, and a keyed hash that tells the two texts
    -- apart.
    pub unstated_access_refused :
        (key : String) (sent received : ℕ) (p : Principal)
        → key ≢ ""
        → p.user_id ≢ ""
        → p.doc_access ≡ ""
        → sent / second < 2 ^ 63
        → mac key (
            canonical_principal
              (record p { doc_access = access_public })
              (format_int (sent / second)))
          ≢ mac key (canonical_principal p (format_int (sent / second)))
        → principal_from_incoming platform key received
            (outgoing_context platform key sent (some p))
          ≡ none
    unfolding outgoing_context principal_from_incoming accept_user
    unstated_access_refused key sent received p hk hu ha bound differ =
        let (user, roles, access) = get-listed p p.roles in
        let keyed : (key == "") ≡ false = ground (arith, eq_iff key "") in
        rw keyed (
          rw (first_lem (stamped key sent p) md_user p.user_id (simp get-set user)) (
            ground (
              arith,
              eq_iff p.user_id "",
              keyed,
              access_refused key sent received p ha bound differ,
            )))
