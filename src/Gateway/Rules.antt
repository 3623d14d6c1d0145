-- ===== src/Gateway/Rules.antt =====
-- The guard of a route: whose handler runs, and which changes are written to the audit log.
use nornickel_hackathon.Prelude.{
  ℕ, String, Bool, true, false, ◌&&◌, ◌||◌, not, Option, none, some, List, [], ◌∷◌, ◌++◌, leb, ltb,
  all, get_elem?, all-get_elem?, ◌==◌, if◌then◌else◌, lookup, Result, ok, err, ◌≡◌, ◌↔◌, refl, sym,
  ap, ◌∙◌, arith, Bool-cases, inl, inr,
}
use nornickel_hackathon.Auth.{Principal, allowed}
use nornickel_hackathon.Auth.Verifiers.{VerifyError}
use nornickel_hackathon.Events.{Envelope, EventError, is_empty}
use nornickel_hackathon.Gateway.{
  AuditMeta, audit_actions, Route, routes, Request, AuditRecord, Effect, problem, ran, published,
  wrote, Server, recorded, bearer_token, audit_data, publish_built, emit_audit_event, record_audit,
  after_handler, run_handler, after_verify, authorize, client_ip,
}

-- The principals whose handler ran.
abbrev pub runs : List Effect → List Principal
runs [] = []
runs (ran p ∷ effects) = p ∷ runs effects
runs (problem code ∷ effects) = runs effects
runs (published envelope ∷ effects) = runs effects
runs (wrote entry ∷ effects) = runs effects

-- The rows of the audit log.
abbrev pub rows : List Effect → List AuditRecord
rows [] = []
rows (wrote entry ∷ effects) = entry ∷ rows effects
rows (ran p ∷ effects) = rows effects
rows (problem code ∷ effects) = rows effects
rows (published envelope ∷ effects) = rows effects

module _ (server : Server) where
  open server use {verify, has_audit, audit_writes}

  publish_lem :
      (m : Result EventError Envelope) (more : List Effect)
      → (runs (publish_built server m ++ more) ≡ runs more)
        × (rows (publish_built server m ++ more) ≡ rows more)
  unfolding publish_built
  publish_lem (err e) more = (refl, refl)
  publish_lem (ok envelope) more = (refl, refl)

  emit_lem :
      (p : Principal) (meta : AuditMeta) (r : Request) (more : List Effect)
      → (runs (emit_audit_event server p meta r ++ more) ≡ runs more)
        × (rows (emit_audit_event server p meta r ++ more) ≡ rows more)
  unfolding emit_audit_event
  emit_lem p meta r more = elim (Bool-cases server.has_events) [
    | inl e ↦ rw e (publish_lem _ more)
    | inr e ↦ rw e (refl, refl)
  ]

  abbrev row_of : Principal → AuditMeta → Request → AuditRecord
  row_of p meta r = record {
    data_of = audit_data server p meta r;
    request_id = r.request_id;
    ip = client_ip server r.remote_addr;
  }

  record_lem :
      (p : Principal) (meta : AuditMeta) (r : Request)
      → (runs (if meta.persist then record_audit server p meta r else []) ≡ [])
        × (rows (if meta.persist then record_audit server p meta r else [])
            ≡ (if meta.persist && (has_audit && audit_writes) then row_of p meta r ∷ [] else []))
  unfolding record_audit
  record_lem p meta r = elim (Bool-cases meta.persist) [
    | inl e ↦ elim (Bool-cases (has_audit && audit_writes)) [
      | inl f ↦ rw e (rw f (refl, refl))
      | inr f ↦ rw e (rw f (refl, refl))
    ]
    | inr e ↦ rw e (refl, refl)
  ]

  after_lem :
      (p : Principal) (meta : AuditMeta) (r : Request) (status : ℕ)
      → (runs (after_handler server p meta r status) ≡ [])
        × (rows (after_handler server p meta r status) ≡ (
            if (leb 200 status && ltb status 300) && (meta.persist && (has_audit && audit_writes))
            then row_of p meta r ∷ []
            else []))
  unfolding after_handler
  after_lem p meta r status = elim (Bool-cases (leb 200 status && ltb status 300)) [
    | inl e ↦ rw e (
      (emit_lem p meta r _).0 ∙ (record_lem p meta r).0,
      (emit_lem p meta r _).1 ∙ (record_lem p meta r).1,
    )
    | inr e ↦ rw e (refl, refl)
  ]

  run_lem :
      (p : Principal) (r : Request) (next : Principal → List ℕ) (o : Option AuditMeta)
      → runs (run_handler server p r next o) ≡ p ∷ []
  unfolding run_handler
  run_lem p r next none = refl
  run_lem p r next (some meta) = ap (λ ps. p ∷ ps) (after_lem p meta r (recorded 200 (next p))).0

  verified_lem :
      (operation : String) (r : Request) (next : Principal → List ℕ)
      (v : Result VerifyError Principal) (p : Principal)
      → (runs (after_verify server operation r next v) ≡ p ∷ [])
        ↔ ((v ≡ ok p) × (allowed operation p ≡ true))
  unfolding after_verify
  verified_lem operation r next (err e) p = ((λ h. cc), (λ (h, k). cc))
  verified_lem operation r next (ok q) p = elim (Bool-cases (allowed operation q)) [
    | inl e ↦ rw e (
      (λ h.
          let same : q ≡ p =
            list_head (sym (run_lem q r next (lookup operation audit_actions)) ∙ h) in
          (ap ok same, ap (allowed operation) (sym same) ∙ e)),
      (λ (h, k).
          let same : q ≡ p = ok_value h in
          run_lem q r next (lookup operation audit_actions) ∙ ap (λ (x : Principal). x ∷ []) same),
    )
    | inr e ↦ rw e ((λ h. cc), (λ (h, k). let same : q ≡ p = ok_value h in cc))
  ]
    where
      list_head : {a b : Principal} → ◌≡◌ {A = List Principal} (a ∷ []) (b ∷ []) → a ≡ b
      list_head h = cc

      ok_value : {a b : Principal} → ◌≡◌ {A = Result VerifyError Principal} (ok a) (ok b) → a ≡ b
      ok_value h = cc

  -- The handler of a route runs, once and as a principal, exactly where the request has a bearer
  -- token, the verifier takes the token for that principal, and the operation is allowed to it.
  pub authorize-runs :
      (operation : String) (r : Request) (next : Principal → List ℕ) (p : Principal)
      → (runs (authorize server operation r next) ≡ p ∷ []) ↔ (
          (is_empty (bearer_token server r.authorization) ≡ false)
          × (verify (bearer_token server r.authorization) ≡ ok p)
          × (allowed operation p ≡ true))
  unfolding authorize
  authorize-runs operation r next p =
      elim (Bool-cases (is_empty (bearer_token server r.authorization))) [
        | inl e ↦ rw e ((λ h. cc), (λ h. let none_there = h.0 in cc))
        | inr e ↦ rw e (
          (λ h.
              let (v, k) =
                (verified_lem operation r next (verify (bearer_token server r.authorization)) p).0
                  h in
              (refl, v, k)),
          (λ (t, v, k).
              (verified_lem operation r next (verify (bearer_token server r.authorization)) p).1
                (v, k)),
        )
      ]

  -- The routes that change data, and whether the operation of each is one that the log keeps.
  kept : Option AuditMeta → Bool
  kept none = false
  kept (some meta) = meta.persist

  table_kept :
      all
        (λ route.
          not route.post
          || route.operation == "ask"
          || route.operation == "search"
          || kept (lookup route.operation audit_actions))
        routes
      ≡ true
  unfolding kept
  table_kept = refl

  kept_lem :
      (o : Option AuditMeta)
      → kept o ≡ true
      → (meta : AuditMeta) × (o ≡ some meta) × (meta.persist ≡ true)
  unfolding kept
  kept_lem none h = ground arith
  kept_lem (some meta) h = (meta, refl, h)

  -- A request to a route that posts, asking and searching apart, whose handler runs as a principal
  -- leaves in the audit log exactly one row if the handler's last status is from 200 to 299 and there is a log
  -- that takes it, and none otherwise; the row has the principal as its actor and the object of the request.
  pub changes_audited :
      (i : ℕ) (route : Route) (r : Request) (next : Principal → List ℕ) (p : Principal)
      → get_elem? routes i ≡ some route
      → route.post ≡ true
      → (route.operation == "ask" || route.operation == "search") ≡ false
      → runs (authorize server route.operation r next) ≡ p ∷ []
      → (entry : AuditRecord) × (entry.data_of.actor_id ≡ p.user_id)
        × (entry.data_of.object_id ≡ r.object_id)
        × (rows (authorize server route.operation r next) ≡ (
            if (leb 200 (recorded 200 (next p)) && ltb (recorded 200 (next p)) 300)
              && (has_audit && audit_writes)
            then entry ∷ []
            else []))
  unfolding authorize after_verify run_handler
  changes_audited i route r next p found posts changes h =
      let (token, verified, permitted) = (authorize-runs route.operation r next p).0 h in
      let (meta, known, persists) = kept_lem (lookup route.operation audit_actions) (
        ground (
          arith,
          all-get_elem?
              (λ (x : Route).
                not x.post
                || x.operation == "ask"
                || x.operation == "search"
                || kept (lookup x.operation audit_actions))
              routes i {x = route} table_kept found,
        )) in
      (
        row_of p meta r,
        refl,
        refl,
        rw token (
            rw verified (
              rw permitted
                (rw known ((after_lem p meta r (recorded 200 (next p))).1 ∙ rw persists refl)))),
      )
