-- ===== src/Catalog/Merge/Status.antt =====
-- The status of a document under the commits and the failures that reach it in any order.
use nornickel_hackathon.Prelude.{
  ℕ, String, Bool, true, false, ◌&&◌, ◌||◌, Option, none, some, List, [], ◌∷◌, All, ◌==◌, eq_iff,
  eq_self, if◌then◌else◌, Result, ok, err, ◌≡◌, refl, sym, ap, ◌∙◌, arith, Bool-cases, inl, inr,
  >>=-eq_ok, ok-injective,
}
use nornickel_hackathon.Events.{Envelope}
use nornickel_hackathon.Catalog.Store.{
  Step, StoreError, DocumentRow, FactRow, Tables, CommitCommand, Values, find_document, set_indexed,
  commit, commit_tx_body, settled,
}
use nornickel_hackathon.Catalog.Store.Commit.{body_Steps, settled_lem}
use nornickel_hackathon.Catalog.Merge.{
  MergeError, State, HistoryRow, run, begin_failed, rls_failed, document_failed, commit_failed,
  status_failed, history_failed, set_failed, failed_body, mark_document_failed, settle, fact_table,
  set_status, set_claim_status, status_body, update_fact_status,
}

-- The status of a document, where it has a row.
unfoldable pub status_of : String → List DocumentRow → Option String
status_of id [] = none
status_of id (d ∷ documents) = if d.id == id then some d.status else status_of id documents

unfoldable pub failed_status : Option String → Option String
failed_status none = none
failed_status (some status) =
    if status == "indexed" || status == "archived" then some status else some "failed"

unfoldable pub indexed_status : Option String → Option String
indexed_status none = none
indexed_status (some status) = some "indexed"

set_indexed_lem :
    (id other : String) (documents : List DocumentRow)
    → status_of other (set_indexed id documents) ≡ (
        if id == other
        then indexed_status (status_of other documents)
        else status_of other documents)
unfolding status_of set_indexed indexed_status
set_indexed_lem id other [] = ground arith
set_indexed_lem id other (d ∷ documents) =
    ground (
      arith,
      eq_iff d.id id,
      eq_iff d.id other,
      eq_iff id other,
      set_indexed_lem id other documents,
    )

find_status :
    (id : String) (documents : List DocumentRow) {d : DocumentRow}
    → find_document id documents ≡ some d
    → status_of id documents ≡ some d.status
unfolding find_document status_of
find_status id [] h = cc
find_status id (x ∷ documents) {d} h = elim (Bool-cases (x.id == id)) [
  | inl e ↦
      rw e (let m : ◌≡◌ {A = Option DocumentRow} (some x) (some d) = sym (rw e refl) ∙ h in cc)
  | inr e ↦ rw e (find_status id documents {d = d} (sym (rw e refl) ∙ h))
]

module _ {V : Type 0} (values : Values V) (visible : String → Bool)
    (fails : MergeError → Bool) where
  set_failed_lem :
      (id other : String) (documents : List DocumentRow)
      → status_of other (set_failed values visible fails id documents) ≡ (
          if id == other
          then failed_status (status_of other documents)
          else status_of other documents)
  unfolding status_of set_failed failed_status
  set_failed_lem id other [] = ground arith
  set_failed_lem id other (d ∷ documents) =
      ground (
        arith,
        eq_iff d.id id,
        eq_iff d.id other,
        eq_iff id other,
        set_failed_lem id other documents,
      )

  failed_lem :
      (id : String) (s s' : State V)
      → failed_body values visible fails id s ≡ ok s'
      → s'.tables.documents ≡ set_failed values visible fails id s.tables.documents
  unfolding failed_body
  failed_lem id s s' h =
      let (u1, g1, h1) = >>=-eq_ok (run values visible fails begin_failed) _ h in
      let (u2, g2, h2) = >>=-eq_ok (run values visible fails rls_failed) _ h1 in
      let (u3, g3, h3) = >>=-eq_ok (run values visible fails document_failed) _ h2 in
      let (u4, g4, h4) = >>=-eq_ok (run values visible fails commit_failed) _ h3 in
      sym (ap (λ (x : State V). x.tables.documents) (ok-injective h4))

  mark_keeps :
      (id other : String) (s : State V)
      → status_of other s.tables.documents ≡ some "indexed"
      → status_of other (mark_document_failed values visible fails id s).1.tables.documents
        ≡ some "indexed"
  unfolding mark_document_failed settle failed_status
  mark_keeps id other s h = go (failed_body values visible fails id s) refl
    where
      go :
          (r : Result MergeError (State V))
          → failed_body values visible fails id s ≡ r
          → status_of other (settle values visible fails s r).1.tables.documents ≡ some "indexed"
      go (err e) m = h
      go (ok s') m =
          ap (status_of other) (failed_lem id s s' m)
          ∙ set_failed_lem id other s.tables.documents
          ∙ kept (id == other) (status_of other s.tables.documents) h
        where
          kept :
              (b : Bool) (o : Option String)
              → o ≡ some "indexed"
              → (if b then failed_status o else o) ≡ some "indexed"
          kept true o k = rw k refl
          kept false o k = k

  module _ (breaks : Step → Bool) (encode : Envelope → List ℕ) (decode : List ℕ → Option Envelope)
      (parse_uuid : String → Option String) (trace : String) where
    commit_keeps :
        (cmd : CommitCommand V) (committed dirty : Envelope) (t : Tables V) (other : String)
        → status_of other t.documents ≡ some "indexed"
        → status_of other
            (commit values breaks encode decode parse_uuid trace cmd committed dirty t).1.documents
          ≡ some "indexed"
    unfolding commit settled indexed_status
    commit_keeps cmd committed dirty t other h =
        go (commit_tx_body values breaks encode decode parse_uuid trace cmd committed dirty t) refl
      where
        go :
            (r : Result StoreError (Tables V))
            → commit_tx_body values breaks encode decode parse_uuid trace cmd committed dirty t ≡ r
            → status_of other (settled values breaks encode decode parse_uuid trace t r).1.documents
              ≡ some "indexed"
        go (err e) m = h
        go (ok t') m =
            ap (status_of other)
              (body_Steps values breaks encode decode parse_uuid trace cmd committed dirty t t'
                m).indexed
            ∙ set_indexed_lem cmd.document_id other t.documents
            ∙ kept (cmd.document_id == other) (status_of other t.documents) h
          where
            kept :
                (b : Bool) (o : Option String)
                → o ≡ some "indexed"
                → (if b then indexed_status o else o) ≡ some "indexed"
            kept true o k = rw k refl
            kept false o k = k

    -- What can happen to the documents: a commit or a mark of failure, on tables with these documents.
    pub data Happens : List DocumentRow → List DocumentRow → Type 0 where
      commits :
          (cmd : CommitCommand V) (committed dirty : Envelope) (t : Tables V)
          → Happens t.documents
              (commit values breaks encode decode parse_uuid trace cmd committed dirty
                t).1.documents
      marks_failed :
          (id : String) (s : State V)
          → Happens s.tables.documents
              (mark_document_failed values visible fails id s).1.tables.documents

    pub data Run : List DocumentRow → List DocumentRow → Type 0 where
      done : (documents : List DocumentRow) → Run documents documents
      then_run : {a b c : List DocumentRow} → Happens a b → Run b c → Run a c

    happens_lem :
        (id : String) {a b : List DocumentRow}
        → Happens a b
        → status_of id a ≡ some "indexed"
        → status_of id b ≡ some "indexed"
    happens_lem id (commits cmd committed dirty t) h = commit_keeps cmd committed dirty t id h
    happens_lem id (marks_failed other s) h = mark_keeps other id s h

    run_lem :
        (id : String) {a b : List DocumentRow}
        → Run a b
        → status_of id a ≡ some "indexed"
        → status_of id b ≡ some "indexed"
    run_lem id (done documents) h = h
    run_lem id (then_run step rest) h = run_lem id rest (happens_lem id step h)

    -- A document whose commit has succeeded is indexed, and stays so whatever commits and marks of failure follow, in any order.
    pub commit_stays_indexed :
        (cmd : CommitCommand V) (committed dirty : Envelope) (t t' : Tables V)
        (documents : List DocumentRow)
        → commit values breaks encode decode parse_uuid trace cmd committed dirty t ≡ (ok tt, t')
        → Run t'.documents documents
        → status_of cmd.document_id documents ≡ some "indexed"
    unfolding commit indexed_status
    commit_stays_indexed cmd committed dirty t t' documents h r =
        let s =
          body_Steps values breaks encode decode parse_uuid trace cmd committed dirty t t' (
            settled_lem values breaks encode decode parse_uuid trace cmd committed dirty t _ t'
              h) in
        run_lem cmd.document_id r (
          ap (status_of cmd.document_id) s.indexed
          ∙ set_indexed_lem cmd.document_id cmd.document_id t.documents
          ∙ rw (eq_self cmd.document_id)
              (ap indexed_status (find_status cmd.document_id t.documents s.document_found)))

  unseen_facts :
      (id status : String) (facts : List (FactRow V))
      → All (λ (f : FactRow V). (visible f.document_id && f.id == id) ≡ false) facts
      → set_status values visible fails id status facts ≡ facts
  unfolding set_status
  unseen_facts id status [] a = refl
  unseen_facts id status (f ∷ facts) a =
      rw a.0 (ap (λ (fs : List (FactRow V)). f ∷ fs) (unseen_facts id status facts a.1))

  settle_ok :
      (s : State V) (r : Result MergeError (State V)) (s' : State V)
      → settle values visible fails s r ≡ (ok tt, s')
      → r ≡ ok s'
  unfolding settle
  settle_ok s (err e) s' h =
      let m : ◌≡◌ {A = Result MergeError (Unit {0})} (err e) (ok tt) =
        ap (λ (r : Result MergeError (Unit {0}) × State V). r.0) h in
      cc
  settle_ok s (ok x) s' h = ap (λ (r : Result MergeError (Unit {0}) × State V). ok r.1) h

  -- Where the kind names the table of facts and the session sees no fact with the identifier, a change of its status that succeeds
  -- writes no fact and no claim, and yet it adds to the history that the status was changed.
  pub unseen_status :
      (fact_id kind status actor comment : String) (s s' : State V)
      → All (λ (f : FactRow V). (visible f.document_id && f.id == fact_id) ≡ false) s.tables.facts
      → fact_table values visible fails kind ≡ ok true
      → update_fact_status values visible fails fact_id kind status actor comment s ≡ (ok tt, s')
      → (s'.tables.facts ≡ s.tables.facts)
        × (s'.claims ≡ s.claims)
        × ((entry : HistoryRow) × (entry.fact_id ≡ fact_id)
            × (entry.action ≡ "status_changed")
            × (s'.history ≡ entry ∷ s.history))
  unfolding update_fact_status status_body
  unseen_status fact_id kind status actor comment s s' a k h =
      let (numeric, g1, h1) =
        >>=-eq_ok (fact_table values visible fails kind) _ (settle_ok s _ s' h) in
      let (u2, g2, h2) = >>=-eq_ok (run values visible fails begin_failed) _ h1 in
      let (u3, g3, h3) = >>=-eq_ok (run values visible fails status_failed) _ h2 in
      let (u4, g4, h4) = >>=-eq_ok (run values visible fails history_failed) _ h3 in
      let (u5, g5, h5) = >>=-eq_ok (run values visible fails commit_failed) _ h4 in
      (
        sym (ap (λ (x : State V). x.tables.facts) (ok-injective h5))
            ∙ facts_same numeric (sym g1 ∙ k),
        sym (ap (λ (x : State V). x.claims) (ok-injective h5)) ∙ claims_same numeric (sym g1 ∙ k),
        (_, refl, refl, sym (ap (λ (x : State V). x.history) (ok-injective h5))),
      )
    where
      facts_same :
          (b : Bool)
          → ◌≡◌ {A = Result MergeError Bool} (ok b) (ok true)
          → (if b
              then record s.tables {
                facts = set_status values visible fails fact_id status s.tables.facts;
              }
              else s.tables).facts
            ≡ s.tables.facts
      facts_same true e = unseen_facts fact_id status s.tables.facts a
      facts_same false e = refl

      claims_same :
          (b : Bool)
          → ◌≡◌ {A = Result MergeError Bool} (ok b) (ok true)
          → (if b then s.claims else set_claim_status values visible fails fact_id status s.claims)
            ≡ s.claims
      claims_same true e = refl
      claims_same false e = cc
