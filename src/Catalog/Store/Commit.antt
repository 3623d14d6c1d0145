-- ===== src/Catalog/Store/Commit.antt =====
-- The commit of a document: what its tables keep, and which entities its facts are stored with.
use nornickel_hackathon.Prelude.{
  ℕ, String, Bool, true, false, Option, none, some, List, [], ◌∷◌, any, NoRepeats, All,
  if◌then◌else◌, Assoc, Result, ok, err, >>=-eq_ok, ok-injective, ◌≡◌, ◌⊎◌, refl, ap, subst, inl,
  inr,
}
use nornickel_hackathon.Catalog.Store.Slugs.{HasIds, Placed, insert_entities_lem}
use nornickel_hackathon.Catalog.Store.Unique.{HasSlugs, Keeps, Stored, entities_unique}
use nornickel_hackathon.Events.{Envelope}
use nornickel_hackathon.Outbox.{Row}
use nornickel_hackathon.Catalog.Resolve.{Entity, NumericFact, ids_of}
use nornickel_hackathon.Catalog.Store.{
  write_fact, Step, StoreError, failed_at, DocumentRow, ChunkRow, FactRow, Tables, CommitCommand,
  Values, find_document, set_indexed, insert_entities, insert_chunks, fact_row, conflicts, refers,
  insert_fact, insert_facts, found_document, step, append_event, begin_tx, set_rls, take_lock,
  read_document, write_edges, write_status, append_committed, append_dirty, commit_tx,
  commit_tx_body, settled, commit,
}

-- A list has an element.
abbrev pub In : {A : Type 0} → A → List A → Type 0
In x [] = ⊥
In x (y ∷ ys) = (y ≡ x) ⊎ In x ys

-- What holds of each element that a list has, holds of the list.
pub All-In : {A : Type 0} (P : A → Type 0) (xs : List A) → ((x : A) → In x xs → P x) → All P xs
All-In P [] h = tt
All-In P (y ∷ ys) h = (h y (inl refl), All-In P ys (λ x m. h x (inr m)))

module _ {V : Type 0} (values : Values V) (fails : Step → Bool) where
  module _ (document : DocumentRow) (remap : Assoc String) (entities : List Entity)
      (chunks : List ChunkRow) (P : FactRow V → Type 0) where
    abbrev pub Accepted : NumericFact V → Type 0
    Accepted f =
        refers values fails entities chunks (fact_row values fails document remap f) ≡ true
        → P (fact_row values fails document remap f)

    fact_lem :
        (f : NumericFact V) (old facts : List (FactRow V))
        → All P old
        → Accepted f
        → insert_fact values fails entities chunks (fact_row values fails document remap f) old
          ≡ ok facts
        → All P facts
    unfolding insert_fact fact_row
    fact_lem f old facts h a e =
        go (fails (write_fact f.id))
          (any (conflicts values fails (fact_row values fails document remap f)) old)
          (refers values fails entities chunks (fact_row values fails document remap f)) refl e
      where
        go :
            (b c r : Bool)
            → refers values fails entities chunks (fact_row values fails document remap f) ≡ r
            → (if b
                then err (failed_at (write_fact f.id))
                else if c
                then ok old
                else if r
                then ok (fact_row values fails document remap f ∷ old)
                else err (failed_at (write_fact f.id)))
              ≡ ok facts
            → All P facts
        go true c r m e = cc
        go false true r m e = subst (All P) (ok-injective e) h
        go false false true m e = subst (All P) (ok-injective e) (a m, h)
        go false false false m e = cc

    pub facts_lem :
        (new : List (NumericFact V)) (old facts : List (FactRow V))
        → All P old
        → All Accepted new
        → insert_facts values fails document remap entities chunks new old ≡ ok facts
        → All P facts
    unfolding insert_facts
    facts_lem [] old facts h a e = subst (All P) (ok-injective e) h
    facts_lem (f ∷ new) old facts h a e =
        let (old', g, e1) =
          >>=-eq_ok
            (insert_fact values fails entities chunks (fact_row values fails document remap f) old)
            _ e in
        facts_lem new old' facts (fact_lem f old old' h a.0 g) a.1 e1

  module _ (encode : Envelope → List ℕ) (decode : List ℕ → Option Envelope)
      (parse_uuid : String → Option String) (trace : String) (cmd : CommitCommand V)
      (committed cluster_dirty : Envelope) (t : Tables V) where
    -- What a transaction that comes to its end has computed.
    pub record Steps (t' : Tables V) : Type 0 where
      pub document : DocumentRow
      pub remap : Assoc String
      pub document_found : find_document cmd.document_id t.documents ≡ some document
      pub entities_made :
          insert_entities fails cmd.new_entities [] t.entities t.aliases
          ≡ ok (remap, t'.entities, t'.aliases)
      pub chunks_made :
          insert_chunks fails document.id cmd.version cmd.chunks t.chunks ≡ ok t'.chunks
      pub facts_made :
          insert_facts values fails document remap t'.entities t'.chunks cmd.facts t.facts
          ≡ ok t'.facts
      pub events_made :
          (rows : List Row) × (append_event values fails encode decode parse_uuid trace
              append_committed "facts" cmd.document_id committed t.outbox
            ≡ ok rows)
          × (append_event values fails encode decode parse_uuid trace append_dirty "cluster"
                cmd.document_id cluster_dirty rows
              ≡ ok t'.outbox)
      pub indexed : t'.documents ≡ set_indexed cmd.document_id t.documents

    found_lem :
        (o : Option DocumentRow) {d : DocumentRow}
        → found_document values fails o ≡ ok d
        → o ≡ some d
    unfolding found_document
    found_lem none h = cc
    found_lem (some d) h = cc

    pub body_Steps :
        (t' : Tables V)
        → commit_tx_body values fails encode decode parse_uuid trace cmd committed cluster_dirty t
          ≡ ok t'
        → Steps t'
    unfolding commit_tx_body
    body_Steps t' h =
        let (u1, g1, h1) = >>=-eq_ok (step values fails begin_tx) _ h in
        let (u2, g2, h2) = >>=-eq_ok (step values fails set_rls) _ h1 in
        let (u3, g3, h3) = >>=-eq_ok (step values fails take_lock) _ h2 in
        let (u4, g4, h4) = >>=-eq_ok (step values fails read_document) _ h3 in
        let (document, gd, h5) =
          >>=-eq_ok (found_document values fails (find_document cmd.document_id t.documents)) _
            h4 in
        let ((remap, entities, aliases), gm, h6) =
          >>=-eq_ok (insert_entities fails cmd.new_entities [] t.entities t.aliases) _ h5 in
        let (chunks, gc, h7) =
          >>=-eq_ok (insert_chunks fails document.id cmd.version cmd.chunks t.chunks) _ h6 in
        let (facts, gf, h8) =
          >>=-eq_ok (insert_facts values fails document remap entities chunks cmd.facts t.facts) _
            h7 in
        let (u5, g5, h9) = >>=-eq_ok (step values fails write_edges) _ h8 in
        let (u6, g6, h10) = >>=-eq_ok (step values fails write_status) _ h9 in
        let (rows, gr, h11) =
          >>=-eq_ok
            (append_event values fails encode decode parse_uuid trace append_committed "facts"
              cmd.document_id committed t.outbox)
            _ h10 in
        let (rows', gs, h12) =
          >>=-eq_ok
            (append_event values fails encode decode parse_uuid trace append_dirty "cluster"
              cmd.document_id cluster_dirty rows)
            _ h11 in
        let (u7, g7, h13) = >>=-eq_ok (step values fails commit_tx) _ h12 in
        subst Steps (ok-injective h13) (record {
          document = document;
          remap = remap;
          document_found = found_lem _ gd;
          entities_made = gm;
          chunks_made = gc;
          facts_made = gf;
          events_made = (rows, gr, gs);
          indexed = refl;
        })

    -- The row of a fact is an old one, or it is made from a fact of the command with its references replaced.
    abbrev pub IsMade : DocumentRow → Assoc String → FactRow V → Type 0
    IsMade document remap row =
        In row t.facts
        ⊎ ((f : NumericFact V) × In f cmd.facts × (row ≡ fact_row values fails document remap f))

    pub settled_lem :
        (r : Result StoreError (Tables V)) (t' : Tables V)
        → settled values fails encode decode parse_uuid trace t r ≡ (ok tt, t')
        → r ≡ ok t'
    unfolding settled
    settled_lem (err e) t' h =
        let m : ◌≡◌ {A = Result StoreError (Unit {0})} (err e) (ok tt) =
          ap (λ (r : Result StoreError (Unit {0}) × Tables V). r.0) h in
        cc
    settled_lem (ok x) t' h = ap (λ (r : Result StoreError (Unit {0}) × Tables V). ok r.1) h

    -- Where the identifiers and the slugs of the entities are unique, and no new entity repeats the identifier of another,
    -- a commit that succeeds keeps the slugs unique and the row of each slug that had one, and stores each new entity as the row
    -- with its slug: the identifier that the facts are given in place of the entity's own is the one of that row, so it is
    -- the identifier of the earlier row where the slug had one. Every fact that the table then has was there before, or
    -- is a fact of the command with its subject and parameter replaced in this way.
    pub commit_places :
        (t' : Tables V)
        → HasIds t.entities
        → HasSlugs t.entities
        → NoRepeats (ids_of cmd.new_entities)
        → commit values fails encode decode parse_uuid trace cmd committed cluster_dirty t
          ≡ (ok tt, t')
        → (document : DocumentRow) × (remap : Assoc String) × (find_document cmd.document_id
              t.documents
            ≡ some document)
          × HasSlugs t'.entities
          × Keeps t.entities t'.entities
          × Placed remap t'.entities cmd.new_entities
          × Stored remap t'.entities cmd.new_entities
          × All (IsMade document remap) t'.facts
    unfolding commit
    commit_places t' k u n h =
        let s = body_Steps t' (settled_lem _ t' h) in
        let (unique, keeps, stored) =
          entities_unique fails cmd.new_entities [] t.entities t.aliases k u n (λ id m. refl)
            s.entities_made in
        (
          s.document,
          s.remap,
          s.document_found,
          unique,
          keeps,
          (insert_entities_lem fails cmd.new_entities [] t.entities t.aliases k n (λ id m. refl)
              s.entities_made).placed,
          stored,
          facts_lem s.document s.remap t'.entities t'.chunks (IsMade s.document s.remap) cmd.facts
              t.facts t'.facts (All-In (IsMade s.document s.remap) t.facts (λ x m. inl m))
              (All-In
                (Accepted s.document s.remap t'.entities t'.chunks (IsMade s.document s.remap))
                cmd.facts (λ f m r. inr (f, m, refl)))
              s.facts_made,
        )
