-- ===== src/Rls/Levels.antt =====
-- The row security against the order of the access levels.
use nornickel_hackathon.Prelude.{
  ℕ, String, Bool, true, false, not, some, List, [], ◌∷◌, leb, all, All, keep, fail_if, ◌==◌,
  get_elem?, all-get_elem?, if◌then◌else◌, ok, >>=-eq_ok, ok-injective, ◌≡◌, refl, sym, ◌∙◌,
}
use nornickel_hackathon.Auth.{doc_access_levels}
use nornickel_hackathon.Rls.{
  Principal, RlsError, begin_failed, set_failed, commit_failed, normalize_rls, documents_select,
  with_rls, seen_documents,
}

-- The place of a level in the order of the levels; what is no level comes after all of them.
pub rank_of : String → ℕ
rank_of level =
    if level == "public"
    then 0
    else if level == "internal"
    then 1
    else if level == "confidential"
    then 2
    else if level == "restricted"
    then 3
    else 4

ranked : String → String → Bool
unfolding rank_of documents_select
ranked access level =
    if documents_select access level
    then leb (rank_of level) (rank_of access)
    else not (leb (rank_of level) (rank_of access))

table_ranked : all (λ a. all (ranked a) doc_access_levels) doc_access_levels ≡ true
unfolding ranked documents_select rank_of
table_ranked = refl

ranked_lem : (a l : String) → ranked a l ≡ true → documents_select a l ≡ leb (rank_of l) (rank_of a)
unfolding ranked
ranked_lem a l h = go (documents_select a l) (leb (rank_of l) (rank_of a)) h
  where
    go : (b c : Bool) → (if b then c else not c) ≡ true → b ≡ c
    go true c h = sym h
    go false true h = h
    go false false h = refl

-- A session whose access is one of the levels sees the documents of this level and of those below it, and no other.
select_ranked :
    (i j : ℕ) (access level : String)
    → get_elem? doc_access_levels i ≡ some access
    → get_elem? doc_access_levels j ≡ some level
    → documents_select access level ≡ leb (rank_of level) (rank_of access)
select_ranked i j access level h k = ranked_lem access level (
    all-get_elem? (ranked access) doc_access_levels j {x = level}
      (all-get_elem? (λ a. all (ranked a) doc_access_levels) doc_access_levels i {x = access}
        table_ranked h)
      k)

seen_lem :
    (i : ℕ) (access : String) (documents : List (String × String))
    → get_elem? doc_access_levels i ≡ some access
    → All (λ (d : String × String). (j : ℕ) × (get_elem? doc_access_levels j ≡ some d.1)) documents
    → seen_documents access documents
      ≡ keep (λ (d : String × String). leb (rank_of d.1) (rank_of access)) documents
unfolding seen_documents
seen_lem i access [] h k = refl
seen_lem i access ((id, level) ∷ documents) h ((j, e), k) =
    rw (select_ranked i j access level h e) (rw (seen_lem i access documents h k) refl)

-- A query on the documents, in a transaction that is opened for a principal and ends without fault, gives just the
-- documents whose level is not above the access of the principal, this access being one of the levels; where the principal states
-- none, it is internal.
pub with_rls_levels :
    (principal : Principal) (fails : RlsError → Bool) (documents seen : List (String × String))
    (i : ℕ)
    → get_elem? doc_access_levels i ≡ some (normalize_rls principal).0
    → All (λ (d : String × String). (j : ℕ) × (get_elem? doc_access_levels j ≡ some d.1)) documents
    → with_rls fails principal (λ s. ok (seen_documents s.0 documents)) ≡ ok seen
    → (seen
        ≡ keep
            (λ (d : String × String). leb (rank_of d.1) (rank_of (normalize_rls principal).0))
            documents)
      × ((normalize_rls principal).0
          ≡ (if principal.doc_access == "" then "internal" else principal.doc_access))
unfolding with_rls normalize_rls
with_rls_levels principal fails documents seen i a known h =
    let (u, g1, h1) = >>=-eq_ok (fail_if (fails begin_failed) begin_failed) _ h in
    let (v, g2, h2) = >>=-eq_ok (fail_if (fails set_failed) set_failed) _ h1 in
    let (w, g3, h3) = >>=-eq_ok (fail_if (fails commit_failed) commit_failed) _ h2 in
    (
      sym (ok-injective h3)
          ∙ seen_lem i (if principal.doc_access == "" then "internal" else principal.doc_access)
              documents a known,
      refl,
    )
