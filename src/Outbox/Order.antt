-- ===== src/Outbox/Order.antt =====
-- The order in which a drain claims rows.
use nornickel_hackathon.Prelude.{
  ℕ, suc, ◌≤◌, ◌≡◌, refl, arith, Bool, ◌&&◌, not, List, [], ◌∷◌, ◌++◌, leb, length, keep,
  if◌then◌else◌, All, Bool-cases, inl, inr, length-take_le, drop, take-append-drop,
}
use nornickel_hackathon.Outbox.{Row, claim_rows, by_time, insert_by_time}

-- The order of claims.
abbrev pub IsSorted : List Row → Type 0
IsSorted [] = Unit
IsSorted (r ∷ rows) = All (λ s. r.created_at ≤ s.created_at) rows × IsSorted rows

insert-All :
    (n : ℕ) (r : Row) (rows : List Row)
    → n ≤ r.created_at
    → All (λ s. n ≤ s.created_at) rows
    → All (λ s. n ≤ s.created_at) (insert_by_time r rows)
unfolding insert_by_time
insert-All n r [] h a = (h, tt)
insert-All n r (s ∷ rows) h a = elim (Bool-cases (leb r.created_at s.created_at)) [
  | inl e ↦ rw e (h, a)
  | inr e ↦ rw e (a.0, insert-All n r rows h a.1)
]

All-le :
    (m n : ℕ) (rows : List Row)
    → m ≤ n
    → All (λ s. n ≤ s.created_at) rows
    → All (λ s. m ≤ s.created_at) rows
All-le m n [] h a = tt
All-le m n (r ∷ rows) h a = (omega (arith, a.0), All-le m n rows h a.1)

insert-IsSorted : (r : Row) (rows : List Row) → IsSorted rows → IsSorted (insert_by_time r rows)
unfolding insert_by_time
insert-IsSorted r [] s = (tt, tt)
insert-IsSorted r (x ∷ rows) s = elim (Bool-cases (leb r.created_at x.created_at)) [
  | inl e ↦ rw e ((ground arith, All-le r.created_at x.created_at rows (ground arith) s.0), s)
  | inr e ↦ rw e (insert-All x.created_at r rows (ground arith) s.0, insert-IsSorted r rows s.1)
]

by_time-IsSorted : (rows : List Row) → IsSorted (by_time rows)
unfolding by_time
by_time-IsSorted [] = tt
by_time-IsSorted (r ∷ rows) = insert-IsSorted r (by_time rows) (by_time-IsSorted rows)

abbrev pub count : (Row → Bool) → List Row → ℕ
count p [] = 0
count p (r ∷ rows) = if p r then suc (count p rows) else count p rows

count-insert :
    (p : Row → Bool) (r : Row) (rows : List Row)
    → count p (insert_by_time r rows) ≡ count p (r ∷ rows)
unfolding insert_by_time
count-insert p r [] = refl
count-insert p r (s ∷ rows) = ground (arith, count-insert p r rows)

count-by_time : (p : Row → Bool) (rows : List Row) → count p (by_time rows) ≡ count p rows
unfolding by_time
count-by_time p [] = refl
count-by_time p (r ∷ rows) = ground (arith, count-insert p r (by_time rows), count-by_time p rows)

-- The ready rows are claimed oldest first, at most a batch of them: the claimed rows and some rest
-- are together the rows that are neither published nor locked, each as often, in an order of time.
pub claim_oldest :
    (locked : Row → Bool) (batch : ℕ) (table : List Row)
    → (rest : List Row) × IsSorted (claim_rows locked batch table ++ rest)
      × ((p : Row → Bool)
          → count p (claim_rows locked batch table ++ rest)
            ≡ count p (keep (λ r. not r.published && not (locked r)) table))
      × (length (claim_rows locked batch table) ≤ batch)
unfolding claim_rows
claim_oldest locked batch table =
    let ready : List Row = keep (λ r. not r.published && not (locked r)) table in
    (
      drop batch (by_time ready),
      rw take-append-drop (by_time-IsSorted ready),
      λ p. rw take-append-drop (count-by_time p ready),
      length-take_le batch (by_time ready),
    )
