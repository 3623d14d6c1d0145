-- ===== src/Catalog/Merge/Edges.antt =====
-- The unique key of the edges under a merge: the updates of kg.edges never meet it.
use nornickel_hackathon.Prelude.{
  String, Bool, true, false, ◌&&◌, ◌||◌, not, List, [], ◌∷◌, any, ◌==◌, eq_iff, ok, ◌≡◌, refl, sym,
  ap, ◌∙◌, subst, arith, Bool-cases, inl, inr,
}
use nornickel_hackathon.Catalog.Store.{EdgeRow, Values}
use nornickel_hackathon.Catalog.Store.Commit.{In}
use nornickel_hackathon.Catalog.Merge.{
  MergeError, State, Side, src_side, dst_side, same_edge, blocks, move_edge, move_each, move_edges,
  cleanup_edges, merge_entities,
}
use nornickel_hackathon.Catalog.Merge.Laws.{body_Merged, settle_lem}

-- No two edges agree in both ends and the relation.
abbrev pub Distinct : List EdgeRow → Type 0
Distinct [] = Unit
Distinct (e ∷ edges) = (any (same_edge e) edges ≡ false) × Distinct edges

eq_sym : (a b : String) → (a == b) ≡ (b == a)
eq_sym a b = ground (arith, eq_iff a b, eq_iff b a)

same_sym : (e f : EdgeRow) → same_edge e f ≡ same_edge f e
unfolding same_edge
same_sym e f = ground (arith, eq_sym e.src f.src, eq_sym e.dst f.dst, eq_sym e.rel f.rel)

any-In :
    (p : EdgeRow → Bool) (x : EdgeRow) (xs : List EdgeRow) → In x xs → p x ≡ true → any p xs ≡ true
any-In p x [] m h = absurd m
any-In p x (y ∷ xs) (inl m) h = let e : p y ≡ true = ap p m ∙ h in ground (arith, e)
any-In p x (y ∷ xs) (inr m) h = ground (arith, any-In p x xs m h)

both_src :
    (id into : String) (e f : EdgeRow)
    → same_edge e f ≡ false
    → (e.src == id) ≡ true
    → (f.src == id) ≡ true
    → same_edge (record e { src = into }) (record f { src = into }) ≡ false
unfolding same_edge
both_src id into e f n h k =
    ground (arith, n, h, k, eq_iff e.src id, eq_iff f.src id, eq_iff e.src f.src)

one_src :
    (into : String) (e f : EdgeRow)
    → same_edge e f ≡ false
    → blocks src_side into e f ≡ false
    → same_edge (record e { src = into }) f ≡ false
unfolding same_edge blocks
one_src into e f n b =
    ground
      (arith, n, b, eq_sym e.src f.src, eq_sym e.dst f.dst, eq_sym e.rel f.rel, eq_sym into f.src)

both_dst :
    (id into : String) (e f : EdgeRow)
    → same_edge e f ≡ false
    → (e.dst == id) ≡ true
    → (f.dst == id) ≡ true
    → same_edge (record e { dst = into }) (record f { dst = into }) ≡ false
unfolding same_edge
both_dst id into e f n h k =
    ground (arith, n, h, k, eq_iff e.dst id, eq_iff f.dst id, eq_iff e.dst f.dst)

one_dst :
    (into : String) (e f : EdgeRow)
    → same_edge e f ≡ false
    → blocks dst_side into e f ≡ false
    → same_edge (record e { dst = into }) f ≡ false
unfolding same_edge blocks
one_dst into e f n b =
    ground
      (arith, n, b, eq_sym e.src f.src, eq_sym e.dst f.dst, eq_sym e.rel f.rel, eq_sym into f.dst)

free_lem :
    (side : Side) (into : String) (all_rows : List EdgeRow) (e f : EdgeRow)
    → In f all_rows
    → any (blocks side into e) all_rows ≡ false
    → blocks side into e f ≡ false
free_lem side into all_rows e f m h = elim (Bool-cases (blocks side into e f)) [
  | inl b ↦ absurd (ground (arith, h, any-In (blocks side into e) f all_rows m b))
  | inr b ↦ b
]

pair_lem :
    (side : Side) (id into : String) (all_rows : List EdgeRow) (e f : EdgeRow)
    → In e all_rows
    → In f all_rows
    → same_edge e f ≡ false
    → same_edge (move_edge side id into all_rows e) (move_edge side id into all_rows f) ≡ false
unfolding move_edge
pair_lem src_side id into all_rows e f me mf n =
    elim (Bool-cases (e.src == id && not (any (blocks src_side into e) all_rows))) [
      | inl a ↦ elim (Bool-cases (f.src == id && not (any (blocks src_side into f) all_rows))) [
        | inl b ↦ rw a (rw b (both_src id into e f n (ground (arith, a)) (ground (arith, b))))
        | inr b ↦
            rw a (
              rw b
                (one_src into e f n (free_lem src_side into all_rows e f mf (ground (arith, a)))))
      ]
      | inr a ↦ elim (Bool-cases (f.src == id && not (any (blocks src_side into f) all_rows))) [
        | inl b ↦ rw a (
            rw b (
              same_sym e (record f { src = into })
              ∙ one_src into f e (same_sym f e ∙ n)
                  (free_lem src_side into all_rows f e me (ground (arith, b)))))
        | inr b ↦ rw a (rw b n)
      ]
    ]
pair_lem dst_side id into all_rows e f me mf n =
    elim (Bool-cases (e.dst == id && not (any (blocks dst_side into e) all_rows))) [
      | inl a ↦ elim (Bool-cases (f.dst == id && not (any (blocks dst_side into f) all_rows))) [
        | inl b ↦ rw a (rw b (both_dst id into e f n (ground (arith, a)) (ground (arith, b))))
        | inr b ↦
            rw a (
              rw b
                (one_dst into e f n (free_lem dst_side into all_rows e f mf (ground (arith, a)))))
      ]
      | inr a ↦ elim (Bool-cases (f.dst == id && not (any (blocks dst_side into f) all_rows))) [
        | inl b ↦ rw a (
            rw b (
              same_sym e (record f { dst = into })
              ∙ one_dst into f e (same_sym f e ∙ n)
                  (free_lem dst_side into all_rows f e me (ground (arith, b)))))
        | inr b ↦ rw a (rw b n)
      ]
    ]

head_lem :
    (side : Side) (id into : String) (all_rows : List EdgeRow) (e : EdgeRow) (rest : List EdgeRow)
    → In e all_rows
    → ((x : EdgeRow) → In x rest → In x all_rows)
    → any (same_edge e) rest ≡ false
    → any (same_edge (move_edge side id into all_rows e)) (move_each side id into all_rows rest)
      ≡ false
unfolding move_each
head_lem side id into all_rows e [] me sub h = refl
head_lem side id into all_rows e (f ∷ rest) me sub h = ground (
  arith,
  pair_lem side id into all_rows e f me (sub f (inl refl)) (ground (arith, h)),
  head_lem side id into all_rows e rest me (λ x m. sub x (inr m)) (ground (arith, h)),
)

each_lem :
    (side : Side) (id into : String) (all_rows rest : List EdgeRow)
    → ((x : EdgeRow) → In x rest → In x all_rows)
    → Distinct rest
    → Distinct (move_each side id into all_rows rest)
unfolding move_each
each_lem side id into all_rows [] sub h = tt
each_lem side id into all_rows (e ∷ rest) sub h = (
  head_lem side id into all_rows e rest (sub e (inl refl)) (λ x m. sub x (inr m)) h.0,
  each_lem side id into all_rows rest (λ x m. sub x (inr m)) h.1,
)

move_Distinct :
    (side : Side) (id into : String) (edges : List EdgeRow)
    → Distinct edges
    → Distinct (move_edges side id into edges)
unfolding move_edges
move_Distinct side id into edges h = each_lem side id into edges edges (λ x m. m) h

any_cleanup :
    (id into : String) (p : EdgeRow → Bool) (edges : List EdgeRow)
    → any p edges ≡ false
    → any p (cleanup_edges id into edges) ≡ false
unfolding cleanup_edges
any_cleanup id into p [] h = refl
any_cleanup id into p (e ∷ edges) h =
    elim (Bool-cases (e.src == id || e.dst == id || (e.src == into && e.dst == into))) [
      | inl out ↦ rw out (any_cleanup id into p edges (ground (arith, h)))
      | inr stays ↦ rw stays (ground (arith, h, any_cleanup id into p edges))
    ]

cleanup_Distinct :
    (id into : String) (edges : List EdgeRow)
    → Distinct edges
    → Distinct (cleanup_edges id into edges)
unfolding cleanup_edges
cleanup_Distinct id into [] h = tt
cleanup_Distinct id into (e ∷ edges) h =
    elim (Bool-cases (e.src == id || e.dst == id || (e.src == into && e.dst == into))) [
      | inl out ↦ rw out (cleanup_Distinct id into edges h.1)
      | inr stays ↦
          rw stays (any_cleanup id into (same_edge e) edges h.0, cleanup_Distinct id into edges h.1)
    ]

module _ {V : Type 0} (values : Values V) (visible : String → Bool) (fails : MergeError → Bool)
    (id into actor comment : String) (s : State V) where
  -- A merge never meets the unique key of the edges: where no two edges agree in both ends and the relation, none do after each of
  -- the two updates, nor after a merge that succeeds.
  pub merge-Distinct :
      (s' : State V)
      → Distinct s.tables.edges
      → merge_entities values visible fails id into actor comment s ≡ (ok tt, s')
      → Distinct (move_edges src_side id into s.tables.edges)
        × Distinct (move_edges dst_side id into (move_edges src_side id into s.tables.edges))
        × Distinct s'.tables.edges
  unfolding merge_entities
  merge-Distinct s' d h =
      let m =
        body_Merged values visible fails id into actor comment s s'
          (settle_lem values visible fails id into actor comment s _ s' h) in
      let first = move_Distinct src_side id into s.tables.edges d in
      let second =
        move_Distinct dst_side id into (move_edges src_side id into s.tables.edges) first in
      (first, second, subst Distinct (sym m.edges) (cleanup_Distinct id into _ second))
