-- ===== src/Answer/Chunks.antt =====
-- `interleaveChunks` of internal/answer/app/service.go: two ranked lists of chunks become one.
--
-- A chunk is an identifier with the rest of it, and `none` is a nil pointer. The loop over the index
-- walks down both lists.
use nornickel_hackathon.Prelude.{
  ℕ, ◌+◌, ◌≤◌, String, Bool, true, false, ◌||◌, ◌&&◌, not, Option, none, some, List, [], ◌∷◌, ◌++◌,
  ltb, leb, length, length-append, contains, contains-append, NoRepeats, IsSubset, eq_iff, ◌==◌,
  if◌then◌else◌, ◌≡◌, ◌⊎◌, refl, sym, ap, subst, arith, Bool-cases, inl, inr,
}

module _ (C : Type 0) where
  pub record Chunk : Type 0 where
    pub id : String
    pub content : C

  abbrev pub ids : List Chunk → List String
  ids [] = []
  ids (c ∷ cs) = c.id ∷ ids cs

  -- The function `add`, where `seen` is the set of the identifiers in `out`.
  unfoldable pub add_chunk : ℕ → List Chunk → Option Chunk → List Chunk
  add_chunk limit out none = out
  add_chunk limit out (some c) =
      if leb limit (length out)
      then out
      else if c.id == "" || contains (ids out) c.id
      then out
      else out ++ c ∷ []

  unfoldable pub interleave :
      ℕ → List Chunk → List (Option Chunk) → List (Option Chunk) → List Chunk
  interleave limit out [] [] = out
  interleave limit out (c ∷ lexical) [] =
      let rest = interleave limit (add_chunk limit out c) lexical [] in
      if ltb (length out) limit then rest else out
  interleave limit out [] (d ∷ semantic) =
      let rest = interleave limit (add_chunk limit out d) [] semantic in
      if ltb (length out) limit then rest else out
  interleave limit out (c ∷ lexical) (d ∷ semantic) =
      let rest = interleave limit (add_chunk limit (add_chunk limit out c) d) lexical semantic in
      if ltb (length out) limit then rest else out

  unfoldable pub interleave_chunks : List (Option Chunk) → List (Option Chunk) → ℕ → List Chunk
  unfolding interleave
  interleave_chunks lexical semantic limit = interleave limit [] lexical semantic

  -- The identifiers of the chunks that are there.
  abbrev pub given : List (Option Chunk) → List String
  given [] = []
  given (none ∷ cs) = given cs
  given (some c ∷ cs) = c.id ∷ given cs

  ids-append : (out : List Chunk) (c : Chunk) → ids (out ++ c ∷ []) ≡ ids out ++ c.id ∷ []
  ids-append [] c = refl
  ids-append (d ∷ out) c = ap (λ l. d.id ∷ l) (ids-append out c)

  NoRepeats-append :
      (xs : List String) (x : String)
      → NoRepeats xs
      → contains xs x ≡ false
      → NoRepeats (xs ++ x ∷ [])
  NoRepeats-append [] x h k = (refl, tt)
  NoRepeats-append (y ∷ xs) x (a, b) k = (
    ground (arith, contains-append xs (x ∷ []) y, eq_iff x y, eq_iff y x, a, k),
    NoRepeats-append xs x b (ground (arith, k)),
  )

  -- No more chunks than the limit, none twice, and none without an identifier.
  abbrev pub Distinct : ℕ → List Chunk → Type 0
  Distinct limit out = (length out ≤ limit) × NoRepeats (ids out) × (contains (ids out) "" ≡ false)

  added :
      (limit : ℕ) (out : List Chunk) (c : Chunk)
      → ((leb limit (length out) ≡ true) × (add_chunk limit out (some c) ≡ out))
        ⊎ ((leb limit (length out) ≡ false)
            × ((c.id == "" || contains (ids out) c.id) ≡ true)
            × (add_chunk limit out (some c) ≡ out))
        ⊎ ((leb limit (length out) ≡ false)
            × (c.id == "" ≡ false)
            × (contains (ids out) c.id ≡ false)
            × (add_chunk limit out (some c) ≡ out ++ c ∷ []))
  unfolding add_chunk
  added limit out c = ground arith

  add-Distinct :
      (limit : ℕ) (out : List Chunk) (c : Option Chunk)
      → Distinct limit out
      → Distinct limit (add_chunk limit out c)
  unfolding add_chunk
  add-Distinct limit out none h = h
  add-Distinct limit out (some c) (a, b, d) = elim (added limit out c) [
    | inl (l, e) ↦ rw e (a, b, d)
    | inr (inl (l, k, e)) ↦ rw e (a, b, d)
    | inr (inr (l, k, m, e)) ↦ rw e (
        rw (ids-append out c) (
          ground (arith, length-append out (c ∷ [])),
          NoRepeats-append (ids out) c.id b m,
          ground (arith, contains-append (ids out) (c.id ∷ []) "", k, d),
        ))
  ]

  -- What one `add` does to the identifiers and to the length.
  AddsTo : ℕ → List Chunk → Option Chunk → String → Type 0
  AddsTo limit out c x =
      let out' = add_chunk limit out c in
      (length out ≤ length out')
      × (contains (ids out') x ≡ true
          → (contains (ids out) x || contains (given (c ∷ [])) x) ≡ true)
      × (length out' + 1 ≤ limit
          → x == "" ≡ false
          → contains (ids out') x ≡ (contains (ids out) x || contains (given (c ∷ [])) x))

  add-AddsTo : (limit : ℕ) (out : List Chunk) (c : Option Chunk) (x : String) → AddsTo limit out c x
  unfolding add_chunk AddsTo
  add-AddsTo limit out none x = ground arith
  add-AddsTo limit out (some c) x = elim (added limit out c) [
    | inl (l, e) ↦ rw e (ground (arith, l))
    | inr (inl (l, k, e)) ↦ rw e (ground (arith, k, eq_iff c.id x))
    | inr (inr (l, k, m, e)) ↦ rw e (
        rw (ids-append out c)
          (ground (arith, length-append out (c ∷ []), contains-append (ids out) (c.id ∷ []) x)))
  ]

  interleave-Distinct :
      (limit : ℕ) (out : List Chunk) (l s : List (Option Chunk))
      → Distinct limit out
      → Distinct limit (interleave limit out l s)
  unfolding interleave
  interleave-Distinct limit out [] [] h = h
  interleave-Distinct limit out (c ∷ l) [] h = elim (Bool-cases (ltb (length out) limit)) [
    | inl e ↦
        rw e (interleave-Distinct limit (add_chunk limit out c) l [] (add-Distinct limit out c h))
    | inr e ↦ rw e h
  ]
  interleave-Distinct limit out [] (d ∷ s) h = elim (Bool-cases (ltb (length out) limit)) [
    | inl e ↦
        rw e (interleave-Distinct limit (add_chunk limit out d) [] s (add-Distinct limit out d h))
    | inr e ↦ rw e h
  ]
  interleave-Distinct limit out (c ∷ l) (d ∷ s) h = elim (Bool-cases (ltb (length out) limit)) [
    | inl e ↦ rw e (
        interleave-Distinct limit (add_chunk limit (add_chunk limit out c) d) l s
          (add-Distinct limit (add_chunk limit out c) d (add-Distinct limit out c h)))
    | inr e ↦ rw e h
  ]

  -- The same for the whole loop, of the chunks that were given.
  Joins : ℕ → List Chunk → List Chunk → Bool → String → Type 0
  Joins limit out r offered x =
      (length out ≤ length r)
      × (contains (ids r) x ≡ true → (contains (ids out) x || offered) ≡ true)
      × (length r + 1 ≤ limit
          → x == "" ≡ false
          → contains (ids r) x ≡ (contains (ids out) x || offered))

  Joins-add :
      (limit : ℕ) (out : List Chunk) (c : Option Chunk) (r : List Chunk) (offered : Bool)
      (x : String)
      → Joins limit (add_chunk limit out c) r offered x
      → Joins limit out r (contains (given (c ∷ [])) x || offered) x
  unfolding Joins AddsTo
  Joins-add limit out c r offered x (a, b, d) =
      let (p, q, t) = add-AddsTo limit out c x in ground (arith, a, b, d, p, q, t)

  Joins-stop :
      (limit : ℕ) (out : List Chunk) (offered : Bool) (x : String)
      → ltb (length out) limit ≡ false
      → Joins limit out out offered x
  unfolding Joins
  Joins-stop limit out offered x h = ground (arith, h)

  given-cons :
      (c : Option Chunk) (l : List (Option Chunk)) (x : String)
      → contains (given (c ∷ l)) x ≡ (contains (given (c ∷ [])) x || contains (given l) x)
  given-cons none l x = refl
  given-cons (some c) l x = ground arith

  left_out : (a b : Bool) → (a || (b || false)) ≡ ((a || b) || false)
  left_out a b = ground arith

  crossed :
      (c d : Option Chunk) (l s : List (Option Chunk)) (x : String)
      → (contains (given (c ∷ [])) x
          || (contains (given (d ∷ [])) x || (contains (given l) x || contains (given s) x)))
        ≡ (contains (given (c ∷ l)) x || contains (given (d ∷ s)) x)
  crossed c d l s x =
      rw (given-cons c l x, given-cons d s x)
        (swap (contains (given (c ∷ [])) x) (contains (given (d ∷ [])) x) (contains (given l) x)
          (contains (given s) x))
    where
      swap : (a b p q : Bool) → (a || (b || (p || q))) ≡ ((a || p) || (b || q))
      swap a b p q = ground arith

  interleave-Joins :
      (limit : ℕ) (out : List Chunk) (l s : List (Option Chunk)) (x : String)
      → Joins limit out (interleave limit out l s) (contains (given l) x || contains (given s) x) x
  unfolding interleave Joins
  interleave-Joins limit out [] [] x = ground arith
  interleave-Joins limit out (c ∷ l) [] x = elim (Bool-cases (ltb (length out) limit)) [
    | inl e ↦ rw e (
        subst (λ b. Joins limit out (interleave limit (add_chunk limit out c) l []) (b || false) x)
          (sym (given-cons c l x))
          (subst (λ b. Joins limit out (interleave limit (add_chunk limit out c) l []) b x)
            (left_out (contains (given (c ∷ [])) x) (contains (given l) x))
            (Joins-add limit out c _ _ x (interleave-Joins limit (add_chunk limit out c) l [] x))))
    | inr e ↦ rw e (Joins-stop limit out _ x e)
  ]
  interleave-Joins limit out [] (d ∷ s) x = elim (Bool-cases (ltb (length out) limit)) [
    | inl e ↦ rw e (
        subst (λ b. Joins limit out (interleave limit (add_chunk limit out d) [] s) b x)
          (sym (given-cons d s x))
          (Joins-add limit out d _ _ x (interleave-Joins limit (add_chunk limit out d) [] s x)))
    | inr e ↦ rw e (Joins-stop limit out _ x e)
  ]
  interleave-Joins limit out (c ∷ l) (d ∷ s) x = elim (Bool-cases (ltb (length out) limit)) [
    | inl e ↦ rw e (
        subst
          (λ b.
            Joins limit out (interleave limit (add_chunk limit (add_chunk limit out c) d) l s) b x)
          (crossed c d l s x)
          (Joins-add limit out c _ _ x (
            Joins-add limit (add_chunk limit out c) d _ _ x
              (interleave-Joins limit (add_chunk limit (add_chunk limit out c) d) l s x))))
    | inr e ↦ rw e (Joins-stop limit out _ x e)
  ]

  -- The joined list has at most `limit` chunks, no two of the same identifier and none without one,
  -- and each of its identifiers is that of a given chunk. It is full, or each given chunk that has
  -- an identifier is in it.
  pub interleave_chunks_lem :
      (lexical semantic : List (Option Chunk)) (limit : ℕ)
      → let r = interleave_chunks lexical semantic limit in
        Distinct limit r
        × IsSubset (ids r) (given lexical ++ given semantic)
        × ((length r ≡ limit)
            ⊎ ((x : String)
                → contains (ids r) x
                  ≡ (contains (given lexical ++ given semantic) x && not (x == ""))))
  unfolding interleave_chunks Joins
  interleave_chunks_lem lexical semantic limit =
      let r = interleave limit [] lexical semantic in
      let (short, apart, named) =
        interleave-Distinct limit [] lexical semantic (omega arith, tt, refl) in
      (
        (short, apart, named),
        (λ x h. ground (
          arith,
          contains-append (given lexical) (given semantic) x,
          (interleave-Joins limit [] lexical semantic x).1 h,
        )),
        elim (Bool-cases (leb limit (length r))) [
          | inl e ↦ inl (ground (arith, e, short))
          | inr e ↦ inr (λ x. elim (Bool-cases (x == "")) [
            | inl k ↦ rw ((eq_iff x "").0 k) (ground (arith, named))
            | inr k ↦ ground (
              arith,
              contains-append (given lexical) (given semantic) x,
              k,
              (interleave-Joins limit [] lexical semantic x).2 (ground (arith, e)) k,
            )
          ])
        ],
      )
