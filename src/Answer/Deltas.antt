-- ===== src/Answer/Deltas.antt =====
-- `chunkDeltas` of internal/answer/app/synth.go: a summary is cut into pieces of a number of words.
--
-- A text is the list of its code points. The loop over the words runs on fuel, and `none` is a loop
-- that has no fuel left; it needs one unit for each word and one more to stop.
use nornickel_hackathon.Prelude.{
  ℕ, zero, suc, ◌+◌, ◌-◌, ◌≤◌, ◌<◌, Bool, true, false, ◌||◌, Option, none, some, List, [], ◌∷◌,
  ◌++◌, nat_eq, ltb, length, take, drop, take-append-drop, if◌then◌else◌, ◌≡◌, refl, sym, ap, ◌∙◌,
  arith, Bool-cases, inl, inr,
}

-- `\\s`
unfoldable pub is_gap : ℕ → Bool
is_gap c = nat_eq c 32 || nat_eq c 9 || nat_eq c 10 || nat_eq c 12 || nat_eq c 13

-- The matches of `\\S+\\s*`, the current one being `word`; the flag tells whether it has come to its gap.
unfoldable pub words_from : Bool → List ℕ → List ℕ → List (List ℕ)
unfolding is_gap
words_from gap word [] = word ∷ []
words_from gap word (c ∷ text) =
    let in_gap = words_from true (word ++ c ∷ []) text in
    let next_word = word ∷ words_from false (c ∷ []) text in
    let same_word = words_from false (word ++ c ∷ []) text in
    if is_gap c then in_gap else if gap then next_word else same_word

unfoldable pub find_words : List ℕ → List (List ℕ)
unfolding words_from is_gap
find_words [] = []
find_words (c ∷ text) =
    let rest = find_words text in if is_gap c then rest else words_from false (c ∷ []) text

unfoldable pub concat : List (List ℕ) → List ℕ
concat [] = []
concat (w ∷ words) = w ++ concat words

unfoldable pub lesser : ℕ → ℕ → ℕ
lesser a b = if ltb a b then a else b

unfoldable pub push_chunk : List ℕ → Option (List (List ℕ)) → Option (List (List ℕ))
push_chunk chunk none = none
push_chunk chunk (some chunks) = some (chunk ∷ chunks)

-- The loop from `start`, whose slice goes to `min(start+wordsPerChunk, len(words))`.
unfoldable pub chunk_words : ℕ → ℕ → ℕ → List (List ℕ) → Option (List (List ℕ))
unfolding concat lesser push_chunk
chunk_words zero words_per_chunk start words = none
chunk_words (suc fuel) words_per_chunk start words =
    let rest = chunk_words fuel words_per_chunk (start + words_per_chunk) words in
    if ltb start (length words)
    then push_chunk
        (concat (take (lesser (start + words_per_chunk) (length words) - start) (drop start words)))
        rest
    else some []

unfoldable pub chunk_found : ℕ → ℕ → List ℕ → List (List ℕ) → Option (List (List ℕ))
unfolding chunk_words
chunk_found fuel words_per_chunk summary [] = some (summary ∷ [])
chunk_found fuel words_per_chunk summary (w ∷ words) =
    chunk_words fuel words_per_chunk 0 (w ∷ words)

unfoldable pub chunk_deltas : ℕ → ℕ → List ℕ → Option (List (List ℕ))
unfolding chunk_found find_words
chunk_deltas fuel words_per_chunk summary =
    chunk_found fuel words_per_chunk summary (find_words summary)

-- The summary without the gap at its start; a summary that is a gap throughout is kept.
pub without_gap : List ℕ → List ℕ → List ℕ
without_gap summary [] = summary
without_gap summary (c ∷ text) =
    let rest = without_gap summary text in if is_gap c then rest else c ∷ text

-- What the pieces together are: the words, or the whole summary where there is none.
abbrev chunk_source : List ℕ → List (List ℕ) → List (List ℕ)
chunk_source summary [] = summary ∷ []
chunk_source summary (w ∷ words) = w ∷ words

append_assoc : (xs ys zs : List ℕ) → (xs ++ ys) ++ zs ≡ xs ++ (ys ++ zs)
append_assoc [] ys zs = refl
append_assoc (x ∷ xs) ys zs = ap (λ (l : List ℕ). x ∷ l) (append_assoc xs ys zs)

append-nil : (xs : List ℕ) → xs ++ [] ≡ xs
append-nil [] = refl
append-nil (x ∷ xs) = ap (λ (l : List ℕ). x ∷ l) (append-nil xs)

concat-append : (xs ys : List (List ℕ)) → concat (xs ++ ys) ≡ concat xs ++ concat ys
unfolding concat
concat-append [] ys = refl
concat-append (x ∷ xs) ys =
    ap (λ (l : List ℕ). x ++ l) (concat-append xs ys) ∙ sym (append_assoc x (concat xs) (concat ys))

words_from-concat :
    (gap : Bool) (word text : List ℕ) → concat (words_from gap word text) ≡ word ++ text
unfolding concat words_from
words_from-concat gap word [] = refl
words_from-concat gap word (c ∷ text) = elim (Bool-cases (is_gap c)) [
  | inl e ↦ rw e (words_from-concat true (word ++ c ∷ []) text ∙ append_assoc word (c ∷ []) text)
  | inr e ↦ rw e (
      go gap (words_from-concat false (c ∷ []) text)
        (words_from-concat false (word ++ c ∷ []) text))
]
  where
    go :
        (g : Bool)
        → concat (words_from false (c ∷ []) text) ≡ c ∷ text
        → concat (words_from false (word ++ c ∷ []) text) ≡ (word ++ c ∷ []) ++ text
        → concat (
            if g
            then word ∷ words_from false (c ∷ []) text
            else words_from false (word ++ c ∷ []) text)
          ≡ word ++ c ∷ text
    go true m n = ap (λ (l : List ℕ). word ++ l) m
    go false m n = n ∙ append_assoc word (c ∷ []) text

length-drop : (s : ℕ) (words : List (List ℕ)) → length (drop s words) ≡ length words - s
length-drop zero words = omega arith
length-drop (suc s) [] = omega arith
length-drop (suc s) (w ∷ words) = length-drop s words ∙ omega arith

drop-nil : (n : ℕ) → ◌≡◌ {A = List (List ℕ)} (drop n []) []
drop-nil zero = refl
drop-nil (suc n) = refl

drop-drop : (s n : ℕ) (words : List (List ℕ)) → drop (s + n) words ≡ drop n (drop s words)
drop-drop zero n words = ap (λ (k : ℕ). drop k words) (omega arith)
drop-drop (suc s) n [] = drop-nil (suc s + n) ∙ sym (drop-nil n)
drop-drop (suc s) n (w ∷ words) =
    let e : suc s + n ≡ suc (s + n) = omega arith in
    ap (λ (k : ℕ). drop k (w ∷ words)) e ∙ drop-drop s n words

take_all :
    (n : ℕ) (words : List (List ℕ))
    → length words ≤ n
    → (take n words ≡ words) × (drop n words ≡ [])
take_all zero [] h = (refl, refl)
take_all zero (w ∷ words) h = absurd (omega (arith, h))
take_all (suc n) [] h = (refl, refl)
take_all (suc n) (w ∷ words) h =
    let (a, b) = take_all n words (omega (arith, h)) in (ap (λ (l : List (List ℕ)). w ∷ l) a, b)

-- The words of one piece, and those after it, are the words from its start.
slice_lem :
    (n start : ℕ) (words : List (List ℕ))
    → start < length words
    → concat (take (lesser (start + n) (length words) - start) (drop start words))
        ++ concat (drop (start + n) words)
      ≡ concat (drop start words)
unfolding lesser concat
slice_lem n start words h = elim (Bool-cases (ltb (start + n) (length words))) [
  | inl e ↦ rw e (
      let k : start + n - start ≡ n = omega arith in
      rw k (
        rw (drop-drop start n words) (
          sym (concat-append (take n (drop start words)) (drop n (drop start words)))
          ∙ ap concat (take-append-drop n (drop start words)))))
  | inr e ↦
      let (a, b) =
        take_all (length words - start) (drop start words)
          (omega (arith, length-drop start words)) in
      let far : length words ≤ start + n = ground (arith, e) in
      let (c, d) = take_all n (drop start words) (omega (arith, length-drop start words, far)) in
      rw e (rw a (rw (drop-drop start n words) (rw d (append-nil (concat (drop start words))))))
]

push_lem :
    (chunk : List ℕ) (o : Option (List (List ℕ))) {chunks : List (List ℕ)}
    → o ≡ some chunks
    → push_chunk chunk o ≡ some (chunk ∷ chunks)
unfolding push_chunk
push_lem chunk o h = ap (push_chunk chunk) h

chunk_words_lem :
    (fuel n start : ℕ) (words : List (List ℕ))
    → 1 ≤ n
    → 1 ≤ fuel
    → length words < fuel + start
    → (chunks : List (List ℕ)) × (chunk_words fuel n start words ≡ some chunks)
      × (concat chunks ≡ concat (drop start words))
unfolding chunk_words concat
chunk_words_lem zero n start words p q h = absurd (omega (arith, q))
chunk_words_lem (suc fuel) n start words p q h = elim (Bool-cases (ltb start (length words))) [
  | inl e ↦
      let before : start < length words = ground (arith, e) in
      let (chunks, a, b) =
        chunk_words_lem fuel n (start + n) words p (omega (arith, h, before))
          (omega (arith, h, p)) in
      let slice : List ℕ =
        concat (take (lesser (start + n) (length words) - start) (drop start words)) in
      (
        slice ∷ chunks,
        rw e (push_lem slice (chunk_words fuel n (start + n) words) a),
        ap (λ (l : List ℕ). slice ++ l) b ∙ slice_lem n start words before,
      )
  | inr e ↦
      let past : length words ≤ start = ground (arith, e) in
      ([], rw e refl, sym (ap concat (take_all start words past).1))
]

find_words_lem :
    (summary text : List ℕ)
    → concat (chunk_source summary (find_words text)) ≡ without_gap summary text
unfolding find_words without_gap concat
find_words_lem summary [] = append-nil summary
find_words_lem summary (c ∷ text) = elim (Bool-cases (is_gap c)) [
  | inl e ↦ rw e (find_words_lem summary text)
  | inr e ↦
      rw e (some_words (words_from false (c ∷ []) text) (words_from-concat false (c ∷ []) text))
]
  where
    some_words :
        (words : List (List ℕ))
        → concat words ≡ c ∷ text
        → concat (chunk_source summary words) ≡ c ∷ text
    some_words [] h = cc
    some_words (w ∷ words) h = h

-- The cutting of a summary comes to its end, however long it is, where each piece has at least one word, and the
-- pieces together are the summary without the gap at its start, or the summary itself where it is a gap throughout.
pub chunk_deltas_ends :
    (words_per_chunk : ℕ) (summary : List ℕ) (fuel : ℕ)
    → 1 ≤ words_per_chunk
    → length (find_words summary) < fuel
    → (chunks : List (List ℕ)) × (chunk_deltas fuel words_per_chunk summary ≡ some chunks)
      × (concat chunks ≡ without_gap summary summary)
unfolding chunk_deltas chunk_found
chunk_deltas_ends words_per_chunk summary fuel p h =
    let (chunks, a, b) = go (find_words summary) h in
    (chunks, a, b ∙ find_words_lem summary summary)
  where
    go :
        (words : List (List ℕ))
        → length words < fuel
        → (chunks : List (List ℕ)) × (chunk_found fuel words_per_chunk summary words ≡ some chunks)
          × (concat chunks ≡ concat (chunk_source summary words))
    go [] h = (summary ∷ [], refl, refl)
    go (w ∷ words) h =
        chunk_words_lem fuel words_per_chunk 0 (w ∷ words) p (omega (arith, h)) (omega (arith, h))
