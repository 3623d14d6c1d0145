-- ===== src/Answer/Synth/Methods.antt =====
-- The methods of a summary: which facts each of them cites.
use nornickel_hackathon.Prelude.{
  String, Bool, true, false, ◌||◌, Option, none, some, List, [], ◌∷◌, ◌++◌, contains, NoRepeats,
  ◌==◌, eq_iff, eq_self, if◌then◌else◌, lookup, insert, lookup-insert, Assoc, ◌≡◌, ◌↔◌, refl, sym,
  ap, subst, ◌∙◌, arith, Bool-cases, inl, inr,
}
use nornickel_hackathon.Answer.Synth.{
  FactView, MethodView, is_method, cite, group_methods, methods_in, derive_methods,
}
use nornickel_hackathon.Float.{Float}

abbrev pub citations_of : Option MethodView → List String
citations_of none = []
citations_of (some method) = method.citations

-- The references of the facts on a subject, in their order.
abbrev pub refs_of : String → List FactView → List String
refs_of slug [] = []
refs_of slug (view ∷ views) =
    let rest = refs_of slug views in if view.subject_slug == slug then view.ref ∷ rest else rest

abbrev pub slugs_in : Assoc MethodView → List String
slugs_in [] = []
slugs_in ((slug, method) ∷ groups) = slug ∷ slugs_in groups

append_assoc : (xs ys zs : List String) → (xs ++ ys) ++ zs ≡ xs ++ (ys ++ zs)
append_assoc [] ys zs = refl
append_assoc (x ∷ xs) ys zs = ap (λ (l : List String). x ∷ l) (append_assoc xs ys zs)

append-nil : (xs : List String) → xs ++ [] ≡ xs
append-nil [] = refl
append-nil (x ∷ xs) = ap (λ (l : List String). x ∷ l) (append-nil xs)

cite_lem :
    (view : FactView) (o : Option MethodView)
    → (cite view o).citations ≡ citations_of o ++ view.ref ∷ []
unfolding cite
cite_lem view none = refl
cite_lem view (some method) = refl

-- What one round does for a slug, on the slug of the view.
abbrev Cited : String → FactView → Assoc MethodView → String → Type 0
Cited slug view groups key =
    citations_of (
      lookup slug
        (if is_method key then insert key (cite view (lookup key groups)) groups else groups))
    ≡ citations_of (lookup slug groups)
      ++ (if is_method slug then (if key == slug then view.ref ∷ [] else []) else [])

-- One round of the loop.
step_lem :
    (slug : String) (view : FactView) (groups : Assoc MethodView)
    → citations_of (
        lookup slug (
          if is_method view.subject_slug
          then insert view.subject_slug (cite view (lookup view.subject_slug groups)) groups
          else groups))
      ≡ citations_of (lookup slug groups)
        ++ (if is_method slug then refs_of slug (view ∷ []) else [])
step_lem slug view groups = elim (Bool-cases (view.subject_slug == slug)) [
  | inl e ↦ subst (Cited slug view groups) (sym ((eq_iff view.subject_slug slug).0 e)) same
  | inr e ↦ other e (is_method view.subject_slug) (is_method slug)
]
  where
    same : Cited slug view groups slug
    same = elim (Bool-cases (is_method slug)) [
      | inl k ↦
          let found : lookup slug (insert slug (cite view (lookup slug groups)) groups)
              ≡ some (cite view (lookup slug groups)) =
            lookup-insert slug slug (cite view (lookup slug groups)) groups
            ∙ rw (eq_self slug) refl in
          rw k (
            ap citations_of found
            ∙ cite_lem view (lookup slug groups)
            ∙ sym (
                ap
                  (λ (b : Bool).
                    citations_of (lookup slug groups) ++ (if b then view.ref ∷ [] else []))
                  (eq_self slug)))
      | inr k ↦ rw k (sym (append-nil (citations_of (lookup slug groups))))
    ]

    other :
        (view.subject_slug == slug) ≡ false
        → (b c : Bool)
        → citations_of (
            lookup slug (
              if b
              then insert view.subject_slug (cite view (lookup view.subject_slug groups)) groups
              else groups))
          ≡ citations_of (lookup slug groups) ++ (if c then refs_of slug (view ∷ []) else [])
    other e b c =
        unchanged b
        ∙ sym (
            ap (λ (l : List String). citations_of (lookup slug groups) ++ l) (nothing c)
            ∙ append-nil (citations_of (lookup slug groups)))
      where
        unchanged :
            (b : Bool)
            → citations_of (
                lookup slug (
                  if b
                  then insert view.subject_slug (cite view (lookup view.subject_slug groups)) groups
                  else groups))
              ≡ citations_of (lookup slug groups)
        unchanged true =
            rw
              (lookup-insert view.subject_slug slug (cite view (lookup view.subject_slug groups))
                groups)
              (rw e refl)
        unchanged false = refl

        nothing : (c : Bool) → (if c then refs_of slug (view ∷ []) else []) ≡ []
        nothing true = rw e refl
        nothing false = refl

group_lem :
    (slug : String) (views : List FactView) (groups : Assoc MethodView)
    → citations_of (lookup slug (group_methods views groups))
      ≡ citations_of (lookup slug groups) ++ (if is_method slug then refs_of slug views else [])
unfolding group_methods
group_lem slug [] groups = elim (Bool-cases (is_method slug)) [
  | inl k ↦ rw k (sym (append-nil (citations_of (lookup slug groups))))
  | inr k ↦ rw k (sym (append-nil (citations_of (lookup slug groups))))
]
group_lem slug (view ∷ views) groups =
    group_lem slug views _
    ∙ ap (λ (l : List String). l ++ (if is_method slug then refs_of slug views else []))
        (step_lem slug view groups)
    ∙ append_assoc (citations_of (lookup slug groups)) _ _
    ∙ ap (λ (l : List String). citations_of (lookup slug groups) ++ l)
        (joined (is_method slug) (view.subject_slug == slug) refl)
  where
    joined :
        (c b : Bool)
        → (view.subject_slug == slug) ≡ b
        → (if c then refs_of slug (view ∷ []) else []) ++ (if c then refs_of slug views else [])
          ≡ (if c then refs_of slug (view ∷ views) else [])
    joined true true e = rw e refl
    joined true false e = rw e refl
    joined false b e = refl

abbrev some_there : List String → Bool
some_there [] = false
some_there (x ∷ xs) = true

-- A method that is there cites something.
abbrev cites : Option MethodView → Bool
cites none = true
cites (some method) = some_there method.citations

cite-cites : (view : FactView) (o : Option MethodView) → cites (some (cite view o)) ≡ true
unfolding cite
cite-cites view none = refl
cite-cites view (some method) = last_there method.citations view.ref
  where
    last_there : (xs : List String) (x : String) → some_there (xs ++ x ∷ []) ≡ true
    last_there [] x = refl
    last_there (y ∷ xs) x = refl

insert-cites :
    (key slug : String) (view : FactView) (o : Option MethodView) (groups : Assoc MethodView)
    → cites (lookup slug groups) ≡ true
    → cites (lookup slug (insert key (cite view o) groups)) ≡ true
insert-cites key slug view o groups h = elim (Bool-cases (key == slug)) [
  | inl e ↦ rw (lookup-insert key slug (cite view o) groups) (rw e (cite-cites view o))
  | inr e ↦ rw (lookup-insert key slug (cite view o) groups) (rw e h)
]

group-cites :
    (slug : String) (views : List FactView) (groups : Assoc MethodView)
    → cites (lookup slug groups) ≡ true
    → cites (lookup slug (group_methods views groups)) ≡ true
unfolding group_methods
group-cites slug [] groups h = h
group-cites slug (view ∷ views) groups h = elim (Bool-cases (is_method view.subject_slug)) [
  | inl e ↦ rw e (
      group-cites slug views _
        (insert-cites view.subject_slug slug view (lookup view.subject_slug groups) groups h))
  | inr e ↦ rw e (group-cites slug views groups h)
]

none_iff : (o : Option MethodView) → cites o ≡ true → (o ≡ none) ↔ (citations_of o ≡ [])
none_iff none h = ((λ e. refl), (λ e. refl))
none_iff (some method) h =
    ((λ e. cc), (λ e. let k : some_there [] ≡ true = ap some_there (sym e) ∙ h in cc))

insert-slugs :
    (slug k : String) (method : MethodView) (groups : Assoc MethodView)
    → contains (slugs_in (insert slug method groups)) k
      ≡ (slug == k || contains (slugs_in groups) k)
insert-slugs slug k method [] = refl
insert-slugs slug k method ((j, w) ∷ groups) =
    ground (arith, eq_iff j slug, eq_iff j k, eq_iff slug k, insert-slugs slug k method groups)

insert-NoRepeats :
    (slug : String) (method : MethodView) (groups : Assoc MethodView)
    → NoRepeats (slugs_in groups)
    → NoRepeats (slugs_in (insert slug method groups))
insert-NoRepeats slug method [] h = (refl, tt)
insert-NoRepeats slug method ((j, w) ∷ groups) h = elim (Bool-cases (j == slug)) [
  | inl e ↦ rw e (rw (sym ((eq_iff j slug).0 e)) h.0, h.1)
  | inr e ↦ rw e (
    insert-slugs slug j method groups ∙ ground (arith, h.0, e, eq_iff j slug, eq_iff slug j),
    insert-NoRepeats slug method groups h.1,
  )
]

group-NoRepeats :
    (views : List FactView) (groups : Assoc MethodView)
    → NoRepeats (slugs_in groups)
    → NoRepeats (slugs_in (group_methods views groups))
unfolding group_methods
group-NoRepeats [] groups h = h
group-NoRepeats (view ∷ views) groups h = elim (Bool-cases (is_method view.subject_slug)) [
  | inl k ↦ rw k (
      group-NoRepeats views _
        (insert-NoRepeats view.subject_slug (cite view (lookup view.subject_slug groups)) groups h))
  | inr k ↦ rw k (group-NoRepeats views groups h)
]

-- The methods of a summary are one for each subject, and the method of a subject cites just the facts on this subject, each at its
-- place, where the subject is a process or a technology; there is a method for no other subject, and for
-- none on which there is no fact.
pub derive_methods_cited :
    (views : List FactView)
    → (groups : Assoc MethodView) × (derive_methods views ≡ methods_in groups)
      × NoRepeats (slugs_in groups)
      × ((slug : String)
          → citations_of (lookup slug groups) ≡ (if is_method slug then refs_of slug views else []))
      × ((slug : String)
          → (lookup slug groups ≡ none)
            ↔ ((if is_method slug then refs_of slug views else []) ≡ []))
unfolding derive_methods
derive_methods_cited views = (
  group_methods views [],
  refl,
  group-NoRepeats views [] tt,
  (λ slug. group_lem slug views []),
  λ slug.
      let (a, b) =
        none_iff (lookup slug (group_methods views [])) (group-cites slug views [] refl) in
      ((λ h. sym (group_lem slug views []) ∙ a h), (λ h. b (group_lem slug views [] ∙ h))),
)
