-- ===== src/Blob/Memory.antt =====
-- The store in memory against a map from bucket and key to an object.
use nornickel_hackathon.Prelude.{
  ℕ, String, Bool, true, false, ◌&&◌, Option, none, some, List, ◌==◌, eq_iff, if◌then◌else◌, lookup,
  insert, lookup-insert, Assoc, ok, err, ◌≡◌, ◌↔◌, inl, inr, refl, ap, ◌∙◌, arith, Bool-cases,
  Option-cases,
}
use nornickel_hackathon.Blob.{
  MemStore, objects_in, ensure_bucket, put, is_there, uri, read_failed, exists, exists_in, get,
  get_from, found_object,
}

-- The object that a store has under a bucket and a key.
abbrev pub object_of : MemStore → String → String → Option (List ℕ)
object_of store bucket key = lookup key (objects_in (lookup bucket store))

read_lem :
    (key : String) (o : Option (Assoc (List ℕ)))
    → (exists_in key o ≡ is_there (lookup key (objects_in o)))
      × ((body : List ℕ) → (get_from key o ≡ ok body) ↔ (lookup key (objects_in o) ≡ some body))
unfolding exists_in objects_in get_from found_object is_there
read_lem key none = (refl, λ body. ground arith)
read_lem key (some objects) = (
  refl,
  λ body. elim (Option-cases (lookup key objects)) [
    | inl e ↦ rw e (ground arith)
    | inr (b, e) ↦ rw e ((λ h. cc), (λ h. cc))
  ],
)

insert_lem :
    (store : MemStore) (b bucket key : String) (objects : Assoc (List ℕ))
    → object_of (insert b objects store) bucket key
      ≡ (if b == bucket then lookup key objects else object_of store bucket key)
unfolding objects_in
insert_lem store b bucket key objects = elim (Bool-cases (b == bucket)) [
  | inl e ↦ rw (lookup-insert b bucket objects store) (rw e refl)
  | inr e ↦ rw (lookup-insert b bucket objects store) (rw e refl)
]

inner_lem :
    (k key : String) (body : List ℕ) (objects : Assoc (List ℕ)) (same : Bool)
    (old : Option (List ℕ))
    → (same ≡ true → lookup key objects ≡ old)
    → (if same then lookup key (insert k body objects) else old)
      ≡ (if same && k == key then some body else old)
inner_lem k key body objects true old h = rw (lookup-insert k key body objects) (rw (h refl) refl)
inner_lem k key body objects false old h = refl

put_lem :
    (store : MemStore) (bucket key b k : String) (body : Option (List ℕ))
    → object_of (put b k body store).1 bucket key
      ≡ (if is_there body && b == bucket && k == key then body else object_of store bucket key)
unfolding put is_there
put_lem store bucket key b k none = refl
put_lem store bucket key b k (some body) =
    insert_lem store b bucket key (insert k body (objects_in (lookup b store)))
    ∙ inner_lem k key body (objects_in (lookup b store)) (b == bucket) (object_of store bucket key)
        (λ e. ap (λ (n : String). lookup key (objects_in (lookup n store))) ((eq_iff b bucket).0 e))

put_result :
    (b k : String) (store : MemStore) (body : Option (List ℕ))
    → (put b k body store).0 ≡ (if is_there body then ok (uri b k) else err read_failed)
unfolding put is_there
put_result b k store none = refl
put_result b k store (some body) = refl

ensure_lem :
    (store : MemStore) (bucket key b : String)
    → object_of (ensure_bucket b store) bucket key ≡ object_of store bucket key
unfolding ensure_bucket
ensure_lem store bucket key b =
    insert_lem store b bucket key (objects_in (lookup b store)) ∙ elim (Bool-cases (b == bucket)) [
      | inl e ↦
          rw e
            (ap (λ (n : String). lookup key (objects_in (lookup n store))) ((eq_iff b bucket).0 e))
      | inr e ↦ rw e refl
    ]

-- The store in memory is a map from bucket and key to an object: `Get` reads it and `Exists` tells
-- whether it has an entry, a `Put` whose reader succeeds returns the address of its entry and changes just that one, one whose reader
-- fails returns an error and changes nothing, and a bucket that is ensured changes no entry.
pub mem_store_refines :
    (store : MemStore) (bucket key b k : String) (body : Option (List ℕ))
    → (exists bucket key store ≡ is_there (object_of store bucket key))
      × ((d : List ℕ) → (get bucket key store ≡ ok d) ↔ (object_of store bucket key ≡ some d))
      × ((put b k body store).0 ≡ (if is_there body then ok (uri b k) else err read_failed))
      × (object_of (put b k body store).1 bucket key
          ≡ (if is_there body && b == bucket && k == key then body else object_of store bucket key))
      × (object_of (ensure_bucket b store) bucket key ≡ object_of store bucket key)
unfolding exists get put ensure_bucket is_there
mem_store_refines store bucket key b k body = (
  (read_lem key (lookup bucket store)).0,
  (read_lem key (lookup bucket store)).1,
  put_result b k store body,
  put_lem store bucket key b k body,
  ensure_lem store bucket key b,
)
