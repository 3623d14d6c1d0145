-- ===== src/Llm/Calls.antt =====
-- Which models a completion calls, and how often.
use nornickel_hackathon.Prelude.{
  ℕ, zero, suc, ◌≤◌, ◌+◌, ◌*◌, String, Bool, true, false, ◌&&◌, ◌||◌, not, Option, none, some, List,
  [], ◌∷◌, ◌++◌, length, ◌==◌, eq_iff, contains, All, ◌≡◌, ◌≢◌, refl, arith, inl, inr, Bool-cases,
  length-append, Result, ok, err, lookup, ok-injective, ◌∙◌, ap, sym,
}
use mathlib.Core.List.{append_assoc}
use nornickel_hackathon.Llm.{
  LlmConfig, LlmTask, LlmError, ChatResult, Completion, Calls, model_chain, after_call, attempt,
  after_model, complete_chain, complete_task, complete_found, complete, no_error, empty_response,
}
use nornickel_hackathon.Llm.Chain.{IsChain, model_chain-IsChain}

-- The calls `after` are those `before` and at most `n` more, each of a model with `P`.
abbrev pub Added : (String → Type 0) → ℕ → List String → List String → Type 0
Added P n before after =
    (more : List String) × (after ≡ more ++ before) × All P more × (length more ≤ n)

Added-weaken :
    {P : String → Type 0} {m n : ℕ} {before after : List String}
    → m ≤ n
    → Added P m before after
    → Added P n before after
Added-weaken h (more, e, a, l) = (more, e, a, omega arith)

All-append : (P : String → Type 0) (xs ys : List String) → All P xs → All P ys → All P (xs ++ ys)
All-append P [] ys h k = k
All-append P (x ∷ xs) ys h k = (h.0, All-append P xs ys h.1 k)

Added-trans :
    {P : String → Type 0} {m n : ℕ} {a b c : List String}
    → Added P m a b
    → Added P n b c
    → Added P (m + n) a c
Added-trans {P} {m} {n} {a} {b} {c} (more, e, x, l) (more', e', x', l') = (
  more' ++ more,
  e' ∙ ap (λ z. more' ++ z) e ∙ sym (append_assoc more' more a),
  All-append P more' more x' x,
  omega (arith, length-append more' more),
)

Added-none : {P : String → Type 0} {n : ℕ} {a : List String} → Added P n a a
Added-none = ([], refl, tt, omega arith)

Added-one :
    {P : String → Type 0} {n : ℕ} {m : String} {a c : List String}
    → P m
    → Added P n (m ∷ a) c
    → Added P (suc n) a c
Added-one {P} {m = m} {a = a} p (more, e, x, l) = (
  more ++ m ∷ [],
  e ∙ sym (append_assoc more (m ∷ []) a),
  All-append P more (m ∷ []) x (p, tt),
  omega (arith, length-append more (m ∷ [])),
)

module _ (client : List String → String → Result LlmError ChatResult) (done : List String → Bool)
    (is_valid_json : String → Bool) where
  attempt-Added :
      (P : String → Type 0) (n : ℕ) (retry : Bool) (e : LlmError) (model : String)
      (called : List String)
      → P model
      → Added P n called (attempt client done is_valid_json n retry e model called).1
  unfolding attempt
  attempt-Added P zero retry e model called h = Added-none
  attempt-Added P (suc n) retry e model called h = elim (Bool-cases (retry && done called)) [
    | inl stop ↦ rw stop Added-none
    | inr on ↦
        rw on (go (client called model) (λ x. attempt-Added P n true x model (model ∷ called) h))
  ]
    where
      go :
          (r : Result LlmError ChatResult)
          → ((x : LlmError)
              → Added P n
                  (model ∷ called)
                  (attempt client done is_valid_json n true x model (model ∷ called)).1)
          → Added P
              (suc n)
              called
              (after_call client done is_valid_json
                (model ∷ called)
                r
                (λ x. attempt client done is_valid_json n true x model (model ∷ called))).1
      go (ok chat) ih = Added-one h Added-none
      go (err x) ih = elim (Bool-cases (done (model ∷ called))) [
        | inl stop ↦ rw stop (Added-one h Added-none)
        | inr on ↦ rw on (Added-one h (ih x))
      ]

  after_model-Added :
      (P : String → Type 0) (n : ℕ) (task : LlmTask) (before : List String) (r : Calls ChatResult)
      (rest : LlmError → List String → Calls Completion)
      → Added P 2 before r.1
      → ((e : LlmError) (called : List String) → Added P n called (rest e called).1)
      → Added P (2 + n) before (after_model client done is_valid_json task r rest).1
  unfolding after_model
  after_model-Added P n task before (err e, called) rest h ih = Added-trans h (ih e called)
  after_model-Added P n task before (ok chat, called) rest h ih =
      elim (Bool-cases (chat.content == "")) [
        | inl e ↦ rw e (Added-trans h (ih empty_response called))
        | inr e ↦ rw e (Added-weaken (omega arith) h)
      ]

  chain-Added :
      (P : String → Type 0) (task : LlmTask) (models : List String) (e : LlmError)
      (called : List String)
      → All P models
      → Added P
          (2 * length models)
          called
          (complete_chain client done is_valid_json task models e called).1
  unfolding complete_chain
  chain-Added P task [] e called h = Added-none
  chain-Added P task (m ∷ models) e called h = Added-weaken (omega arith) (
      after_model-Added P (2 * length models) task called
        (attempt client done is_valid_json 2 false no_error m called)
        (λ x called'. complete_chain client done is_valid_json task models x called')
        (attempt-Added P 2 false no_error m called h.0)
        (λ x called'. chain-Added P task models x called' h.1))

  -- A completion makes at most six calls, each of a model that is named and on the allow list,
  -- whatever the client answers and whenever the request is cancelled.
  pub complete_calls :
      (cfg : LlmConfig) (task : String)
      → Added
          (λ m. (m ≢ "") × (contains cfg.allowlist m ≡ true))
          6
          []
          (complete client done is_valid_json cfg task []).1
  unfolding complete
  complete_calls cfg task = found (lookup task cfg.tasks)
    where
      chained :
          (t : LlmTask) (models : List String)
          → IsChain cfg models
          → length models ≤ 3
          → Added
              (λ m. (m ≢ "") × (contains cfg.allowlist m ≡ true))
              6
              []
              (complete_task client done is_valid_json t models []).1
      chained t [] c l = Added-none
      chained t (m ∷ models) c l =
          Added-weaken (omega arith) (chain-Added _ t (m ∷ models) no_error [] c.0)

      found :
          (o : Option LlmTask)
          → Added
              (λ m. (m ≢ "") × (contains cfg.allowlist m ≡ true))
              6
              []
              (complete_found client done is_valid_json cfg o []).1
      found none = Added-none
      found (some t) = let (c, l) = model_chain-IsChain cfg t in chained t (model_chain cfg t) c l

  IsResult : LlmTask → Completion → Type 0
  IsResult t c =
      (c.content ≢ "") × (c.is_json ≡ t.json) × (c.valid ≡ (not t.json || is_valid_json c.content))

  after_model-IsResult :
      (t : LlmTask) (r : Calls ChatResult) (rest : LlmError → List String → Calls Completion)
      {c : Completion}
      → ((e : LlmError) (called : List String) → (rest e called).0 ≡ ok c → IsResult t c)
      → (after_model client done is_valid_json t r rest).0 ≡ ok c
      → IsResult t c
  unfolding after_model IsResult
  after_model-IsResult t (err e, called) rest ih h = ih e called h
  after_model-IsResult t (ok chat, called) rest {c} ih h = elim (Bool-cases (chat.content == "")) [
    | inl e ↦ ih empty_response called (rw e at h)
    | inr e ↦ ground (arith, ok-injective (rw e at h), eq_iff chat.content "")
  ]

  chain-IsResult :
      (t : LlmTask) (models : List String) (e : LlmError) (called : List String) {c : Completion}
      → (complete_chain client done is_valid_json t models e called).0 ≡ ok c
      → IsResult t c
  unfolding complete_chain
  chain-IsResult t [] e called h = cc
  chain-IsResult t (m ∷ models) e called h =
      after_model-IsResult t (attempt client done is_valid_json 2 false no_error m called)
        (λ x called'. complete_chain client done is_valid_json t models x called')
        (λ x called' k. chain-IsResult t models x called' k) h

  -- A completion that is returned has a content, is marked by the task as JSON or not, and is valid
  -- just where no JSON was asked for or the content is JSON.
  pub complete_result :
      (cfg : LlmConfig) (task : String) (called : List String) {c : Completion}
      → (complete client done is_valid_json cfg task called).0 ≡ ok c
      → (t : LlmTask) × (lookup task cfg.tasks ≡ some t)
        × (c.content ≢ "")
        × (c.is_json ≡ t.json)
        × (c.valid ≡ (not t.json || is_valid_json c.content))
  unfolding complete IsResult
  complete_result cfg task called {c} h = found (lookup task cfg.tasks) refl h
    where
      chained :
          (t : LlmTask) (models : List String)
          → (complete_task client done is_valid_json t models called).0 ≡ ok c
          → IsResult t c
      chained t [] k = cc
      chained t (m ∷ models) k = chain-IsResult t (m ∷ models) no_error called k

      found :
          (o : Option LlmTask)
          → lookup task cfg.tasks ≡ o
          → (complete_found client done is_valid_json cfg o called).0 ≡ ok c
          → (t : LlmTask) × (lookup task cfg.tasks ≡ some t)
            × (c.content ≢ "")
            × (c.is_json ≡ t.json)
            × (c.valid ≡ (not t.json || is_valid_json c.content))
      found none e k = cc
      found (some t) e k = let (a, b, d) = chained t (model_chain cfg t) k in (t, e, a, b, d)
