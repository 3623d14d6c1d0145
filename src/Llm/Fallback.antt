-- ===== src/Llm/Fallback.antt =====
-- The client over several providers (adapters/openai/fallback.go). The providers' own clients are
-- arguments of the model, held in the record of the provider; the request is cancelled where
-- `done` says so of the providers called, the latest first.
use nornickel_hackathon.Prelude.{
  String, Bool, Option, none, some, List, [], ◌∷◌, ◌≡◌, refl, if◌then◌else◌, lookup, Assoc, Result,
  ok, err, Bool-cases, inl, inr, All, subst, ok-injective,
}
use nornickel_hackathon.Llm.{LlmError, ChatResult, model_not_allowed, cancelled}

pub record Provider : Type 0 where
  pub name : String
  pub client : String → Result LlmError ChatResult
  pub models : Assoc String

unfoldable pub resolve : Provider → String → Option String
resolve p model = elim p.models [ [] ↦ some model | m ∷ ms ↦ lookup model (m ∷ ms) ]

-- A call to a provider: its name and the model that it was asked for.
abbrev pub Served : Type 0
Served = List (String × String)

-- `NewFallback`
unfoldable pub new_fallback : List Provider → Option (List Provider)
new_fallback [] = none
new_fallback (p ∷ ps) = some (p ∷ ps)

-- The error at the end of the loop.
unfoldable pub last_error : Option LlmError → LlmError
last_error none = model_not_allowed
last_error (some e) = e

err≢ok : {e : LlmError} {r : ChatResult} → ◌≡◌ {A = Result LlmError ChatResult} (err e) (ok r) → ⊥
err≢ok h = cc

module _ (done : Served → Bool) where
  unfoldable pub after_provider :
      Served
      → Result LlmError ChatResult
      → (LlmError → Result LlmError ChatResult × Served)
      → Result LlmError ChatResult × Served
  after_provider served (ok r) rest = (ok r, served)
  after_provider served (err e) rest = if done served then (err cancelled, served) else rest e

  unfoldable pub try_provider :
      Provider
      → Option String
      → Served
      → (Option LlmError → Served → Result LlmError ChatResult × Served)
      → Option LlmError
      → Result LlmError ChatResult × Served
  unfolding after_provider
  try_provider p none served rest last = rest last served
  try_provider p (some model) served rest last =
      after_provider ((p.name, model) ∷ served) (p.client model)
        (λ e. rest (some e) ((p.name, model) ∷ served))

  -- The loop of `Complete`.
  unfoldable pub complete_from :
      List Provider → String → Option LlmError → Served → Result LlmError ChatResult × Served
  unfolding try_provider last_error
  complete_from [] model last served = (err (last_error last), served)
  complete_from (p ∷ ps) model last served =
      try_provider p (resolve p model) served
        (λ last' served'. complete_from ps model last' served') last

  -- A provider decides a request if it has the model and its client answers.
  pub data Answers (model : String) : List Provider → ChatResult → Type 0 where
    here :
        {p : Provider} {ps : List Provider} {m : String} {r : ChatResult}
        → resolve p model ≡ some m
        → p.client m ≡ ok r
        → Answers model (p ∷ ps) r
    lacks :
        {p : Provider} {ps : List Provider} {r : ChatResult}
        → resolve p model ≡ none
        → Answers model ps r
        → Answers model (p ∷ ps) r
    fails :
        {p : Provider} {ps : List Provider} {m : String} {e : LlmError} {r : ChatResult}
        → resolve p model ≡ some m
        → p.client m ≡ err e
        → Answers model ps r
        → Answers model (p ∷ ps) r

  -- A result comes from the first provider that has the model and answers: those before it lack
  -- the model or fail.
  pub complete_from-Answers :
      (ps : List Provider) (model : String) (last : Option LlmError) (served : Served)
      {r : ChatResult}
      → (complete_from ps model last served).0 ≡ ok r
      → Answers model ps r
  unfolding complete_from
  complete_from-Answers [] model last served h = cc
  complete_from-Answers (p ∷ ps) model last served {r} h =
      go (λ l s. complete_from ps model l s) (resolve p model) refl
        (λ l s k. complete_from-Answers ps model l s k) h
    where
      called :
          (m : String) (a : Result LlmError ChatResult) (s : Served)
          (rest : LlmError → Result LlmError ChatResult × Served)
          → resolve p model ≡ some m
          → p.client m ≡ a
          → ((e : LlmError) → (rest e).0 ≡ ok r → Answers model ps r)
          → (after_provider s a rest).0 ≡ ok r
          → Answers model (p ∷ ps) r
      called m (ok x) s rest e f ih k = subst (Answers model (p ∷ ps)) (ok-injective k) (here e f)
      called m (err x) s rest e f ih k = elim (Bool-cases (done s)) [
        | inl stop ↦ absurd (err≢ok (rw stop at k))
        | inr on ↦ fails e f (ih x (rw on at k))
      ]

      go :
          (rest : Option LlmError → Served → Result LlmError ChatResult × Served)
          (o : Option String)
          → resolve p model ≡ o
          → ((l : Option LlmError) (s : Served) → (rest l s).0 ≡ ok r → Answers model ps r)
          → (try_provider p o served rest last).0 ≡ ok r
          → Answers model (p ∷ ps) r
      go rest none e ih k = lacks e (ih last served k)
      go rest (some m) e ih k =
          called m (p.client m) ((p.name, m) ∷ served) (λ x. rest (some x) ((p.name, m) ∷ served)) e
            refl (λ x. ih (some x) ((p.name, m) ∷ served)) k

  -- Where no provider has the model, the request is refused as a model that is not allowed, and no
  -- provider is called.
  pub no_provider :
      (ps : List Provider) (model : String)
      → All (λ p. resolve p model ≡ none) ps
      → complete_from ps model none [] ≡ (err model_not_allowed, [])
  unfolding complete_from
  no_provider [] model h = refl
  no_provider (p ∷ ps) model h = rw h.0 (no_provider ps model h.1)
