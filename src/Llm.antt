-- ===== src/Llm.antt =====
-- internal/llm: the chain of models for a task with its retries (app/service.go), and the client
-- that falls back from one provider to the next (adapters/openai/fallback.go, in `Llm.Fallback`).
--
-- The chat client is an argument: a call is given the models called before, the latest first, so
-- that its answer may differ from call to call. Whether the request is cancelled is a function of
-- that list too. Delays are not modelled, so that a cancellation during the delay before a call is one
-- that the call itself finds.
pub mod Chain
pub mod Calls
pub mod Fallback
use nornickel_hackathon.Prelude.{
  ℕ, zero, suc, String, Bool, true, false, ◌&&◌, ◌||◌, not, Option, none, some, List, [], ◌∷◌, ◌++◌,
  length, ◌==◌, if◌then◌else◌, contains, lookup, Assoc, Result, ok, err,
}

pub data LlmError : Type 0 where
  provider_not_configured unknown_task model_not_allowed empty_response cancelled : LlmError
  -- an error of the client, with its text
  client_error : String → LlmError

pub record LlmTask : Type 0 where
  pub model : String
  pub fallback_model : String
  pub escalate_model : String
  pub json : Bool

pub record LlmConfig : Type 0 where
  pub default_provider : String
  pub providers : List String
  pub tasks : Assoc LlmTask
  pub allowlist : List String

pub record ChatResult : Type 0 where
  pub content : String
  pub model : String
  pub input_tokens : ℕ
  pub output_tokens : ℕ

pub record Completion : Type 0 where
  pub content : String
  pub model : String
  pub input_tokens : ℕ
  pub output_tokens : ℕ
  pub is_json : Bool
  pub valid : Bool

-- Go's nil error, before the first attempt; no attempt returns it, since one is always made.
abbrev pub no_error : LlmError
no_error = client_error ""

abbrev pub max_attempts_per_model : ℕ
max_attempts_per_model = 2

-- `New`, whose service has just the configuration
unfoldable pub new_service : LlmConfig → Result LlmError LlmConfig
new_service cfg =
    if cfg.default_provider == ""
    then err provider_not_configured
    else if contains cfg.providers cfg.default_provider
    then ok cfg
    else err provider_not_configured

-- One round of the loop of `modelChain`.
unfoldable pub extend_chain : LlmConfig → List String → String → List String
extend_chain cfg chain model =
    if not (model == "") && contains cfg.allowlist model && not (contains chain model)
    then chain ++ model ∷ []
    else chain

unfoldable pub model_chain : LlmConfig → LlmTask → List String
unfolding extend_chain
model_chain cfg task =
    extend_chain cfg (extend_chain cfg (extend_chain cfg [] task.model) task.fallback_model)
      task.escalate_model

-- An outcome and the models called up to then, the latest first.
abbrev pub Calls : Type 0 → Type 0
Calls A = Result LlmError A × List String

module _ (client : List String → String → Result LlmError ChatResult) (done : List String → Bool)
    (is_valid_json : String → Bool) where
  -- What follows a call in `attempt`; `rest` is the attempts that are left, given the last error.
  unfoldable pub after_call :
      List String → Result LlmError ChatResult → (LlmError → Calls ChatResult) → Calls ChatResult
  after_call called (ok chat) rest = (ok chat, called)
  after_call called (err e) rest = if done called then (err cancelled, called) else rest e

  -- `attempt`, with the attempts left and the last error. A retry waits first, and the wait ends
  -- early where the request is cancelled.
  unfoldable pub attempt : ℕ → Bool → LlmError → String → List String → Calls ChatResult
  unfolding after_call
  attempt zero retry last_err model called = (err last_err, called)
  attempt (suc n) retry last_err model called =
      let rest = λ (e : LlmError). attempt n true e model (model ∷ called) in
      if retry && done called
      then (err cancelled, called)
      else after_call (model ∷ called) (client called model) rest

  unfoldable pub completion : LlmTask → ChatResult → Completion
  completion task chat = record {
    content = chat.content;
    model = chat.model;
    input_tokens = chat.input_tokens;
    output_tokens = chat.output_tokens;
    is_json = task.json;
    valid = not task.json || is_valid_json chat.content;
  }

  -- What follows the attempts with one model in `Complete`.
  unfoldable pub after_model :
      LlmTask → Calls ChatResult → (LlmError → List String → Calls Completion) → Calls Completion
  unfolding completion
  after_model task (err e, called) rest = rest e called
  after_model task (ok chat, called) rest =
      if chat.content == "" then rest empty_response called else (ok (completion task chat), called)

  -- The loop of `Complete` over the chain of models.
  unfoldable pub complete_chain : LlmTask → List String → LlmError → List String → Calls Completion
  unfolding after_model attempt
  complete_chain task [] last_err called = (err last_err, called)
  complete_chain task (model ∷ models) last_err called =
      after_model task (attempt max_attempts_per_model false no_error model called)
        (λ e called'. complete_chain task models e called')

  unfoldable pub complete_task : LlmTask → List String → List String → Calls Completion
  unfolding complete_chain
  complete_task task [] called = (err model_not_allowed, called)
  complete_task task (m ∷ ms) called = complete_chain task (m ∷ ms) no_error called

  unfoldable pub complete_found : LlmConfig → Option LlmTask → List String → Calls Completion
  unfolding complete_task model_chain
  complete_found cfg none called = (err unknown_task, called)
  complete_found cfg (some task) called = complete_task task (model_chain cfg task) called

  unfoldable pub complete : LlmConfig → String → List String → Calls Completion
  unfolding complete_found
  complete cfg task called = complete_found cfg (lookup task cfg.tasks) called
