-- ===== src/Witnesses/OfLlm.antt =====
-- Witnesses of the chain of models and of the providers.
use nornickel_hackathon.Prelude.{
  String, Bool, true, false, none, List, [], ◌∷◌, contains, ◌==◌, if◌then◌else◌, ◌≡◌, ◌≢◌, refl,
  Result, ok, err,
}
use nornickel_hackathon.Llm.{LlmError, LlmTask, LlmConfig, ChatResult, client_error, complete}
use nornickel_hackathon.Llm.Calls.{Added, complete_calls}
use nornickel_hackathon.Llm.Fallback.{
  Provider, Answers, resolve, try_provider, after_provider, complete_from, complete_from-Answers,
}

abbrev plan_task : LlmTask
plan_task = record { model = "a"; fallback_model = "b"; escalate_model = "a"; json = true }

abbrev config : LlmConfig
config = record {
  default_provider = "p";
  providers = "p" ∷ [];
  tasks = ("plan", plan_task) ∷ [];
  allowlist = "a" ∷ "b" ∷ [];
}

abbrev chat : ChatResult
chat = record { content = "yes"; model = "b"; input_tokens = 3; output_tokens = 1 }

-- The model "a" fails, and "b" answers.
abbrev client : List String → String → Result LlmError ChatResult
client called model = if model == "a" then err (client_error "busy") else ok chat

abbrev never : List String → Bool
never called = false

abbrev no_json : String → Bool
no_json content = false

complete_calls_example :
    Added
      (λ m. (m ≢ "") × (contains config.allowlist m ≡ true))
      6
      []
      (complete client never no_json config "plan" []).1
complete_calls_example = complete_calls client never no_json config "plan"

abbrev providers : List Provider
providers =
    record { name = "p"; client = λ m. err (client_error "busy"); models = [] }
    ∷ record { name = "q"; client = λ m. ok chat; models = ("a", "b") ∷ [] }
    ∷ []

providers_complete : (complete_from (λ s. false) providers "a" none []).0 ≡ ok chat
unfolding complete_from try_provider after_provider resolve
providers_complete = refl

complete_from-Answers_example : Answers (λ s. false) "a" providers chat
complete_from-Answers_example =
    complete_from-Answers (λ s. false) providers "a" none [] providers_complete
