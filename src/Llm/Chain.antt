-- ===== src/Llm/Chain.antt =====
-- The chain of models of a task.
use nornickel_hackathon.Prelude.{
  ◌≤◌, ◌+◌, String, true, false, ◌&&◌, not, List, [], ◌∷◌, ◌++◌, length, ◌==◌, eq_iff, contains,
  All, NoRepeats, ◌≡◌, ◌≢◌, refl, arith, inl, inr, Bool-cases, contains-append, length-append,
}
use nornickel_hackathon.Llm.{LlmConfig, LlmTask, extend_chain, model_chain}

-- Each model of a chain is named, is on the allow list, and stands there once.
abbrev pub IsChain : LlmConfig → List String → Type 0
IsChain cfg chain = All (λ m. (m ≢ "") × (contains cfg.allowlist m ≡ true)) chain × NoRepeats chain

All-append_one :
    (P : String → Type 0) (xs : List String) (x : String) → All P xs → P x → All P (xs ++ x ∷ [])
All-append_one P [] x h p = (p, tt)
All-append_one P (y ∷ xs) x h p = (h.0, All-append_one P xs x h.1 p)

NoRepeats-append_one :
    (xs : List String) (x : String)
    → NoRepeats xs
    → contains xs x ≡ false
    → NoRepeats (xs ++ x ∷ [])
NoRepeats-append_one [] x h p = (refl, tt)
NoRepeats-append_one (y ∷ xs) x h p = (
  ground (arith, h.0, contains-append xs (x ∷ []) y, eq_iff x y, eq_iff y x),
  NoRepeats-append_one xs x h.1 (ground arith),
)

extend-IsChain :
    (cfg : LlmConfig) (chain : List String) (m : String)
    → IsChain cfg chain
    → IsChain cfg (extend_chain cfg chain m)
      × (length (extend_chain cfg chain m) ≤ length chain + 1)
unfolding extend_chain
extend-IsChain cfg chain m h =
    elim (Bool-cases (not (m == "") && contains cfg.allowlist m && not (contains chain m))) [
      | inl e ↦ rw e (
        (
          All-append_one _ chain m h.0 (ground (arith, eq_iff m ""), ground arith),
          NoRepeats-append_one chain m h.1 (ground arith),
        ),
        omega (arith, length-append chain (m ∷ [])),
      )
      | inr e ↦ rw e (h, omega arith)
    ]

-- The chain of a task has at most three models, each named and on the allow list, and none twice.
pub model_chain-IsChain :
    (cfg : LlmConfig) (task : LlmTask)
    → IsChain cfg (model_chain cfg task) × (length (model_chain cfg task) ≤ 3)
unfolding model_chain
model_chain-IsChain cfg task =
    let (c1, l1) = extend-IsChain cfg [] task.model (tt, tt) in
    let (c2, l2) = extend-IsChain cfg (extend_chain cfg [] task.model) task.fallback_model c1 in
    let (c3, l3) =
      extend-IsChain cfg (extend_chain cfg (extend_chain cfg [] task.model) task.fallback_model)
        task.escalate_model c2 in
    (c3, omega arith)
