-- ===== src/Inference/Prompt/Budget.antt =====
-- service.go: the prompt budget, and what a runner must say to count as holding a model.
use woolwire.Base.{
  Bytes, List, [], arith, codes, err, if◌then◌else◌, leb_ℤ, ltb_ℤ, ok, pos, refl, some, true, ℕ,
  ◌+◌, ◌<◌, ◌↔◌, ◌∷◌, ◌≡◌, ◌≢◌, ◌≤◌, ◌⊎◌,
}
use woolwire.Inference.Prompt.{
  ChatMessage, HostedModelRecord, ThinkingLevel, level_text, parse_thinking_level, estimate_tokens,
  prompt_budget, minus, check_context_limit, context_limit_exceeded, RunnerHealth,
  runner_health_holds, thinking_default, thinking_off, thinking_low, thinking_medium, thinking_high,
}

-- Exactly the five levels are accepted, each as what it is.
pub parse_thinking_level_iff :
    (s : Bytes) (t : ThinkingLevel) → (parse_thinking_level s ≡ some t) ↔ (s ≡ level_text t)
unfolding parse_thinking_level
parse_thinking_level_iff s thinking_default = ground arith
parse_thinking_level_iff s thinking_off = ground arith
parse_thinking_level_iff s thinking_low = ground arith
parse_thinking_level_iff s thinking_medium = ground arith
parse_thinking_level_iff s thinking_high = ground arith

-- For a model with a context of c tokens that reserves m < c for the answer, a prompt passes
-- exactly if its estimate and m together are at most c.
pub check_context_limit_iff :
    (model : HostedModelRecord) (messages : List ChatMessage) (c m : ℕ)
    → model.context_limit ≡ pos c
    → model.max_tokens ≡ pos m
    → m < c
    → (check_context_limit (some model) messages ≡ ok tt) ↔ (estimate_tokens messages + m ≤ c)
unfolding check_context_limit prompt_budget
check_context_limit_iff model messages c m p q h = rw (p, q) (fits (estimate_tokens messages))
  where
    fits :
        (e : ℕ)
        → ((if leb_ℤ (pos c) (pos 0)
              then ok tt
              else if ltb_ℤ
                  (if leb_ℤ (minus (pos c) (pos m)) (pos 0) then pos c else minus (pos c) (pos m))
                  (pos e)
              then err (
                  context_limit_exceeded e (
                    if leb_ℤ (minus (pos c) (pos m)) (pos 0) then pos c else minus (pos c) (pos m)))
              else ok tt)
            ≡ ok tt)
          ↔ (e + m ≤ c)
    fits e = ground arith

-- What the runner must say to count as holding a model.
abbrev pub Holds : RunnerHealth → Bytes → Bytes → Type 0
Holds health model_id filename =
    (model_id ≢ [])
    × (health.loaded_model_id ≡ model_id)
    × ((health.status ≡ []) ⊎ ((health.status ≡ codes "ready") ⊎ (health.status ≡ codes "busy")))
    × ((health.loaded_file ≡ []) ⊎ (health.loaded_file ≡ filename))

-- What a runner reports counts as holding a model exactly if the model's identifier is not empty
-- and is the one reported, the status is missing, ready or busy, and the file is missing or the
-- model's own.
pub runner_health_holds_iff :
    (health : RunnerHealth) (model_id filename : Bytes)
    → (runner_health_holds (some health) model_id filename ≡ true) ↔ Holds health model_id filename
unfolding runner_health_holds
runner_health_holds_iff health [] filename = (λ h. cc, λ h. absurd (h.0 refl))
runner_health_holds_iff health (c ∷ cs) filename =
    (λ h. ((λ e. cc), ground arith, ground arith, ground arith), λ h. ground (arith, h.1, h.2, h.3))
