-- ===== src/Runner/Controller/Requests.antt =====
-- controller.go: the requests for inference, from the checks to the count of what became of each.
use mathlib.Core.List.{reverse}
use woolwire.Base.{
  Bool, Bytes, List, Option, Result, [], all, codes, err, fail_if, false, if◌then◌else◌, is_text,
  length, none, not, ok, pos, some, suc, true, ℤ, ◌&&◌, ◌==◌, ◌>>◌, ◌||◌, ◌∷◌,
}
use woolwire.Community.Sanitize.{strip_prefix}
use woolwire.Inference.Prompt.{ChatMessage, minus}
use woolwire.Runner.Controller.{
  EngineArgs, Controller, status_ready, status_busy, is_status_ready, is_status_busy, Launch,
  launch_engine,
}
use woolwire.Runner.Controller.Handlers.{
  Error, messages_required, unsupported_role, no_model_loaded, other_model_loaded, restarted,
}

pub record InferenceRequest : Type 0 where
  pub model : Bytes
  pub model_id : Bytes
  pub messages : List ChatMessage
  pub max_tokens : ℤ
  pub requester_member_id : Bytes
  pub thinking : Bytes

abbrev pub is_role : ChatMessage → Bool
is_role m =
    is_text m.role (codes "system")
    || is_text m.role (codes "user")
    || is_text m.role (codes "assistant")

-- `strings.TrimSuffix(s, ".gguf")`
unfoldable pub trim_gguf : Bytes → Bytes
unfolding strip_prefix
trim_gguf s = elim (strip_prefix (codes "fugg.") (reverse s)) [
  | some rest ↦ reverse rest
  | none ↦ s
]

abbrev pub is_named : Bytes → Bool
is_named s = not (length s == 0)

-- The request is for the model that is loaded.
unfoldable pub is_for_loaded : InferenceRequest → EngineArgs → Bool
unfolding trim_gguf
is_for_loaded req loaded =
    if is_named req.model_id
    then is_text req.model_id loaded.model_id
    else not (is_named req.model)
      || is_text req.model loaded.model_id
      || is_text req.model loaded.filename
      || is_text req.model (trim_gguf loaded.filename)

unfoldable pub check_inference : InferenceRequest → Controller → Result Error (Unit {0})
unfolding is_for_loaded
check_inference req c = do
  fail_if (length req.messages == 0) messages_required
  fail_if (not (all is_role req.messages)) unsupported_role
  fail_if (not (is_status_ready c.status) || not (is_named c.loaded.model_id)) no_model_loaded
  fail_if (not (is_for_loaded req c.loaded)) other_model_loaded
  ok tt

unfoldable pub needs_restart : InferenceRequest → Controller → Bool
needs_restart req c =
    is_named req.requester_member_id
    && is_named c.last_requester
    && not (is_text req.requester_member_id c.last_requester)

-- The request is handed to the engine.
unfoldable pub begin_request : InferenceRequest → Controller → Controller
begin_request req c = record c {
  last_requester = req.requester_member_id;
  active_request = some req.model;
  status = status_busy;
  sessions = req.requester_member_id ∷ c.sessions;
}

-- A usage object of the stream: the tokens of the prompt and of the answer.
unfoldable pub record_usage : List (ℤ × ℤ) → Controller → Controller
record_usage [] c = c
record_usage ((prompt, completion) ∷ more) c = record_usage more (record c {
  last_prompt_tokens = some prompt;
  last_completion_tokens = some completion;
  current_context_tokens = some prompt;
  prompt_tokens = minus c.prompt_tokens (minus (pos 0) prompt);
  completion_tokens = minus c.completion_tokens (minus (pos 0) completion);
})

pub data Outcome : Type 0 where
  completed cancelled failed : Outcome

unfoldable pub count_outcome : Outcome → Controller → Controller
count_outcome completed c = record c { requests_completed = suc c.requests_completed }
count_outcome cancelled c = record c { requests_cancelled = suc c.requests_cancelled }
count_outcome failed c = record c { requests_failed = suc c.requests_failed }

unfoldable pub end_request : Outcome → Controller → Controller
unfolding count_outcome
end_request outcome c = count_outcome outcome (record c {
  active_request = none;
  status = if is_status_busy c.status then status_ready else c.status;
})

unfoldable pub answer_request :
    Outcome
    → List (ℤ × ℤ)
    → InferenceRequest
    → Controller × Result Error Bool
    → Controller × Result Error (Unit {0})
unfolding begin_request record_usage end_request
answer_request outcome usages req (c, err e) = (c, err e)
answer_request outcome usages req (c, ok _) =
    (end_request outcome (record_usage usages (begin_request req c)), ok tt)

unfoldable pub inference_checked :
    (EngineArgs → Launch)
    → Outcome
    → List (ℤ × ℤ)
    → InferenceRequest
    → Controller
    → Result Error (Unit {0})
    → Controller × Result Error (Unit {0})
unfolding answer_request needs_restart launch_engine restarted
inference_checked launch outcome usages req c (err e) = (c, err e)
inference_checked launch outcome usages req c (ok _) = answer_request outcome usages req (
    if needs_restart req c
    then restarted (launch_engine (launch c.loaded) c.loaded c)
    else (c, ok false))

unfoldable pub handle_inference :
    (EngineArgs → Launch)
    → Outcome
    → List (ℤ × ℤ)
    → InferenceRequest
    → Controller
    → Controller × Result Error (Unit {0})
unfolding check_inference inference_checked
handle_inference launch outcome usages req c =
    inference_checked launch outcome usages req c (check_inference req c)

-- What a level sets: the template's switch for thinking, and the effort where there is one.
unfoldable pub thinking_payload : Bytes → Option (Bool × Option Bytes)
thinking_payload level =
    if length level == 0
    then none
    else if is_text level (codes "off")
    then some (false, none)
    else if is_text level (codes "low")
        || is_text level (codes "medium")
        || is_text level (codes "high")
    then some (true, some level)
    else none
