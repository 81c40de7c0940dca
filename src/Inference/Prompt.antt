-- ===== src/Inference/Prompt.antt =====
-- service.go: what is settled before a request is admitted, and what the runner is asked for. The
-- records are those of internal/store/store.go and internal/hosting.
pub mod Budget
use woolwire.Base.{
  Bool, Bytes, List, Option, Result, [], add_ℤ, bytes_dec, codes, err, false, if◌then◌else◌,
  is_text, ite, leb_ℤ, length, ltb_ℤ, negsuc, none, not, ok, pos, some, sub_ℤ, suc, ℕ, ℤ, ◌&&◌, ◌*◌,
  ◌+◌, ◌-◌, ◌/◌, ◌==◌, ◌^◌, ◌||◌, ◌∷◌,
}
use woolwire.Inference.Limits.{RawLimits}

pub record ChatMessage : Type 0 where
  pub role : Bytes
  pub content : Bytes

pub record HostedModelRecord : Type 0 where
  pub id : Bytes
  pub name : Bytes
  pub model_type : Bytes
  pub endpoint_url : Bytes
  pub api_key : Bytes
  pub context_limit : ℤ
  pub max_tokens : ℤ
  pub enabled : Bool
  pub published : Bool
  pub revision : ℤ
  pub backend_model : Bytes
  pub allow_private_network : Bool
  pub filename : Bytes
  pub threads : ℤ
  pub gpu_layers : Option ℤ
  pub projector : Bytes
  pub draft_model : Bytes
  pub extra_args : List Bytes
  pub supports_thinking : Bool

pub record HostLimitsRecord : Type 0 where
  pub max_active : ℤ
  pub max_queued_per_member : ℤ
  pub max_queued_total : ℤ
  pub queue_timeout_seconds : ℤ
  pub execution_timeout_seconds : ℤ
  pub idle_unload_seconds : ℤ

pub data ThinkingLevel : Type 0 where
  thinking_default thinking_off thinking_low thinking_medium thinking_high : ThinkingLevel

-- The level as the string that it is in the source.
abbrev pub level_text : ThinkingLevel → Bytes
level_text thinking_default = []
level_text thinking_off = codes "off"
level_text thinking_low = codes "low"
level_text thinking_medium = codes "medium"
level_text thinking_high = codes "high"

unfoldable pub parse_thinking_level : Bytes → Option ThinkingLevel
parse_thinking_level s = ite (bytes_dec s []) (some thinking_default) (
    ite (bytes_dec s (codes "off")) (some thinking_off) (
      ite (bytes_dec s (codes "low")) (some thinking_low) (
        ite (bytes_dec s (codes "medium")) (some thinking_medium)
          (ite (bytes_dec s (codes "high")) (some thinking_high) none))))

-- The level as a `reasoning_effort`.
unfoldable pub effort : ThinkingLevel → Bytes
effort thinking_low = codes "low"
effort thinking_medium = codes "medium"
effort thinking_high = codes "high"
effort thinking_off = []
effort thinking_default = []

abbrev pub second : ℕ
second = 10 ^ 9

-- A number of seconds as a duration, in nanoseconds.
abbrev pub seconds : ℤ → ℤ
seconds (pos n) = pos (n * second)
seconds (negsuc n) = negsuc (suc n * second - 1)

abbrev pub idle_unload_never : ℤ
idle_unload_never = negsuc (second - 1)

unfoldable pub limits_from_record : HostLimitsRecord → RawLimits
limits_from_record l = record {
  max_active = l.max_active;
  max_queued_per_member = l.max_queued_per_member;
  max_queued_total = l.max_queued_total;
  queue_timeout = seconds l.queue_timeout_seconds;
  exec_timeout = seconds l.execution_timeout_seconds;
}

unfoldable pub idle_unload_from_record : HostLimitsRecord → ℤ
idle_unload_from_record l =
    if ltb_ℤ l.idle_unload_seconds (pos 0) then idle_unload_never else seconds l.idle_unload_seconds

abbrev pub chars_per_token : ℕ
chars_per_token = 4

-- The characters of the messages, with the framing of each.
unfoldable pub count_chars : List ChatMessage → ℕ
count_chars [] = 0
count_chars (m ∷ ms) = length m.content + length m.role + 4 + count_chars ms

unfoldable pub estimate_tokens : List ChatMessage → ℕ
unfolding count_chars
estimate_tokens messages = count_chars messages / chars_per_token

-- `a - b`
abbrev pub minus : ℤ → ℤ → ℤ
minus a (pos b) = sub_ℤ a b
minus a (negsuc b) = add_ℤ a (suc b)

-- The room for the prompt: what the answer leaves, or everything if it leaves nothing.
unfoldable pub prompt_budget : HostedModelRecord → ℤ
prompt_budget model =
    if leb_ℤ (minus model.context_limit model.max_tokens) (pos 0)
    then model.context_limit
    else minus model.context_limit model.max_tokens

pub data Error : Type 0 where
  context_limit_exceeded : ℕ → ℤ → Error
  model_unavailable runner_unavailable managed_model_config canceled : Error
  failed : Bytes → Error

unfoldable pub check_context_limit :
    Option HostedModelRecord → List ChatMessage → Result Error (Unit {0})
unfolding estimate_tokens prompt_budget
check_context_limit none messages = ok tt
check_context_limit (some model) messages =
    if leb_ℤ model.context_limit (pos 0)
    then ok tt
    else if ltb_ℤ (prompt_budget model) (pos (estimate_tokens messages))
    then err (context_limit_exceeded (estimate_tokens messages) (prompt_budget model))
    else ok tt

unfoldable pub backend_model_name : Option HostedModelRecord → Bytes
backend_model_name none = []
backend_model_name (some model) =
    if length model.backend_model == 0 then model.name else model.backend_model

pub record LoadRequest : Type 0 where
  pub model_id : Bytes
  pub filename : Bytes
  pub context_limit : ℤ
  pub threads : ℤ
  pub gpu_layers : Option ℤ
  pub projector : Bytes
  pub draft_model : Bytes
  pub extra_args : List Bytes

unfoldable pub load_request_for_model : Option HostedModelRecord → Result Error LoadRequest
load_request_for_model none = err managed_model_config
load_request_for_model (some model) =
    if length model.filename == 0
    then err managed_model_config
    else ok (record {
      model_id = model.id;
      filename = model.filename;
      context_limit = model.context_limit;
      threads = model.threads;
      gpu_layers = model.gpu_layers;
      projector = model.projector;
      draft_model = model.draft_model;
      extra_args = model.extra_args;
    })

-- What the runner says of itself, as far as the service reads it.
pub record RunnerHealth : Type 0 where
  pub status : Bytes
  pub loaded_model_id : Bytes
  pub loaded_file : Bytes

unfoldable pub runner_health_holds : Option RunnerHealth → Bytes → Bytes → Bool
runner_health_holds none model_id filename = false
runner_health_holds (some health) model_id filename =
    if length model_id == 0 || not (is_text health.loaded_model_id model_id)
    then false
    else if not (is_text health.status [])
        && not (is_text health.status (codes "ready"))
        && not (is_text health.status (codes "busy"))
    then false
    else is_text health.loaded_file [] || is_text health.loaded_file filename

unfoldable pub runner_health_matches_model : Option RunnerHealth → Option HostedModelRecord → Bool
unfolding runner_health_holds
runner_health_matches_model health none = false
runner_health_matches_model health (some model) = runner_health_holds health model.id model.filename
