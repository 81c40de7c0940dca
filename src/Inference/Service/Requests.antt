-- ===== src/Inference/Service/Requests.antt =====
-- service.go: `Execute`, from the model and the prompt to the queue, and what the slot then runs.
use woolwire.Base.{
  Bool, Bytes, List, Option, Result, codes, err, if◌then◌else◌, is_text, none, not, ok, some, ℤ,
}
use woolwire.Inference.Queue.{FairQueue, Admission, submit, set_limits}
use woolwire.Inference.Prompt.{
  ChatMessage, HostedModelRecord, HostLimitsRecord, ThinkingLevel, thinking_default, level_text,
  effort, limits_from_record, idle_unload_from_record, Error, model_unavailable,
  check_context_limit, backend_model_name,
}
use woolwire.Inference.Service.{Service, set_idle_unload, default_managed_idle_after}
use woolwire.Inference.Limits.{RawLimits, default_limits}

-- `hosting.ChatRequest`
pub record ChatRequest : Type 0 where
  pub endpoint_url : Bytes
  pub api_key : Bytes
  pub model : Bytes
  pub max_tokens : ℤ
  pub messages : List ChatMessage
  pub allow_private_network : Bool
  pub reasoning_effort : Bytes

-- What a slot runs: a stream of the runner, for the member and the model, or one of an external
-- endpoint.
pub data Work : Type 0 where
  managed_chat : Bytes → HostedModelRecord → Bytes → ℤ → List ChatMessage → Bytes → Work
  external_chat : ChatRequest → Work

unfoldable pub work_of : Bytes → HostedModelRecord → List ChatMessage → ThinkingLevel → Work
unfolding backend_model_name effort
work_of member_id model messages thinking =
    if is_text model.model_type (codes "managed")
    then managed_chat member_id model (backend_model_name (some model)) model.max_tokens messages
        (level_text thinking)
    else external_chat (record {
      endpoint_url = model.endpoint_url;
      api_key = model.api_key;
      model = backend_model_name (some model);
      max_tokens = model.max_tokens;
      messages = messages;
      allow_private_network = model.allow_private_network;
      reasoning_effort = effort thinking;
    })

-- The level that the model is sent: none at all for one that cannot reason.
abbrev pub allowed_thinking : HostedModelRecord → ThinkingLevel → ThinkingLevel
allowed_thinking model thinking = if model.supports_thinking then thinking else thinking_default

unfoldable pub execute_checked :
    FairQueue
    → Bytes
    → Bytes
    → Work
    → Result Error (Unit {0})
    → FairQueue × Result Error (Admission × Work)
unfolding submit
execute_checked q member_id request_id work (err e) = (q, err e)
execute_checked q member_id request_id work (ok _) =
    ((submit q member_id request_id).0, ok ((submit q member_id request_id).1, work))

-- `Execute`, as far as `Submit` goes before it waits.
unfoldable pub execute :
    FairQueue
    → Bytes
    → Bytes
    → Option HostedModelRecord
    → List ChatMessage
    → ThinkingLevel
    → FairQueue × Result Error (Admission × Work)
unfolding execute_checked work_of check_context_limit
execute q member_id request_id none messages thinking = (q, err model_unavailable)
execute q member_id request_id (some model) messages thinking =
    if not model.enabled
    then (q, err model_unavailable)
    else execute_checked q member_id request_id
        (work_of member_id model messages (allowed_thinking model thinking))
        (check_context_limit (some model) messages)

-- `ReloadLimits`, and the settings of `NewService`, where the store has limits or none.
unfoldable pub reload_limits : Option HostLimitsRecord → FairQueue → Service → FairQueue × Service
unfolding set_limits set_idle_unload limits_from_record idle_unload_from_record
reload_limits none q s = (q, s)
reload_limits (some l) q s =
    (set_limits q (limits_from_record l), set_idle_unload (idle_unload_from_record l) s)

abbrev pub settings : Option HostLimitsRecord → RawLimits × ℤ
settings none = (default_limits, default_managed_idle_after)
settings (some l) = (limits_from_record l, idle_unload_from_record l)
