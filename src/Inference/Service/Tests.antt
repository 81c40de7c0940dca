-- ===== src/Inference/Service/Tests.antt =====
-- Runs of the inference service, and its theorems at concrete inputs.
use woolwire.Base.{
  List, [], arith, bytes_dec, codes, err, false, none, ok, pos, refl, some, true, ℕ, ◌+◌, ◌↔◌, ◌∷◌,
  ◌≡◌, ◌≤◌, ◌⊎◌,
}
use woolwire.Base.Maps.{lookup, put, delete}
use woolwire.Inference.Limits.{default_limits, normalize_limits}
use woolwire.Inference.Queue.{new_fair_queue, submit, stats, key_dec}
use woolwire.Inference.Prompt.{
  ChatMessage, HostedModelRecord, canceled, thinking_default, thinking_high, model_unavailable,
  parse_thinking_level, level_text, check_context_limit, prompt_budget, estimate_tokens,
  count_chars, load_request_for_model, RunnerHealth, runner_health_holds,
  runner_health_matches_model, backend_model_name,
}
use woolwire.Inference.Prompt.Budget.{
  check_context_limit_iff, parse_thinking_level_iff, Holds, runner_health_holds_iff,
}
use woolwire.Inference.Service.{
  Timer, Service, new_service, default_managed_idle_after, stop_idle_timer_locked, check_idle,
  dropped, unload_begin, idle_done, schedule_idle_unload_locked, arm_idle_timer_locked,
  rearm_idle_timer_locked, ensure_begin, ensure_done, ensure_loaded,
}
use woolwire.Inference.Service.Steps.{System, nobody, Reach, start, then_step}
use woolwire.Inference.Service.Covered.{is_armed, is_fired}
use woolwire.Inference.Service.Calls.{
  Runner, ensure_managed_loaded_gated, ensure_requested, ensure_answered, stream_managed,
  serve_managed, release_idle, release_answered, unload_managed_model,
}
use woolwire.Inference.Service.Paths.{Steps, at, halt, go, serve_managed-Steps}
use woolwire.Inference.Service.Requests.{execute, execute_checked}
use woolwire.Inference.Service.Release.{
  idle_release_pending, release_idle_iff, unload_failure-Stranded,
}
use woolwire.Inference.Service.Execution.{
  execute-Untouched, execute_thinking_ignored, ReleasesLater, serve_managed-ReleasesLater,
}

program : Unit {0}
unfolding default_limits normalize_limits new_fair_queue submit lookup put delete bytes_dec key_dec
    stats execute execute_checked check_context_limit estimate_tokens count_chars prompt_budget
    backend_model_name new_service serve_managed stream_managed ensure_managed_loaded_gated
    ensure_requested ensure_answered load_request_for_model runner_health_holds
    runner_health_matches_model stop_idle_timer_locked schedule_idle_unload_locked
    arm_idle_timer_locked rearm_idle_timer_locked ensure_begin ensure_done ensure_loaded check_idle
    is_fired release_idle release_answered idle_done parse_thinking_level unload_begin
program = tt

abbrev llama : HostedModelRecord
llama = record {
  id = codes "m1";
  name = codes "Llama";
  model_type = codes "managed";
  endpoint_url = [];
  api_key = [];
  context_limit = pos 100;
  max_tokens = pos 60;
  enabled = true;
  published = true;
  revision = pos 1;
  backend_model = [];
  allow_private_network = false;
  filename = codes "llama.gguf";
  threads = pos 4;
  gpu_layers = none;
  projector = [];
  draft_model = [];
  extra_args = [];
  supports_thinking = false;
}

abbrev hello : List ChatMessage
hello = record { role = codes "user"; content = codes "hello" } ∷ []

-- It holds nothing, and does all that it is asked.
abbrev willing : Runner
willing = record {
  health = none;
  load = λ _. none;
  probe = none;
  unload = none;
  stream_chat = none;
}

abbrev fresh_service : Service
fresh_service = new_service default_managed_idle_after true

abbrev served : Service
served = (serve_managed willing llama fresh_service).0

served_fields :
    (served.demand_loaded ≡ true) × (served.manual_pinned ≡ false) × (served.idle_generation ≡ 2)
unfolding program
served_fields = (refl, refl, refl)

-- Its timer fires, and the engine goes.
released :
    (release_idle willing
      (record { generation = 2; delay = default_managed_idle_after; ticking = false })
      (0, 0)
      served).demand_loaded
    ≡ false
unfolding program
released = refl

parse_thinking_level_iff_run :
    (parse_thinking_level (codes "high") ≡ some thinking_high)
    ↔ (codes "high" ≡ level_text thinking_high)
parse_thinking_level_iff_run = parse_thinking_level_iff (codes "high") thinking_high

check_context_limit_iff_example :
    (check_context_limit (some llama) hello ≡ ok tt) ↔ (estimate_tokens hello + 60 ≤ 100)
check_context_limit_iff_example = check_context_limit_iff llama hello 100 60 refl refl (omega arith)

abbrev ready : RunnerHealth
ready = record { status = codes "ready"; loaded_model_id = codes "m1"; loaded_file = [] }

runner_health_holds_iff_run :
    (runner_health_holds (some ready) (codes "m1") (codes "llama.gguf") ≡ true)
    ↔ Holds ready (codes "m1") (codes "llama.gguf")
runner_health_holds_iff_run = runner_health_holds_iff ready (codes "m1") (codes "llama.gguf")

execute-Untouched_run :
    (execute (new_fair_queue default_limits) (codes "ann") (codes "r") none hello thinking_high).0
    ≡ new_fair_queue default_limits
unfolding execute
execute-Untouched_run =
    execute-Untouched (new_fair_queue default_limits) (codes "ann") (codes "r") none hello
      thinking_high model_unavailable refl

execute_thinking_ignored_run :
    execute
      (new_fair_queue default_limits)
      (codes "ann")
      (codes "r")
      (some llama)
      hello
      thinking_high
    ≡ execute
        (new_fair_queue default_limits)
        (codes "ann")
        (codes "r")
        (some llama)
        hello
        thinking_default
execute_thinking_ignored_run =
    execute_thinking_ignored (new_fair_queue default_limits) (codes "ann") (codes "r") llama hello
      thinking_high refl

serve_managed-ReleasesLater_run : ReleasesLater served default_managed_idle_after
unfolding program
serve_managed-ReleasesLater_run = serve_managed-ReleasesLater willing llama fresh_service refl refl

served-Steps : Steps false (at nobody [] fresh_service) (at nobody [] served)
served-Steps = serve_managed-Steps false willing llama [] fresh_service

reached :
    (x y : System)
    → Reach false default_managed_idle_after true x
    → Steps false x y
    → Reach false default_managed_idle_after true y
reached x y h halt = h
reached x y h (go {y = z} s t) = reached z y (then_step h s) t

served-Reach : Reach false default_managed_idle_after true (at nobody [] served)
served-Reach = reached _ _ start served-Steps

idle_release_pending_example :
    (is_armed served.idle_generation served.idle_timer ≡ true)
    ⊎ (is_fired served.idle_generation [] ≡ true)
unfolding program
idle_release_pending_example =
    idle_release_pending default_managed_idle_after true (at nobody [] served) served-Reach refl
      refl

abbrev no_one : ℕ
no_one = 0

abbrev fired_timer : Timer
fired_timer = record { generation = 2; delay = default_managed_idle_after; ticking = false }

release_idle_iff_example :
    ((release_idle willing fired_timer (no_one, no_one) served).demand_loaded ≡ false) ↔ (
      (served.closed ≡ false)
      × (2 ≡ served.idle_generation)
      × (served.manual_pinned ≡ false)
      × (no_one ≡ 0)
      × (no_one ≡ 0)
      × (served.has_runner ≡ true)
      × (willing.unload ≡ none))
unfolding program
release_idle_iff_example = release_idle_iff willing fired_timer 0 0 served refl

abbrev refusing : Runner
refusing = record willing { unload = some canceled }

unload_failure-Stranded_example :
    ((unload_managed_model refusing served).1 ≡ err canceled)
    × ((unload_managed_model refusing served).0.demand_loaded ≡ true)
    × ((unload_managed_model refusing served).0.idle_timer ≡ none)
    × (check_idle 2 (0, 0) (unload_managed_model refusing served).0 ≡ dropped)
unfolding program
unload_failure-Stranded_example =
    unload_failure-Stranded refusing served canceled 2 (0, 0) refl refl refl refl (omega arith)

serve_managed-Steps_example : Steps false (at nobody [] fresh_service) (at nobody [] served)
serve_managed-Steps_example = serve_managed-Steps false willing llama [] fresh_service
