-- ===== src/Inference/Service/Calls.antt =====
-- service.go: the whole of each caller of the gate. What the runner answers is a parameter: an error
-- or none for each request to it, and what it says it holds.
use woolwire.Base.{Bool, Option, Result, err, if◌then◌else◌, none, not, ok, some, ℕ}
use woolwire.Inference.Prompt.{
  HostedModelRecord, Error, runner_unavailable, canceled, LoadRequest, load_request_for_model,
  RunnerHealth, runner_health_holds, runner_health_matches_model,
}
use woolwire.Inference.Service.{
  Timer, Service, schedule_idle_unload_locked, load_begin, load_failed, unload_begin, unload_done,
  ensure_loaded, ensure_begin, ensure_failed, ensure_done, check_idle, postpone, idle_failed,
  idle_done, dropped, postponed, unloading,
}

pub record Runner : Type 0 where
  pub health : Option RunnerHealth
  pub load : LoadRequest → Option Error
  pub probe : Option RunnerHealth
  pub unload : Option Error
  pub stream_chat : Option Error

abbrev pub answer : Option Error → Result Error (Unit {0})
answer none = ok tt
answer (some e) = err e

-- `acquireManaged`, where the caller's context lasts.
abbrev pub acquire_managed : Service → Option Error
acquire_managed s = if s.closed then some canceled else none

unfoldable pub load_answered :
    Runner → LoadRequest → Bool → Service → Option Error → Service × Result Error (Unit {0})
load_answered runner request previous_demand s none = (s, ok tt)
load_answered runner request previous_demand s (some e) = (
  load_failed (runner_health_holds runner.probe request.model_id request.filename) previous_demand
      s,
  err e,
)

unfoldable pub load_managed_model :
    Runner → LoadRequest → Service → Service × Result Error (Unit {0})
unfolding load_answered
load_managed_model runner request s =
    if s.closed
    then (s, err canceled)
    else if not s.has_runner
    then (s, err runner_unavailable)
    else load_answered runner request s.demand_loaded (load_begin s) (runner.load request)

unfoldable pub unload_answered : Service → Option Error → Service × Result Error (Unit {0})
unload_answered s none = (unload_done s, ok tt)
unload_answered s (some e) = (s, err e)

unfoldable pub unload_managed_model : Runner → Service → Service × Result Error (Unit {0})
unfolding unload_answered
unload_managed_model runner s =
    if s.closed
    then (s, err canceled)
    else if not s.has_runner
    then (s, err runner_unavailable)
    else unload_answered (unload_begin s) runner.unload

unfoldable pub ensure_answered :
    Runner
    → HostedModelRecord
    → Bool
    → Bool
    → Service
    → Option Error
    → Service × Result Error (Unit {0})
ensure_answered runner model previous_demand previous_pinned s none = (ensure_done s, ok tt)
ensure_answered runner model previous_demand previous_pinned s (some e) = (
  ensure_failed (runner_health_holds runner.probe model.id model.filename) previous_demand
      previous_pinned s,
  err e,
)

unfoldable pub ensure_requested :
    Runner
    → HostedModelRecord
    → Service
    → Result Error LoadRequest
    → Service × Result Error (Unit {0})
unfolding ensure_answered
ensure_requested runner model s (err e) = (s, err e)
ensure_requested runner model s (ok request) =
    if runner_health_matches_model runner.health (some model)
    then (ensure_loaded s, ok tt)
    else ensure_answered runner model s.demand_loaded s.manual_pinned (ensure_begin s)
        (runner.load request)

unfoldable pub ensure_managed_loaded_gated :
    Runner → HostedModelRecord → Service → Service × Result Error (Unit {0})
unfolding ensure_requested
ensure_managed_loaded_gated runner model s =
    if not s.has_runner
    then (s, err runner_unavailable)
    else ensure_requested runner model s (load_request_for_model (some model))

-- The stream of a managed model, and the schedule after it.
unfoldable pub stream_managed :
    Runner → Service × Result Error (Unit {0}) → Service × Result Error (Unit {0})
stream_managed runner (s, err e) = (s, err e)
stream_managed runner (s, ok _) = (schedule_idle_unload_locked s, answer runner.stream_chat)

-- What a slot of the queue runs for a managed model.
unfoldable pub serve_managed :
    Runner → HostedModelRecord → Service → Service × Result Error (Unit {0})
unfolding ensure_managed_loaded_gated stream_managed
serve_managed runner model s =
    if s.closed
    then (s, err canceled)
    else stream_managed runner (ensure_managed_loaded_gated runner model s)

unfoldable pub release_answered : Timer → Service → Option Error → Service
release_answered t s none = idle_done t s
release_answered t s (some _) = idle_failed t s

-- The callback of a timer, once it has the gate.
unfoldable pub release_idle : Runner → Timer → ℕ × ℕ → Service → Service
unfolding release_answered
release_idle runner t stats s = elim (check_idle t.generation stats s) [
  | dropped ↦ s
  | postponed ↦ postpone t s
  | unloading ↦ release_answered t s runner.unload
]
