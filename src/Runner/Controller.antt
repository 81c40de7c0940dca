-- ===== src/Runner/Controller.antt =====
-- controller.go: what the runner holds, and its sections under `mu`. A process of the engine is its
-- number; what a launch comes to is whether it started, became healthy and ended during the launch. Error texts, times and
-- the rate of a stream are left out.
pub mod Handlers
pub mod Requests
pub mod Isolated
pub mod Isolation
pub mod Status
use woolwire.Base.{
  Bool, Bytes, List, Option, [], arith, false, if◌then◌else◌, none, not, pos, some, true, ℕ, ℤ,
  ◌==◌, ◌≡◌,
}

pub record EngineArgs : Type 0 where
  pub model_id : Bytes
  pub filename : Bytes
  pub model_path : Bytes
  pub context_limit : ℤ
  pub threads : ℤ
  pub projector_path : Bytes
  pub draft_path : Bytes
  pub gpu_layers : Option ℤ
  pub extra_args : List Bytes
  pub port : ℕ

-- `EngineArgs{}`
abbrev pub no_args : EngineArgs
no_args = record {
  model_id = [];
  filename = [];
  model_path = [];
  context_limit = pos 0;
  threads = pos 0;
  projector_path = [];
  draft_path = [];
  gpu_layers = none;
  extra_args = [];
  port = 0;
}

pub data EngineStatus : Type 0 where
  status_idle status_loading status_ready status_busy status_error : EngineStatus

abbrev pub is_status_ready : EngineStatus → Bool
is_status_ready status_ready = true
is_status_ready _ = false

abbrev pub is_status_busy : EngineStatus → Bool
is_status_busy status_busy = true
is_status_busy _ = false

abbrev pub is_status_idle : EngineStatus → Bool
is_status_idle status_idle = true
is_status_idle _ = false

-- `sessions` is no field of the code: the requesters that the engine's process has answered.
pub record Controller : Type 0 where
  pub has_gpu : Bool
  pub engine_port : ℕ
  pub notice : Option Bytes
  pub loaded : EngineArgs
  pub status : EngineStatus
  pub engine : Option ℕ
  pub active_request : Option Bytes
  pub requests_completed : ℕ
  pub requests_failed : ℕ
  pub requests_cancelled : ℕ
  pub prompt_tokens : ℤ
  pub completion_tokens : ℤ
  pub last_prompt_tokens : Option ℤ
  pub last_completion_tokens : Option ℤ
  pub current_context_tokens : Option ℤ
  pub last_requester : Bytes
  pub sessions : List Bytes

-- `NewController`, with what it is told or has found out of the GPU.
unfoldable pub new_controller : Bool → ℕ → Controller
new_controller has_gpu port = record {
  has_gpu = has_gpu;
  engine_port = if port == 0 then 8081 else port;
  notice = none;
  loaded = no_args;
  status = status_idle;
  engine = none;
  active_request = none;
  requests_completed = 0;
  requests_failed = 0;
  requests_cancelled = 0;
  prompt_tokens = pos 0;
  completion_tokens = pos 0;
  last_prompt_tokens = none;
  last_completion_tokens = none;
  current_context_tokens = none;
  last_requester = [];
  sessions = [];
}

unfoldable pub stop_engine_locked : Controller → Controller
stop_engine_locked c = record c { engine = none; sessions = [] }

-- `launchEngine`: its sections, in their order.
unfoldable pub launch_begin : EngineArgs → Controller → Controller
unfolding stop_engine_locked
launch_begin args c = record (stop_engine_locked c) {
  status = status_loading;
  loaded = args;
  last_prompt_tokens = none;
  last_completion_tokens = none;
  current_context_tokens = none;
}

unfoldable pub launch_not_started : Controller → Controller
launch_not_started c = record c { status = status_error; loaded = no_args }

unfoldable pub launch_started : ℕ → Controller → Controller
launch_started process c = record c { engine = some process; sessions = [] }

unfoldable pub launch_unhealthy : Controller → Controller
unfolding stop_engine_locked
launch_unhealthy c = stop_engine_locked (record c { status = status_error; loaded = no_args })

unfoldable pub launch_healthy : Controller → Controller
launch_healthy c = record c { status = status_ready; notice = none; last_requester = [] }

abbrev pub is_engine : ℕ → Option ℕ → Bool
is_engine p none = false
is_engine p (some q) = p == q

-- The goroutine that waits for the end of a process.
unfoldable pub engine_exited : ℕ → Controller → Controller
engine_exited process c = if not (is_engine process c.engine) then c else record c {
  engine = none;
  status = if is_status_idle c.status then c.status else status_error;
}

-- A process that was found healthy can end before the launch's last section, or after it and before
-- the handler goes on.
pub data Launch : Type 0 where
  no_start : Launch
  unhealthy healthy gone_before_ready gone_after_ready : ℕ → Launch

unfoldable pub launch_engine : Launch → EngineArgs → Controller → Controller × Option ℕ
unfolding launch_begin launch_not_started launch_started launch_unhealthy launch_healthy
    engine_exited
launch_engine no_start args c = (launch_not_started (launch_begin args c), none)
launch_engine (unhealthy p) args c =
    (launch_unhealthy (launch_started p (launch_begin args c)), none)
launch_engine (healthy p) args c = (launch_healthy (launch_started p (launch_begin args c)), some p)
launch_engine (gone_before_ready p) args c =
    (launch_healthy (engine_exited p (launch_started p (launch_begin args c))), some 0)
launch_engine (gone_after_ready p) args c =
    (engine_exited p (launch_healthy (launch_started p (launch_begin args c))), some p)

pub eq_refl : (p : ℕ) → (p == p) ≡ true
eq_refl p = ground arith

unfoldable pub unload_model : Controller → Controller
unfolding stop_engine_locked
unload_model c = record (stop_engine_locked (record c { status = status_idle })) {
  loaded = no_args;
  last_requester = [];
}

unfoldable pub close : Controller → Controller
unfolding stop_engine_locked
close c = stop_engine_locked (record c { status = status_idle })

unfoldable pub cancel_inference : Controller → Bool
cancel_inference c = elim c.active_request [ some request ↦ true | none ↦ false ]
