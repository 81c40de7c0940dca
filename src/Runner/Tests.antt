-- ===== src/Runner/Tests.antt =====
-- Runs of the runner, and its theorems at concrete inputs.
use woolwire.Base.{
  All, Bytes, List, [], bytes_dec, codes, err, false, if◌then◌else◌, length, map, none, ok, pos,
  refl, some, true, ℕ_discrete, ◌++◌, ◌==◌, ◌↔◌, ◌∷◌, ◌≡◌, ◌≤◌,
}
use woolwire.Community.Sanitize.{trim_space}
use woolwire.Runner.ExtraArgs.{
  check_args, validate_extra_args, not_allowed, has_dashes, list_extra_flags,
}
use woolwire.Runner.ExtraArgs.Grammar.{
  Spelled, Allowed, validate_extra_args_iff, validate_extra_args-Allowed,
}
use woolwire.Runner.OutputTail.{engine_tail_bytes, summarize}
use woolwire.Runner.OutputTail.Kept.{last, output, write_all, write_all-last}
use woolwire.Runner.Controller.{
  EngineArgs, Controller, new_controller, Launch, healthy, no_start, gone_before_ready,
  status_ready,
}
use woolwire.Runner.Controller.Handlers.{
  Resolve, LoadModelRequest, handle_load_model, load_checked, engine_argv,
}
use woolwire.Runner.Controller.Requests.{InferenceRequest, completed, handle_inference}
use woolwire.Runner.Controller.Isolated.{IsIsolated}
use woolwire.Runner.Controller.Isolation.{
  Reach, start, loads, serves, Reach-IsIsolated, anonymous_request-Kept,
}

program : Unit {0}
unfolding ℕ_discrete check_args validate_extra_args trim_space bytes_dec summarize new_controller
    handle_load_model handle_inference list_extra_flags engine_argv
program = tt

abbrev tuned : List Bytes
tuned = codes "--keep" ∷ codes "12" ∷ codes " --flash-attn=on " ∷ codes "--mlock" ∷ []

tuned_ok : validate_extra_args tuned ≡ ok tt
unfolding program
tuned_ok = refl

host_refused : validate_extra_args (codes "--host=0.0.0.0" ∷ []) ≡ err not_allowed
unfolding program
host_refused = refl

validate_extra_args_iff_example :
    (validate_extra_args tuned ≡ ok tt) ↔ ((length tuned ≤ 32) × Spelled (map trim_space tuned))
validate_extra_args_iff_example = validate_extra_args_iff tuned

validate_extra_args-Allowed_run : All (λ a. has_dashes a ≡ true → Allowed a) (map trim_space tuned)
validate_extra_args-Allowed_run = validate_extra_args-Allowed tuned tuned_ok

abbrev noise : Bytes
noise =
    codes
      "loading\nllama_load: ERROR: Unknown architecture\nexiting\nllama_load: ERROR: Unknown architecture\n"

noise_summary : summarize noise 3 ≡ codes "llama_load: ERROR: Unknown architecture"
unfolding program
noise_summary = refl

write_all-last_example :
    write_all [] (codes "one" ∷ codes "two" ∷ [])
    ≡ last engine_tail_bytes (output (codes "one" ∷ codes "two" ∷ []))
write_all-last_example = write_all-last (codes "one" ∷ codes "two" ∷ [])

abbrev found : Resolve
found name = ok (name, codes "/models/" ++ name)

abbrev wanted : LoadModelRequest
wanted = record {
  model_id = codes "m1";
  filename = codes "llama.gguf";
  context_limit = pos 0;
  threads = pos 8;
  projector = [];
  draft_model = codes "mtp.gguf";
  extra_args = [];
  gpu_layers = none;
}

-- The engine starts without a draft only.
abbrev picky : EngineArgs → Launch
picky args = if length args.draft_path == 0 then healthy 7 else no_start

abbrev running : Controller
running = (handle_load_model found picky picky wanted (new_controller false 0)).0

running_fields :
    (running.status ≡ status_ready)
    × (running.engine ≡ some 7)
    × (running.notice ≡ some (codes "/models/mtp.gguf"))
unfolding program
running_fields = (refl, refl, refl)

abbrev asked_by : Bytes → InferenceRequest
asked_by member = record {
  model = codes "m1";
  model_id = [];
  messages = record { role = codes "user"; content = codes "hi" } ∷ [];
  max_tokens = pos 10;
  requester_member_id = member;
  thinking = [];
}

abbrev ann_served : Controller
ann_served = (handle_inference picky completed [] (asked_by (codes "ann")) running).0

ann_sessions : ann_served.sessions ≡ codes "ann" ∷ []
unfolding program
ann_sessions = refl

ann-Reach : Reach false 0 ann_served
ann-Reach =
    serves picky completed [] (asked_by (codes "ann")) refl (loads found picky picky wanted start)

Reach-IsIsolated_example :
    IsIsolated (handle_inference picky completed [] (asked_by (codes "bob")) ann_served).0
Reach-IsIsolated_example =
    Reach-IsIsolated false 0
      (handle_inference picky completed [] (asked_by (codes "bob")) ann_served).0
      (serves picky completed [] (asked_by (codes "bob")) refl ann-Reach)

anonymous_request-Kept_example :
    (handle_inference picky completed []
      (asked_by (codes "bob"))
      (handle_inference picky completed [] (asked_by []) ann_served).0).0.sessions
    ≡ codes "bob" ∷ ([] ∷ ann_served.sessions)
unfolding program
anonymous_request-Kept_example =
    anonymous_request-Kept picky completed completed [] [] (asked_by []) (asked_by (codes "bob"))
      ann_served refl refl refl

abbrev plain : EngineArgs
plain = running.loaded

-- The engine ends after it was found healthy and before the launch's last section.
gone_unnoticed_run :
    (load_checked (λ _. gone_before_ready 5) picky (ok plain) (new_controller true 9)).1
    ≡ ok (some 0)
unfolding program
gone_unnoticed_run = refl
