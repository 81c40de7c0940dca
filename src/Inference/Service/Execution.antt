-- ===== src/Inference/Service/Execution.antt =====
-- service.go: what becomes of a request: refused before it costs anything, or served and then followed
-- by a release.
use woolwire.Base.{
  Bool, Bytes, List, Option, Result, arith, err, false, ltb_ℤ, none, not, ok, pos, refl, some,
  subst, sym, true, ℤ, ◌&&◌, ◌||◌, ◌∙◌, ◌≡◌, ◌⊎◌,
}
use woolwire.Inference.Queue.{FairQueue, submit}
use woolwire.Inference.Prompt.{
  ChatMessage, HostedModelRecord, ThinkingLevel, thinking_default, Error, check_context_limit,
  LoadRequest, load_request_for_model,
}
use woolwire.Inference.Service.{
  Service, schedule_idle_unload_locked, stop_idle_timer_locked, arm_idle_timer_locked,
  rearm_idle_timer_locked, ensure_loaded, ensure_begin, ensure_done,
}
use woolwire.Inference.Service.Calls.{
  Runner, ensure_answered, ensure_requested, ensure_managed_loaded_gated, stream_managed,
  serve_managed,
}
use woolwire.Inference.Service.Requests.{Work, work_of, allowed_thinking, execute, execute_checked}

execute_checked-Untouched :
    (q : FairQueue) (m r : Bytes) (w : Work) (c : Result Error (Unit {0})) (e : Error)
    → (execute_checked q m r w c).1 ≡ err e
    → ((execute_checked q m r w c).0 ≡ q) × (c ≡ err e)
unfolding execute_checked
execute_checked-Untouched q m r w (err d) e h = (refl, cc)
execute_checked-Untouched q m r w (ok _) e h = cc

-- A request that Execute refuses for its model or its prompt leaves the queue as it was.
pub execute-Untouched :
    (q : FairQueue) (m r : Bytes) (model : Option HostedModelRecord) (messages : List ChatMessage)
    (t : ThinkingLevel) (e : Error)
    → (execute q m r model messages t).1 ≡ err e
    → (execute q m r model messages t).0 ≡ q
unfolding execute
execute-Untouched q m r none messages t e h = refl
execute-Untouched q m r (some model) messages t e h = ground (
  arith,
  execute_checked-Untouched q m r (work_of m model messages (allowed_thinking model t))
      (check_context_limit (some model) messages) e,
)

pub execute-Admitted :
    (q : FairQueue) (m r : Bytes) (model : HostedModelRecord) (messages : List ChatMessage)
    (t : ThinkingLevel)
    → model.enabled ≡ true
    → check_context_limit (some model) messages ≡ ok tt
    → execute q m r (some model) messages t ≡ (
      (submit q m r).0,
      ok ((submit q m r).1, work_of m model messages (allowed_thinking model t)),
    )
unfolding execute execute_checked
execute-Admitted q m r model messages t p h = rw (p, h) refl

pub execute_thinking_ignored :
    (q : FairQueue) (m r : Bytes) (model : HostedModelRecord) (messages : List ChatMessage)
    (t : ThinkingLevel)
    → model.supports_thinking ≡ false
    → execute q m r (some model) messages t ≡ execute q m r (some model) messages thinking_default
unfolding execute
execute_thinking_ignored q m r model messages t h = rw h refl

-- A service that is open and has a runner and a release delay.
abbrev pub is_releasing_service : Service → Bool
is_releasing_service s = not s.closed && s.has_runner && not (ltb_ℤ s.idle_after (pos 0))

schedule-Armed :
    (s : Service)
    → is_releasing_service s ≡ true
    → (s.manual_pinned || s.demand_loaded) ≡ true
    → ((schedule_idle_unload_locked s).manual_pinned ≡ true)
      ⊎ ((schedule_idle_unload_locked s).idle_timer
          ≡ some (record {
            generation = (schedule_idle_unload_locked s).idle_generation;
            delay = s.idle_after;
            ticking = true;
          }))
unfolding schedule_idle_unload_locked stop_idle_timer_locked arm_idle_timer_locked
    rearm_idle_timer_locked
schedule-Armed s h l = ground arith

-- What the load leaves as it was, and that the engine is now the owner's or on demand.
Loaded : Service → Service → Type 0
Loaded s s' =
    (is_releasing_service s' ≡ is_releasing_service s)
    × (s'.idle_after ≡ s.idle_after)
    × ((s'.manual_pinned || s'.demand_loaded) ≡ true)

ensure_answered-Loaded :
    (runner : Runner) (model : HostedModelRecord) (d p : Bool) (s : Service) (e : Option Error)
    → (ensure_answered runner model d p (ensure_begin s) e).1 ≡ ok tt
    → Loaded s (ensure_answered runner model d p (ensure_begin s) e).0
unfolding Loaded ensure_answered ensure_begin ensure_done stop_idle_timer_locked
ensure_answered-Loaded runner model d p s none h = (refl, refl, refl)
ensure_answered-Loaded runner model d p s (some e) h = cc

ensure_requested-Loaded :
    (runner : Runner) (model : HostedModelRecord) (s : Service) (r : Result Error LoadRequest)
    → (ensure_requested runner model s r).1 ≡ ok tt
    → Loaded s (ensure_requested runner model s r).0
unfolding Loaded ensure_requested ensure_loaded stop_idle_timer_locked
ensure_requested-Loaded runner model s (err e) h = cc
ensure_requested-Loaded runner model s (ok request) h = ground (
  arith,
  ensure_answered-Loaded runner model s.demand_loaded s.manual_pinned s (runner.load request),
)

ensure_managed-Loaded :
    (runner : Runner) (model : HostedModelRecord) (s : Service)
    → (ensure_managed_loaded_gated runner model s).1 ≡ ok tt
    → Loaded s (ensure_managed_loaded_gated runner model s).0
unfolding ensure_managed_loaded_gated
ensure_managed-Loaded runner model s h =
    ground (arith, ensure_requested-Loaded runner model s (load_request_for_model (some model)))

streamed :
    (runner : Runner) (r : Service × Result Error (Unit {0}))
    → r.1 ≡ ok tt
    → (stream_managed runner r).0 ≡ schedule_idle_unload_locked r.0
unfolding stream_managed
streamed runner (s, ok _) h = refl
streamed runner (s, err e) h = cc

-- What a service that a request has left does next: nothing, if its owner pinned the engine, and
-- otherwise a release after the whole of its delay.
abbrev pub ReleasesLater : Service → ℤ → Type 0
ReleasesLater s delay =
    (s.manual_pinned ≡ true)
    ⊎ (s.idle_timer
        ≡ some (record { generation = s.idle_generation; delay = delay; ticking = true }))

-- In an open service with a runner and a release delay, a request for a managed model that got
-- past the load leaves, whether its stream failed or not, a pinned engine or a running timer of
-- the present generation with the whole of that delay.
pub serve_managed-ReleasesLater :
    (runner : Runner) (model : HostedModelRecord) (s : Service)
    → is_releasing_service s ≡ true
    → (ensure_managed_loaded_gated runner model s).1 ≡ ok tt
    → ReleasesLater (serve_managed runner model s).0 s.idle_after
unfolding serve_managed Loaded
serve_managed-ReleasesLater runner model s h e =
    let (a, b, c) = ensure_managed-Loaded runner model s e in
    subst (λ z. ReleasesLater z s.idle_after)
      (sym (streamed runner (ensure_managed_loaded_gated runner model s) e) ∙ sym open_case)
      (subst
        (λ z.
          ReleasesLater (schedule_idle_unload_locked (ensure_managed_loaded_gated runner model s).0)
            z)
        b (schedule-Armed (ensure_managed_loaded_gated runner model s).0 (a ∙ h) c))
  where
    open_case :
        (serve_managed runner model s).0
        ≡ (stream_managed runner (ensure_managed_loaded_gated runner model s)).0
    open_case = ground (arith, h)
