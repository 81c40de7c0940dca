-- ===== src/Inference/Service/Paths.antt =====
-- service.go: the callers of the gate as sequences of sections.
use woolwire.Base.{
  Bool, List, Option, Result, err, false, if◌then◌else◌, none, not, ok, refl, some, true, ℕ, ◌++◌,
  ◌∷◌, ◌≡◌,
}
use woolwire.Inference.Prompt.{
  HostedModelRecord, Error, runner_unavailable, canceled, LoadRequest, load_request_for_model,
  runner_health_holds, runner_health_matches_model,
}
use woolwire.Inference.Service.{
  Timer, Service, Verdict, load_begin, unload_begin, ensure_loaded, ensure_begin, check_idle,
  postpone, dropped, postponed, unloading,
}
use woolwire.Inference.Service.Steps.{
  Holder, nobody, loading, stopping, probing, switching, releasing, System, Step, loads, load_fails,
  load_succeeds, unloads, unload_fails, unload_succeeds, asks, finds_loaded, switches, switch_fails,
  switch_succeeds, streams, drops, postpones, releases, release_fails, release_succeeds,
}
use woolwire.Inference.Service.Calls.{
  Runner, load_answered, load_managed_model, unload_answered, unload_managed_model, ensure_answered,
  ensure_requested, ensure_managed_loaded_gated, stream_managed, serve_managed, release_answered,
  release_idle,
}

-- No step or some.
pub data Steps (failing : Bool) : System → System → Type 0 where
  halt : {x : System} → Steps failing x x
  go : {x y z : System} → Step failing x y → Steps failing y z → Steps failing x z

-- The service, with the gate in the hands of `h`.
abbrev pub at : Holder → List Timer → Service → System
at h fired s = record { service = s; holder = h; fired = fired }

load_answered-Steps :
    (failing : Bool) (runner : Runner) (request : LoadRequest) (fired : List Timer) (demand : Bool)
    (s : Service) (e : Option Error)
    → Steps failing
        (at (loading demand) fired s)
        (at nobody fired (load_answered runner request demand s e).0)
unfolding load_answered
load_answered-Steps failing runner request fired demand s none = go (load_succeeds demand refl) halt
load_answered-Steps failing runner request fired demand s (some e) =
    go (load_fails (runner_health_holds runner.probe request.model_id request.filename) demand refl)
      halt

-- A caller that finds the service closed, or no runner, changes nothing.
past_guards {ℓ} :
    {A : Type 0} (P : A → Type ℓ) (closed has_runner : Bool) (a b c : A)
    → P a
    → P b
    → (closed ≡ false → has_runner ≡ true → P c)
    → P (if closed then a else if not has_runner then b else c)
past_guards P true r a b c p q h = p
past_guards P false false a b c p q h = q
past_guards P false true a b c p q h = h refl refl

pub load_managed_model-Steps :
    (failing : Bool) (runner : Runner) (request : LoadRequest) (fired : List Timer) (s : Service)
    → Steps failing (at nobody fired s) (at nobody fired (load_managed_model runner request s).0)
unfolding load_managed_model
load_managed_model-Steps failing runner request fired s =
    past_guards {A = Service × Result Error (Unit {0})}
      (λ z. Steps failing (at nobody fired s) (at nobody fired z.0)) s.closed s.has_runner _ _ _
      halt halt
      (λ c r. go (loads refl c r) (
        load_answered-Steps failing runner request fired s.demand_loaded (load_begin s)
          (runner.load request)))

unload_answered-Steps :
    (runner : Runner) (fired : List Timer) (s : Service) (e : Option Error)
    → Steps true (at stopping fired s) (at nobody fired (unload_answered s e).0)
unfolding unload_answered
unload_answered-Steps runner fired s none = go (unload_succeeds refl) halt
unload_answered-Steps runner fired s (some e) = go (unload_fails refl refl) halt

pub unload_managed_model-Steps :
    (runner : Runner) (fired : List Timer) (s : Service)
    → Steps true (at nobody fired s) (at nobody fired (unload_managed_model runner s).0)
unfolding unload_managed_model
unload_managed_model-Steps runner fired s =
    past_guards {A = Service × Result Error (Unit {0})}
      (λ z. Steps true (at nobody fired s) (at nobody fired z.0)) s.closed s.has_runner _ _ _ halt
      halt
      (λ c r.
        go (unloads refl r) (unload_answered-Steps runner fired (unload_begin s) runner.unload))

-- A request that got past the runner's check streams; one that failed to has let the gate go.
ensure_answered-Steps :
    (failing : Bool) (runner : Runner) (model : HostedModelRecord) (fired : List Timer)
    (demand pinned : Bool) (s : Service) (e : Option Error)
    → Steps failing
        (at (switching demand pinned) fired s)
        (at nobody fired (stream_managed runner (ensure_answered runner model demand pinned s e)).0)
unfolding stream_managed ensure_answered
ensure_answered-Steps failing runner model fired demand pinned s none =
    go (switch_succeeds demand pinned refl) (go (streams refl) halt)
ensure_answered-Steps failing runner model fired demand pinned s (some e) =
    go (switch_fails (runner_health_holds runner.probe model.id model.filename) demand pinned refl)
      halt

ensure_requested-Steps :
    (failing : Bool) (runner : Runner) (model : HostedModelRecord) (fired : List Timer)
    (s : Service) (r : Result Error LoadRequest)
    → s.closed ≡ false
    → s.has_runner ≡ true
    → Steps failing
        (at nobody fired s)
        (at nobody fired (stream_managed runner (ensure_requested runner model s r)).0)
unfolding stream_managed ensure_requested
ensure_requested-Steps failing runner model fired s (err e) c r = halt
ensure_requested-Steps failing runner model fired s (ok request) c r =
    go (asks refl c r) (held (runner_health_matches_model runner.health (some model)))
  where
    held :
        (b : Bool)
        → Steps failing (at probing fired s) (
            at nobody fired
              (stream_managed runner (
                if b
                then (ensure_loaded s, ok tt)
                else ensure_answered runner model s.demand_loaded s.manual_pinned
                    (ensure_begin s)
                    (runner.load request))).0)
    held true = go (finds_loaded refl) (go (streams refl) halt)
    held false = go (switches refl) (
        ensure_answered-Steps failing runner model fired s.demand_loaded s.manual_pinned
          (ensure_begin s) (runner.load request))

-- What a slot runs for a managed model, whatever the runner answers, is from a free gate to a free
-- gate a sequence of steps of the lifecycle.
pub serve_managed-Steps :
    (failing : Bool) (runner : Runner) (model : HostedModelRecord) (fired : List Timer)
    (s : Service)
    → Steps failing (at nobody fired s) (at nobody fired (serve_managed runner model s).0)
unfolding serve_managed ensure_managed_loaded_gated
serve_managed-Steps failing runner model fired s = guards s.closed s.has_runner (λ c r.
    ensure_requested-Steps failing runner model fired s (load_request_for_model (some model)) c r)
  where
    P : Service × Result Error (Unit {0}) → Type 0
    P z = Steps failing (at nobody fired s) (at nobody fired z.0)

    guards :
        (c r : Bool)
        → (c ≡ false
            → r ≡ true
            → P (
                stream_managed runner
                  (ensure_requested runner model s (load_request_for_model (some model)))))
        → P (
            if c
            then (s, err canceled)
            else stream_managed runner (
                if not r
                then (s, err runner_unavailable)
                else ensure_requested runner model s (load_request_for_model (some model))))
    guards true r h = halt
    guards false false h = halt
    guards false true h = h refl refl

release_answered-Steps :
    (failing : Bool) (t : Timer) (fired : List Timer) (s : Service) (e : Option Error)
    → Steps failing (at (releasing t) fired s) (at nobody fired (release_answered t s e))
unfolding release_answered
release_answered-Steps failing t fired s none = go (release_succeeds t refl) halt
release_answered-Steps failing t fired s (some e) = go (release_fails t refl) halt

pub release_idle-Steps :
    (failing : Bool) (runner : Runner) (before : List Timer) (t : Timer) (after : List Timer)
    (stats : ℕ × ℕ) (s : Service)
    → Steps failing
        (at nobody (before ++ (t ∷ after)) s)
        (at nobody (before ++ after) (release_idle runner t stats s))
unfolding release_idle
release_idle-Steps failing runner before t after stats s =
    verdict (check_idle t.generation stats s) refl
  where
    verdict :
        (v : Verdict)
        → check_idle t.generation stats s ≡ v
        → Steps failing (at nobody (before ++ (t ∷ after)) s) (
            at nobody (before ++ after) (elim v [
              | dropped ↦ s
              | postponed ↦ postpone t s
              | unloading ↦ release_answered t s runner.unload
            ]))
    verdict dropped e = go (drops before t after stats refl refl e) halt
    verdict postponed e = go (postpones before t after stats refl refl e) halt
    verdict unloading e =
        go (releases before t after stats refl refl e)
          (release_answered-Steps failing t (before ++ after) s runner.unload)
