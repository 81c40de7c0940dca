-- ===== src/Runner/Controller/Isolation.antt =====
-- controller.go: whose requests the engine's process has answered when a member's request is served.
use woolwire.Base.{
  Bool, List, Result, ap, arith, err, false, if_cases, if◌then◌else◌, ok, refl, true, ℕ, ℤ, ◌∙◌,
  ◌∷◌, ◌≡◌,
}
use woolwire.Runner.Controller.{
  EngineArgs, Controller, new_controller, Launch, launch_engine, stop_engine_locked, engine_exited,
  unload_model, close,
}
use woolwire.Runner.Controller.Handlers.{
  Resolve, Error, LoadModelRequest, handle_load_model, handle_restart_engine, restarted,
}
use woolwire.Runner.Controller.Requests.{
  InferenceRequest, is_named, check_inference, needs_restart, begin_request, Outcome,
  answer_request, inference_checked, handle_inference,
}
use woolwire.Runner.Controller.Isolated.{
  IsIsolated, handle_load_model-IsIsolated, handle_restart_engine-IsIsolated,
  inference_checked-IsIsolated, ended-kept,
}

-- The handlers in any order, with exits of the engine and closings between them; each request names
-- its member.
pub data Reach (has_gpu : Bool) (port : ℕ) : Controller → Type 0 where
  start : Reach has_gpu port (new_controller has_gpu port)
  loads :
      {c : Controller} (resolve : Resolve) (launch retry : EngineArgs → Launch)
      (req : LoadModelRequest)
      → Reach has_gpu port c
      → Reach has_gpu port (handle_load_model resolve launch retry req c).0
  unloads : {c : Controller} → Reach has_gpu port c → Reach has_gpu port (unload_model c)
  restarts :
      {c : Controller} (launch : EngineArgs → Launch)
      → Reach has_gpu port c
      → Reach has_gpu port (handle_restart_engine launch c).0
  serves :
      {c : Controller} (launch : EngineArgs → Launch) (outcome : Outcome) (usages : List (ℤ × ℤ))
      (req : InferenceRequest)
      → is_named req.requester_member_id ≡ true
      → Reach has_gpu port c
      → Reach has_gpu port (handle_inference launch outcome usages req c).0
  exits :
      {c : Controller} (process : ℕ)
      → Reach has_gpu port c
      → Reach has_gpu port (engine_exited process c)
  closes : {c : Controller} → Reach has_gpu port c → Reach has_gpu port (close c)

engine_exited-IsIsolated : (p : ℕ) (c : Controller) → IsIsolated c → IsIsolated (engine_exited p c)
unfolding engine_exited
engine_exited-IsIsolated p c h = if_cases {A = Controller} IsIsolated _ (λ _. h) (λ _. h)

-- In any sequence of loads, unloads, restarts, requests that each name their member, exits of the
-- engine and closings, whatever the launches come to, the engine's process has answered no member
-- but the last requester, and nobody if there is no last requester.
pub Reach-IsIsolated :
    (has_gpu : Bool) (port : ℕ) (c : Controller) → Reach has_gpu port c → IsIsolated c
unfolding new_controller handle_inference unload_model close stop_engine_locked
Reach-IsIsolated g p c start = (tt, λ _. refl)
Reach-IsIsolated g p c (loads {c = d} resolve launch retry req h) =
    handle_load_model-IsIsolated resolve launch retry req d (Reach-IsIsolated g p d h)
Reach-IsIsolated g p c (unloads h) = (tt, λ _. refl)
Reach-IsIsolated g p c (restarts {c = d} launch h) =
    handle_restart_engine-IsIsolated launch d (Reach-IsIsolated g p d h)
Reach-IsIsolated g p c (serves {c = d} launch o us req n h) =
    inference_checked-IsIsolated launch o us req d (check_inference req d) n
      (Reach-IsIsolated g p d h)
Reach-IsIsolated g p c (exits {c = d} process h) =
    engine_exited-IsIsolated process d (Reach-IsIsolated g p d h)
Reach-IsIsolated g p c (closes h) = (tt, λ _. refl)

joined :
    (o : Outcome) (us : List (ℤ × ℤ)) (req : InferenceRequest) (c : Controller)
    → ((answer_request o us req (c, ok false)).0.sessions ≡ req.requester_member_id ∷ c.sessions)
      × ((answer_request o us req (c, ok false)).0.last_requester ≡ req.requester_member_id)
unfolding answer_request begin_request
joined o us req c = ended-kept o us (begin_request req c)

-- A request that passes and needs no restart joins the sessions.
served_sessions :
    (launch : EngineArgs → Launch) (o : Outcome) (us : List (ℤ × ℤ)) (req : InferenceRequest)
    (c : Controller)
    → check_inference req c ≡ ok tt
    → needs_restart req c ≡ false
    → ((handle_inference launch o us req c).0.sessions ≡ req.requester_member_id ∷ c.sessions)
      × ((handle_inference launch o us req c).0.last_requester ≡ req.requester_member_id)
unfolding handle_inference inference_checked
served_sessions launch o us req c k r = checked (check_inference req c) k
  where
    Joins : Controller → Type 0
    Joins d =
        (d.sessions ≡ req.requester_member_id ∷ c.sessions)
        × (d.last_requester ≡ req.requester_member_id)

    asked :
        (b : Bool)
        → b ≡ false
        → Joins
            (answer_request o us req (
              if b
              then restarted (launch_engine (launch c.loaded) c.loaded c)
              else (c, ok false))).0
    asked true e = cc
    asked false e = joined o us req c

    checked :
        (k : Result Error (Unit {0})) → k ≡ ok tt → Joins (inference_checked launch o us req c k).0
    checked (err e) p = cc
    checked (ok _) p = asked (needs_restart req c) r

anonymous-first :
    (req : InferenceRequest) (c : Controller)
    → is_named req.requester_member_id ≡ false
    → needs_restart req c ≡ false
unfolding needs_restart
anonymous-first req c h = ground (arith, h)

anonymous-last :
    (req : InferenceRequest) (c : Controller)
    → is_named c.last_requester ≡ false
    → needs_restart req c ≡ false
unfolding needs_restart
anonymous-last req c h = ground (arith, h)

-- If a request that names no member is served and then any other one is, the second is answered by
-- a process that still holds every session from before the first.
pub anonymous_request-Kept :
    (launch : EngineArgs → Launch) (o o' : Outcome) (us us' : List (ℤ × ℤ))
    (req req' : InferenceRequest) (c : Controller)
    → is_named req.requester_member_id ≡ false
    → check_inference req c ≡ ok tt
    → check_inference req' (handle_inference launch o us req c).0 ≡ ok tt
    → (handle_inference launch o' us' req' (handle_inference launch o us req c).0).0.sessions
      ≡ req'.requester_member_id ∷ (req.requester_member_id ∷ c.sessions)
anonymous_request-Kept launch o o' us us' req req' c n k k' =
    let (p, q) = served_sessions launch o us req c k (anonymous-first req c n) in
    (served_sessions launch o' us' req' (handle_inference launch o us req c).0 k'
      (anonymous-last req' (handle_inference launch o us req c).0 (rw q n))).0
    ∙ ap (λ s. req'.requester_member_id ∷ s) p
