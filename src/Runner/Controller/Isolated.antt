-- ===== src/Runner/Controller/Isolated.antt =====
-- controller.go: what each handler does to the requesters that the engine has answered.
use woolwire.Base.{
  All, Bool, Bool-cases, Bytes, List, Option, Result, [], arith, bytes_dec, err, false, if_cases,
  if_neg, inl, inr, is_text, length, none, ok, refl, some, subst, sym, true, ℕ, ℤ, ◌==◌, ◌||◌, ◌∙◌,
  ◌∷◌, ◌≡◌,
}
use woolwire.Runner.Controller.{
  EngineArgs, Controller, Launch, no_start, unhealthy, healthy, gone_before_ready, gone_after_ready,
  engine_exited, eq_refl, launch_engine, launch_begin, launch_not_started, launch_started,
  launch_unhealthy, launch_healthy, stop_engine_locked,
}
use woolwire.Runner.Controller.Handlers.{
  Resolve, Error, LoadModelRequest, handle_load_model, load_checked, launched, retry_answered,
  retry_launch, check_load, is_loaded, handle_restart_engine, restarted,
}
use woolwire.Runner.Controller.Requests.{
  InferenceRequest, is_named, needs_restart, begin_request, record_usage, Outcome, completed,
  cancelled, failed, count_outcome, end_request, answer_request, inference_checked,
}

-- The engine has answered one requester only, the last one, and none where there is none.
abbrev pub IsIsolated : Controller → Type 0
IsIsolated c =
    All (λ s. s ≡ c.last_requester) c.sessions
    × (is_named c.last_requester ≡ false → c.sessions ≡ [])

pub launch_engine-IsIsolated :
    (l : Launch) (args : EngineArgs) (c : Controller) → IsIsolated (launch_engine l args c).0
unfolding launch_engine launch_begin launch_not_started launch_started launch_unhealthy
    launch_healthy stop_engine_locked engine_exited
launch_engine-IsIsolated no_start args c = (tt, λ _. refl)
launch_engine-IsIsolated (unhealthy p) args c = (tt, λ _. refl)
launch_engine-IsIsolated (healthy p) args c = (tt, λ _. refl)
launch_engine-IsIsolated (gone_before_ready p) args c = rw (eq_refl p) (tt, λ _. refl)
launch_engine-IsIsolated (gone_after_ready p) args c = rw (eq_refl p) (tt, λ _. refl)

retry_answered-IsIsolated :
    (draft : Bytes) (r : Controller × Option ℕ)
    → IsIsolated r.0
    → IsIsolated (retry_answered draft r).0
unfolding retry_answered
retry_answered-IsIsolated draft (c, some p) h = h
retry_answered-IsIsolated draft (c, none) h = h

launched-IsIsolated :
    (retry : EngineArgs → Launch) (args : EngineArgs) (r : Controller × Option ℕ)
    → IsIsolated r.0
    → IsIsolated (launched retry args r).0
unfolding launched retry_launch
launched-IsIsolated retry args (c, some p) h = h
launched-IsIsolated retry args (c, none) h =
    if_cases {A = Controller × Result Error (Option ℕ)} (λ z. IsIsolated z.0)
      (length args.draft_path == 0) (λ _. h)
      (λ _. retry_answered-IsIsolated args.draft_path _ (
        launch_engine-IsIsolated (retry (record args { draft_path = [] }))
          (record args { draft_path = [] }) c))

load_checked-IsIsolated :
    (launch retry : EngineArgs → Launch) (r : Result Error EngineArgs) (c : Controller)
    → IsIsolated c
    → IsIsolated (load_checked launch retry r c).0
unfolding load_checked
load_checked-IsIsolated launch retry (err e) c h = h
load_checked-IsIsolated launch retry (ok args) c h =
    if_cases {A = Controller × Result Error (Option ℕ)} (λ z. IsIsolated z.0) (is_loaded args c)
      (λ _. h)
      (λ _. launched-IsIsolated retry args _ (launch_engine-IsIsolated (launch args) args c))

pub handle_load_model-IsIsolated :
    (resolve : Resolve) (launch retry : EngineArgs → Launch) (req : LoadModelRequest)
    (c : Controller)
    → IsIsolated c
    → IsIsolated (handle_load_model resolve launch retry req c).0
unfolding handle_load_model
handle_load_model-IsIsolated resolve launch retry req c h =
    load_checked-IsIsolated launch retry (check_load resolve req c) c h

restarted-IsIsolated : (r : Controller × Option ℕ) → IsIsolated r.0 → IsIsolated (restarted r).0
unfolding restarted
restarted-IsIsolated (c, some p) h = h
restarted-IsIsolated (c, none) h = h

pub handle_restart_engine-IsIsolated :
    (launch : EngineArgs → Launch) (c : Controller)
    → IsIsolated c
    → IsIsolated (handle_restart_engine launch c).0
unfolding handle_restart_engine
handle_restart_engine-IsIsolated launch c h =
    if_cases {A = Controller × Result Error Bool} (λ z. IsIsolated z.0)
      (length c.loaded.model_id == 0 || length c.loaded.filename == 0) (λ _. h)
      (λ _. restarted-IsIsolated _ (launch_engine-IsIsolated (launch c.loaded) c.loaded c))

-- What the end of a request leaves as it was.
usage-kept :
    (us : List (ℤ × ℤ)) (c : Controller)
    → ((record_usage us c).sessions ≡ c.sessions)
      × ((record_usage us c).last_requester ≡ c.last_requester)
unfolding record_usage
usage-kept [] c = (refl, refl)
usage-kept ((p, q) ∷ us) c = usage-kept us _

outcome-kept :
    (o : Outcome) (c : Controller)
    → ((end_request o c).sessions ≡ c.sessions)
      × ((end_request o c).last_requester ≡ c.last_requester)
unfolding end_request count_outcome
outcome-kept completed c = (refl, refl)
outcome-kept cancelled c = (refl, refl)
outcome-kept failed c = (refl, refl)

pub ended-kept :
    (o : Outcome) (us : List (ℤ × ℤ)) (c : Controller)
    → ((end_request o (record_usage us c)).sessions ≡ c.sessions)
      × ((end_request o (record_usage us c)).last_requester ≡ c.last_requester)
ended-kept o us c = (
  (outcome-kept o (record_usage us c)).0 ∙ (usage-kept us c).0,
  (outcome-kept o (record_usage us c)).1 ∙ (usage-kept us c).1,
)

-- Isolation speaks of two fields.
IsIsolated-same :
    (c d : Controller)
    → d.sessions ≡ c.sessions
    → d.last_requester ≡ c.last_requester
    → IsIsolated c
    → IsIsolated d
IsIsolated-same c d p q h = rw (p, q) h

-- The engine is one that the requester may use: it has answered nobody else.
abbrev IsOwn : InferenceRequest → Controller → Type 0
IsOwn req c = All (λ s. s ≡ req.requester_member_id) c.sessions

begin_request-IsIsolated :
    (req : InferenceRequest) (c : Controller)
    → is_named req.requester_member_id ≡ true
    → IsOwn req c
    → IsIsolated (begin_request req c)
unfolding begin_request
begin_request-IsIsolated req c n h = ((refl, h), λ e. cc)

same_requester :
    (req : InferenceRequest) (c : Controller)
    → needs_restart req c ≡ false
    → is_named req.requester_member_id ≡ true
    → is_named c.last_requester ≡ true
    → c.last_requester ≡ req.requester_member_id
unfolding needs_restart
same_requester req c r n l = elim (bytes_dec req.requester_member_id c.last_requester) [
  | yes e ↦ sym e
  | no d ↦ absurd (differ (if_neg (bytes_dec req.requester_member_id c.last_requester) d _ _))
]
  where
    differ : is_text req.requester_member_id c.last_requester ≡ false → ⊥
    differ e = ground (arith, e, l, n, r)

kept-IsOwn :
    (req : InferenceRequest) (c : Controller)
    → needs_restart req c ≡ false
    → is_named req.requester_member_id ≡ true
    → IsIsolated c
    → IsOwn req c
kept-IsOwn req c r n h = elim (Bool-cases (is_named c.last_requester)) [
  | inl l ↦ subst (λ z. All (λ s. s ≡ z) c.sessions) (same_requester req c r n l) h.0
  | inr l ↦ rw (h.1 l) tt
]

restarted-sessions :
    (l : Launch) (c : Controller) → (restarted (launch_engine l c.loaded c)).0.sessions ≡ []
unfolding restarted launch_engine launch_begin launch_not_started launch_started launch_unhealthy
    launch_healthy stop_engine_locked engine_exited
restarted-sessions no_start c = refl
restarted-sessions (unhealthy p) c = refl
restarted-sessions (healthy p) c = refl
restarted-sessions (gone_before_ready p) c = rw (eq_refl p) refl
restarted-sessions (gone_after_ready p) c = rw (eq_refl p) refl

answer_request-IsIsolated :
    (o : Outcome) (us : List (ℤ × ℤ)) (req : InferenceRequest) (r : Controller × Result Error Bool)
    → is_named req.requester_member_id ≡ true
    → IsIsolated r.0
    → IsOwn req r.0
    → IsIsolated (answer_request o us req r).0
unfolding answer_request
answer_request-IsIsolated o us req (c, err e) n h w = h
answer_request-IsIsolated o us req (c, ok _) n h w =
    let (p, q) = ended-kept o us (begin_request req c) in
    IsIsolated-same (begin_request req c) (end_request o (record_usage us (begin_request req c))) p
      q (begin_request-IsIsolated req c n w)

pub inference_checked-IsIsolated :
    (launch : EngineArgs → Launch) (o : Outcome) (us : List (ℤ × ℤ)) (req : InferenceRequest)
    (c : Controller) (k : Result Error (Unit {0}))
    → is_named req.requester_member_id ≡ true
    → IsIsolated c
    → IsIsolated (inference_checked launch o us req c k).0
unfolding inference_checked
inference_checked-IsIsolated launch o us req c (err e) n h = h
inference_checked-IsIsolated launch o us req c (ok _) n h =
    if_cases {A = Controller × Result Error Bool} (λ z. IsIsolated (answer_request o us req z).0)
      (needs_restart req c)
      (λ r.
        answer_request-IsIsolated o us req (restarted (launch_engine (launch c.loaded) c.loaded c))
          n (restarted-IsIsolated _ (launch_engine-IsIsolated (launch c.loaded) c.loaded c))
          (subst (All (λ s. s ≡ req.requester_member_id))
            (sym (restarted-sessions (launch c.loaded) c)) tt))
      (λ r. answer_request-IsIsolated o us req (c, ok false) n h (kept-IsOwn req c r n h))
