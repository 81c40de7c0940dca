-- ===== src/Inference/Service/Release.antt =====
-- service.go: what is under way to release an engine that a request loaded.
use woolwire.Base.{
  Bool, List, arith, err, false, none, refl, some, subst, sym, true, ℕ, ℤ, ◌++◌, ◌↔◌, ◌∙◌, ◌≡◌, ◌≢◌,
  ◌≤◌, ◌⊎◌,
}
use woolwire.Inference.Service.{
  Timer, Service, new_service, schedule_idle_unload_locked, stop_idle_timer_locked, unload_begin,
  rearm_idle_timer_locked, idle_failed, idle_done, check_idle, postpone, dropped, postponed,
  unloading,
}
use woolwire.Inference.Prompt.{Error}
use woolwire.Inference.Service.Calls.{
  Runner, release_idle, release_answered, unload_answered, unload_managed_model,
}
use woolwire.Inference.Service.Steps.{
  Holder, nobody, releasing, System, Step, Reach, start, then_step, loads, load_fails,
  load_succeeds, unloads, unload_fails, unload_succeeds, asks, finds_loaded, switches, switch_fails,
  switch_succeeds, streams, sets_policy, closes, fires, gives_up, drops, postpones, releases,
  release_fails, release_succeeds,
}
use woolwire.Inference.Service.Covered.{
  is_awaiting, is_armed, is_fired, is_covered, is_sound, promise, Inv,
}
use woolwire.Inference.Service.Sections.{
  schedule_covered, schedule_sound, policy-Inv, close-Inv, load_failed-Inv, ensure_failed-Inv,
  postpone-Inv, idle_failed-Inv, idle_done-Inv, check_idle_current, load_begin-Inv,
  load_begin-promise, unload_begin-Inv, unload_done-Inv, ensure_loaded-Inv, ensure_begin-Inv,
  ensure_done-Inv, pinned_covered, fires-Inv, gives_up-Inv, drops-Inv,
}

-- What the holder of the gate can rely on.
relied : (x : System) (h : Holder) → x.holder ≡ h → Inv x → promise h x.service x.fired ≡ true
relied x h e i = subst (λ z. promise z x.service x.fired ≡ true) e (i.1)

streams-Inv :
    (s : Service) (fired : List Timer)
    → is_sound s ≡ true
    → (is_sound (schedule_idle_unload_locked s) ≡ true)
      × (is_covered (schedule_idle_unload_locked s) fired ≡ true)
streams-Inv s fired h = (schedule_sound s (ground (arith, h)), schedule_covered s fired)

postpones-Inv :
    (s : Service) (t : Timer) (fired : List Timer) (stats : ℕ × ℕ)
    → check_idle t.generation stats s ≡ postponed
    → is_sound s ≡ true
    → (is_sound (postpone t s) ≡ true) × (is_covered (postpone t s) fired ≡ true)
postpones-Inv s t fired stats e h =
    let c =
      check_idle_current t.generation stats s (λ d. absurd (postponed_not_dropped (sym e ∙ d))) in
    postpone-Inv t s fired h (c.1.0) (c.0)
  where
    postponed_not_dropped : postponed ≢ dropped
    postponed_not_dropped e = cc

releases-Inv :
    (s : Service) (t : Timer) (fired : List Timer) (stats : ℕ × ℕ)
    → check_idle t.generation stats s ≡ unloading
    → promise (releasing t) s fired ≡ true
releases-Inv s t fired stats e =
    let c =
      check_idle_current t.generation stats s (λ d. absurd (unloading_not_dropped (sym e ∙ d))) in
    ground (arith, c.0)
  where
    unloading_not_dropped : unloading ≢ dropped
    unloading_not_dropped e = cc

-- The callback that takes the gate, among those that wait for it.
waiting :
    (x : System) (fired : List Timer)
    → x.fired ≡ fired
    → x.holder ≡ nobody
    → Inv x
    → is_covered x.service fired ≡ true
waiting x fired e h i = subst (λ z. is_covered x.service z ≡ true) e (relied x nobody h i)

pub Step-Inv : (x y : System) → Step false x y → Inv x → Inv y
Step-Inv x y (loads p q r) i = (load_begin-Inv x.service, load_begin-promise x.service)
Step-Inv x y (load_fails held demand p) i =
    load_failed-Inv held demand x.service x.fired i.0 (relied x _ p i)
Step-Inv x y (load_succeeds demand p) i = (i.0, pinned_covered x.service x.fired (relied x _ p i))
Step-Inv x y (unloads p r) i = (unload_begin-Inv x.service i.0, refl)
Step-Inv x y (unload_fails f p) i = cc
Step-Inv x y (unload_succeeds p) i = unload_done-Inv x.service x.fired i.0
Step-Inv x y (asks p q r) i = (i.0, refl)
Step-Inv x y (finds_loaded p) i = (ensure_loaded-Inv x.service i.0, refl)
Step-Inv x y (switches p) i = ensure_begin-Inv x.service
Step-Inv x y (switch_fails held demand pinned p) i =
    ensure_failed-Inv held demand pinned x.service x.fired i.0 (relied x _ p i)
Step-Inv x y (switch_succeeds demand pinned p) i = (ensure_done-Inv x.service i.0, refl)
Step-Inv x y (streams p) i = streams-Inv x.service x.fired i.0
Step-Inv x y (sets_policy d) i = policy-Inv x.holder d x.service x.fired i.0 i.1
Step-Inv x y closes i = close-Inv x.holder x.service x.fired i.0 i.1
Step-Inv x y (fires t e k) i = fires-Inv x.holder t x.service x.fired e i.0 i.1
Step-Inv x y (gives_up before t after e b) i = (
  i.0,
  gives_up-Inv x.holder x.service before t after b
      (subst (λ z. promise x.holder x.service z ≡ true) e i.1),
)
Step-Inv x y (drops before t after stats e h d) i =
    (i.0, drops-Inv x.service before t after stats d (waiting x _ e h i))
Step-Inv x y (postpones before t after stats e h d) i =
    postpones-Inv x.service t (before ++ after) stats d i.0
Step-Inv x y (releases before t after stats e h d) i =
    (i.0, releases-Inv x.service t (before ++ after) stats d)
Step-Inv x y (release_fails t p) i = idle_failed-Inv t x.service x.fired i.0 (relied x _ p i)
Step-Inv x y (release_succeeds t p) i = idle_done-Inv t x.service x.fired i.0 (relied x _ p i)

-- Whatever the order of the sections, every reachable service satisfies the invariant.
pub reachable-Inv :
    (idle_after : ℤ) (has_runner : Bool) (x : System) → Reach false idle_after has_runner x → Inv x
unfolding new_service
reachable-Inv d r x start = (refl, refl)
reachable-Inv d r x (then_step {x = y} h t) = Step-Inv y x t (reachable-Inv d r y h)

-- In every order of loads, requests, stream ends, policy changes, closing, firing and released
-- timers in which no unload by the owner fails, a service that is open, whose gate is free and
-- whose engine a request loaded, without a pin, with a release delay and with a runner, has a
-- timer of the present generation that runs, or one that has fired and waits for the gate.
pub idle_release_pending :
    (idle_after : ℤ) (has_runner : Bool) (x : System)
    → Reach false idle_after has_runner x
    → x.holder ≡ nobody
    → is_awaiting x.service ≡ true
    → (is_armed x.service.idle_generation x.service.idle_timer ≡ true)
      ⊎ (is_fired x.service.idle_generation x.fired ≡ true)
idle_release_pending d r x h p a = ground (arith, relied x nobody p (reachable-Inv d r x h))

-- The callback of a timer, where nothing comes between its sections, leaves an engine that a
-- request loaded released exactly if the service is open, the timer is of the present generation,
-- the engine is not pinned, no request runs or waits, there is a runner, and the runner does not
-- refuse to unload.
pub release_idle_iff :
    (runner : Runner) (t : Timer) (active queued : ℕ) (s : Service)
    → s.demand_loaded ≡ true
    → ((release_idle runner t (active, queued) s).demand_loaded ≡ false) ↔ (
        (s.closed ≡ false)
        × (t.generation ≡ s.idle_generation)
        × (s.manual_pinned ≡ false)
        × (active ≡ 0)
        × (queued ≡ 0)
        × (s.has_runner ≡ true)
        × (runner.unload ≡ none))
unfolding release_idle check_idle release_answered idle_done idle_failed postpone
    rearm_idle_timer_locked
release_idle_iff runner t active queued s d = ground (arith, d)

-- If the owner unloads an engine that a request loaded, at an open service with a runner, and the
-- runner refuses, the call gives the runner's error, the engine is still taken to be loaded on
-- demand, no timer is armed, and a callback of a timer that was armed before the call is dropped.
pub unload_failure-Stranded :
    (runner : Runner) (s : Service) (e : Error) (g : ℕ) (stats : ℕ × ℕ)
    → s.closed ≡ false
    → s.has_runner ≡ true
    → s.demand_loaded ≡ true
    → runner.unload ≡ some e
    → g ≤ s.idle_generation
    → ((unload_managed_model runner s).1 ≡ err e)
      × ((unload_managed_model runner s).0.demand_loaded ≡ true)
      × ((unload_managed_model runner s).0.idle_timer ≡ none)
      × (check_idle g stats (unload_managed_model runner s).0 ≡ dropped)
unfolding unload_managed_model unload_answered unload_begin stop_idle_timer_locked check_idle
unload_failure-Stranded runner s e g (a, q) c r d u h = ground (arith, c, r, d, u, h)
