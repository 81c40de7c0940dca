-- ===== src/Inference/Service/Sections.antt =====
-- service.go: what each section does to the invariant of the service.
use woolwire.Base.{
  Bool, List, [], arith, false, inl, inr, not, refl, some, true, ℕ, ℤ, ◌&&◌, ◌++◌, ◌==◌, ◌||◌, ◌∷◌,
  ◌≡◌, ◌≢◌, ◌⊎◌,
}
use woolwire.Inference.Service.{
  Timer, Service, set_idle_unload, close, schedule_idle_unload_locked, arm_idle_timer_locked,
  rearm_idle_timer_locked, stop_idle_timer_locked, load_begin, load_failed, unload_begin,
  unload_done, ensure_loaded, ensure_begin, ensure_failed, ensure_done, check_idle, postpone,
  idle_failed, idle_done, dropped,
}
use woolwire.Inference.Service.Steps.{
  Holder, is_blocking, nobody, loading, stopping, probing, switching, streaming, releasing,
}
use woolwire.Inference.Service.Covered.{is_awaiting, is_fired, is_covered, is_sound, promise}

pub schedule_covered :
    (s : Service) (fired : List Timer) → is_covered (schedule_idle_unload_locked s) fired ≡ true
unfolding schedule_idle_unload_locked stop_idle_timer_locked arm_idle_timer_locked
    rearm_idle_timer_locked
schedule_covered s fired = ground arith

pub schedule_sound :
    (s : Service)
    → not (s.manual_pinned && s.demand_loaded) ≡ true
    → is_sound (schedule_idle_unload_locked s) ≡ true
unfolding schedule_idle_unload_locked stop_idle_timer_locked arm_idle_timer_locked
    rearm_idle_timer_locked
schedule_sound s h = ground arith

pub is_fired_middle :
    (g : ℕ) (before : List Timer) (t : Timer) (after : List Timer)
    → is_fired g (before ++ (t ∷ after)) ≡ true
    → (t.generation == g || is_fired g (before ++ after)) ≡ true
unfolding is_fired
is_fired_middle g [] t after h = h
is_fired_middle g (u ∷ us) t after h = ground (arith, is_fired_middle g us t after)

-- A callback that is of no use can go.
pub covered_without :
    (s : Service) (before : List Timer) (t : Timer) (after : List Timer)
    → is_covered s (before ++ (t ∷ after)) ≡ true
    → (t.generation == s.idle_generation) ≡ false
    → is_covered s (before ++ after) ≡ true
covered_without s before t after h n =
    ground (arith, is_fired_middle s.idle_generation before t after)

pub policy-Inv :
    (h : Holder) (d : ℤ) (s : Service) (fired : List Timer)
    → is_sound s ≡ true
    → promise h s fired ≡ true
    → (is_sound (set_idle_unload d s) ≡ true) × (promise h (set_idle_unload d s) fired ≡ true)
unfolding set_idle_unload schedule_idle_unload_locked stop_idle_timer_locked arm_idle_timer_locked
    rearm_idle_timer_locked
policy-Inv nobody d s fired p q = ground arith
policy-Inv (loading _) d s fired p q = ground arith
policy-Inv stopping d s fired p q = ground arith
policy-Inv probing d s fired p q = ground arith
policy-Inv (switching _ _) d s fired p q = ground arith
policy-Inv streaming d s fired p q = ground arith
policy-Inv (releasing t) d s fired p q = ground arith

pub close-Inv :
    (h : Holder) (s : Service) (fired : List Timer)
    → is_sound s ≡ true
    → promise h s fired ≡ true
    → (is_sound (close s) ≡ true) × (promise h (close s) fired ≡ true)
unfolding close stop_idle_timer_locked
close-Inv nobody s fired p q = ground arith
close-Inv (loading _) s fired p q = ground arith
close-Inv stopping s fired p q = ground arith
close-Inv probing s fired p q = ground arith
close-Inv (switching _ _) s fired p q = ground arith
close-Inv streaming s fired p q = ground arith
close-Inv (releasing t) s fired p q = ground arith

pub load_failed-Inv :
    (held demand : Bool) (s : Service) (fired : List Timer)
    → is_sound s ≡ true
    → (s.manual_pinned && not s.demand_loaded) ≡ true
    → (is_sound (load_failed held demand s) ≡ true)
      × (is_covered (load_failed held demand s) fired ≡ true)
unfolding load_failed schedule_idle_unload_locked stop_idle_timer_locked arm_idle_timer_locked
    rearm_idle_timer_locked
load_failed-Inv held demand s fired p q = ground arith

pub ensure_failed-Inv :
    (held demand pinned : Bool) (s : Service) (fired : List Timer)
    → is_sound s ≡ true
    → (not s.manual_pinned && not s.demand_loaded) ≡ true
    → (is_sound (ensure_failed held demand pinned s) ≡ true)
      × (is_covered (ensure_failed held demand pinned s) fired ≡ true)
unfolding ensure_failed schedule_idle_unload_locked stop_idle_timer_locked arm_idle_timer_locked
    rearm_idle_timer_locked
ensure_failed-Inv held demand pinned s fired p q = ground arith

pub postpone-Inv :
    (t : Timer) (s : Service) (fired : List Timer)
    → is_sound s ≡ true
    → s.closed ≡ false
    → (t.generation == s.idle_generation) ≡ true
    → (is_sound (postpone t s) ≡ true) × (is_covered (postpone t s) fired ≡ true)
unfolding postpone rearm_idle_timer_locked
postpone-Inv t s fired p q r = ground arith

pub idle_failed-Inv :
    (t : Timer) (s : Service) (fired : List Timer)
    → is_sound s ≡ true
    → promise (releasing t) s fired ≡ true
    → (is_sound (idle_failed t s) ≡ true) × (is_covered (idle_failed t s) fired ≡ true)
unfolding idle_failed postpone rearm_idle_timer_locked
idle_failed-Inv t s fired p q = ground arith

pub idle_done-Inv :
    (t : Timer) (s : Service) (fired : List Timer)
    → is_sound s ≡ true
    → promise (releasing t) s fired ≡ true
    → (is_sound (idle_done t s) ≡ true) × (is_covered (idle_done t s) fired ≡ true)
unfolding idle_done
idle_done-Inv t s fired p q = ground arith

pub check_idle-dropped :
    (g : ℕ) (stats : ℕ × ℕ) (s : Service)
    → check_idle g stats s ≡ dropped
    → (is_awaiting s ≡ false) ⊎ ((g == s.idle_generation) ≡ false)
unfolding check_idle
check_idle-dropped g (a, q) s h = ground arith

-- The callback goes on only where the engine is its own to release.
pub check_idle_current :
    (g : ℕ) (stats : ℕ × ℕ) (s : Service)
    → check_idle g stats s ≢ dropped
    → ((g == s.idle_generation) ≡ true)
      × ((s.closed ≡ false) × ((s.manual_pinned ≡ false) × (s.demand_loaded ≡ true)))
unfolding check_idle
check_idle_current g (a, q) s h = ground arith

-- The fields that the caller's first and last sections set.
pub load_begin-Inv : (s : Service) → is_sound (load_begin s) ≡ true
unfolding load_begin stop_idle_timer_locked
load_begin-Inv s = ground arith

pub load_begin-promise :
    (s : Service) → ((load_begin s).manual_pinned && not (load_begin s).demand_loaded) ≡ true
unfolding load_begin stop_idle_timer_locked
load_begin-promise s = refl

pub unload_begin-Inv : (s : Service) → is_sound s ≡ true → is_sound (unload_begin s) ≡ true
unfolding unload_begin stop_idle_timer_locked
unload_begin-Inv s h = ground arith

pub unload_done-Inv :
    (s : Service) (fired : List Timer)
    → is_sound s ≡ true
    → (is_sound (unload_done s) ≡ true) × (is_covered (unload_done s) fired ≡ true)
unfolding unload_done
unload_done-Inv s fired h = ground arith

pub ensure_loaded-Inv : (s : Service) → is_sound s ≡ true → is_sound (ensure_loaded s) ≡ true
unfolding ensure_loaded stop_idle_timer_locked
ensure_loaded-Inv s h = ground arith

pub ensure_begin-Inv :
    (s : Service)
    → (is_sound (ensure_begin s) ≡ true)
      × ((not (ensure_begin s).manual_pinned && not (ensure_begin s).demand_loaded) ≡ true)
unfolding ensure_begin stop_idle_timer_locked
ensure_begin-Inv s = ground arith

pub ensure_done-Inv : (s : Service) → is_sound s ≡ true → is_sound (ensure_done s) ≡ true
unfolding ensure_done
ensure_done-Inv s h = ground arith

-- A loaded engine that its owner pinned needs no release.
pub pinned_covered :
    (s : Service) (fired : List Timer)
    → (s.manual_pinned && not s.demand_loaded) ≡ true
    → is_covered s fired ≡ true
pinned_covered s fired h = ground arith

pub fires-Inv :
    (h : Holder) (t : Timer) (s : Service) (fired : List Timer)
    → s.idle_timer ≡ some t
    → is_sound s ≡ true
    → promise h s fired ≡ true
    → let s' = record s { idle_timer = some (record t { ticking = false }) } in
      (is_sound s' ≡ true) × (promise h s' (t ∷ fired) ≡ true)
unfolding is_fired
fires-Inv nobody t s fired e p q = ground arith
fires-Inv (loading _) t s fired e p q = ground arith
fires-Inv stopping t s fired e p q = ground arith
fires-Inv probing t s fired e p q = ground arith
fires-Inv (switching _ _) t s fired e p q = ground arith
fires-Inv streaming t s fired e p q = ground arith
fires-Inv (releasing u) t s fired e p q = ground arith

pub gives_up-Inv :
    (h : Holder) (s : Service) (before : List Timer) (t : Timer) (after : List Timer)
    → (is_blocking h || s.closed) ≡ true
    → promise h s (before ++ (t ∷ after)) ≡ true
    → promise h s (before ++ after) ≡ true
gives_up-Inv nobody s before t after b q = ground arith
gives_up-Inv (loading _) s before t after b q = q
gives_up-Inv stopping s before t after b q = q
gives_up-Inv probing s before t after b q = q
gives_up-Inv (switching _ _) s before t after b q = q
gives_up-Inv streaming s before t after b q = q
gives_up-Inv (releasing u) s before t after b q = ground arith

pub drops-Inv :
    (s : Service) (before : List Timer) (t : Timer) (after : List Timer) (stats : ℕ × ℕ)
    → check_idle t.generation stats s ≡ dropped
    → is_covered s (before ++ (t ∷ after)) ≡ true
    → is_covered s (before ++ after) ≡ true
drops-Inv s before t after stats d q = elim (check_idle-dropped t.generation stats s d) [
  | inl a ↦ ground (arith, a)
  | inr n ↦ covered_without s before t after q n
]
