-- ===== src/Inference/Service/Steps.antt =====
-- service.go: every order in which the sections of the service can come. One caller at most holds the
-- gate; the owner's settings, `Close` and firing timers come between its sections. The runner is set
-- once; a request that fails before it asks the runner changes nothing and is no step here.
use woolwire.Base.{Bool, List, [], false, some, true, ℕ, ℤ, ◌++◌, ◌||◌, ◌∷◌, ◌≡◌}
use woolwire.Inference.Service.{
  Timer, Service, new_service, set_idle_unload, close, schedule_idle_unload_locked, load_begin,
  load_failed, unload_begin, unload_done, ensure_loaded, ensure_begin, ensure_failed, ensure_done,
  check_idle, postpone, idle_failed, idle_done, dropped, postponed, unloading,
}

-- Who holds the gate, and where it is: waiting for the runner's answer, or streaming.
pub data Holder : Type 0 where
  nobody : Holder
  loading : Bool → Holder
  stopping : Holder
  probing : Holder
  switching : Bool → Bool → Holder
  streaming : Holder
  releasing : Timer → Holder

-- The service, the holder of the gate, and the callbacks of the timers that have fired.
pub record System : Type 0 where
  pub service : Service
  pub holder : Holder
  pub fired : List Timer

abbrev pub new_system : Service → System
new_system s = record { service = s; holder = nobody; fired = [] }

abbrev pub enter : Service → Holder → System → System
enter s h x = record x { service = s; holder = h }

abbrev pub spend : Service → Holder → List Timer → System → System
spend s h ts x = record { service = s; holder = h; fired = ts }

-- A callback gives up 30 seconds after it fired, or when the service closes. While another one
-- releases the engine it does not come to that: the other one fired earlier and its time ends first.
abbrev pub is_blocking : Holder → Bool
is_blocking nobody = false
is_blocking (releasing _) = false
is_blocking _ = true

-- The sections of the code. The owner's unload can fail only where `failing` says so.
pub data Step (failing : Bool) : System → System → Type 0 where
  loads :
      {x : System}
      → x.holder ≡ nobody
      → x.service.closed ≡ false
      → x.service.has_runner ≡ true
      → Step failing x (enter (load_begin x.service) (loading x.service.demand_loaded) x)
  load_fails :
      {x : System} (held demand : Bool)
      → x.holder ≡ loading demand
      → Step failing x (enter (load_failed held demand x.service) nobody x)
  load_succeeds :
      {x : System} (demand : Bool)
      → x.holder ≡ loading demand
      → Step failing x (enter x.service nobody x)
  unloads :
      {x : System}
      → x.holder ≡ nobody
      → x.service.has_runner ≡ true
      → Step failing x (enter (unload_begin x.service) stopping x)
  unload_fails :
      {x : System}
      → failing ≡ true
      → x.holder ≡ stopping
      → Step failing x (enter x.service nobody x)
  unload_succeeds :
      {x : System} → x.holder ≡ stopping → Step failing x (enter (unload_done x.service) nobody x)
  asks :
      {x : System}
      → x.holder ≡ nobody
      → x.service.closed ≡ false
      → x.service.has_runner ≡ true
      → Step failing x (enter x.service probing x)
  finds_loaded :
      {x : System}
      → x.holder ≡ probing
      → Step failing x (enter (ensure_loaded x.service) streaming x)
  switches :
      {x : System}
      → x.holder ≡ probing
      → Step failing x (
          enter
            (ensure_begin x.service)
            (switching x.service.demand_loaded x.service.manual_pinned)
            x)
  switch_fails :
      {x : System} (held demand pinned : Bool)
      → x.holder ≡ switching demand pinned
      → Step failing x (enter (ensure_failed held demand pinned x.service) nobody x)
  switch_succeeds :
      {x : System} (demand pinned : Bool)
      → x.holder ≡ switching demand pinned
      → Step failing x (enter (ensure_done x.service) streaming x)
  streams :
      {x : System}
      → x.holder ≡ streaming
      → Step failing x (enter (schedule_idle_unload_locked x.service) nobody x)
  sets_policy :
      {x : System} (d : ℤ) → Step failing x (enter (set_idle_unload d x.service) x.holder x)
  closes : {x : System} → Step failing x (enter (close x.service) x.holder x)
  fires :
      {x : System} (t : Timer)
      → x.service.idle_timer ≡ some t
      → t.ticking ≡ true
      → Step failing x (
          spend
            (record x.service { idle_timer = some (record t { ticking = false }) })
            x.holder
            (t ∷ x.fired)
            x)
  gives_up :
      {x : System} (before : List Timer) (t : Timer) (after : List Timer)
      → x.fired ≡ before ++ (t ∷ after)
      → (is_blocking x.holder || x.service.closed) ≡ true
      → Step failing x (spend x.service x.holder (before ++ after) x)
  drops :
      {x : System} (before : List Timer) (t : Timer) (after : List Timer) (stats : ℕ × ℕ)
      → x.fired ≡ before ++ (t ∷ after)
      → x.holder ≡ nobody
      → check_idle t.generation stats x.service ≡ dropped
      → Step failing x (spend x.service nobody (before ++ after) x)
  postpones :
      {x : System} (before : List Timer) (t : Timer) (after : List Timer) (stats : ℕ × ℕ)
      → x.fired ≡ before ++ (t ∷ after)
      → x.holder ≡ nobody
      → check_idle t.generation stats x.service ≡ postponed
      → Step failing x (spend (postpone t x.service) nobody (before ++ after) x)
  releases :
      {x : System} (before : List Timer) (t : Timer) (after : List Timer) (stats : ℕ × ℕ)
      → x.fired ≡ before ++ (t ∷ after)
      → x.holder ≡ nobody
      → check_idle t.generation stats x.service ≡ unloading
      → Step failing x (spend x.service (releasing t) (before ++ after) x)
  release_fails :
      {x : System} (t : Timer)
      → x.holder ≡ releasing t
      → Step failing x (enter (idle_failed t x.service) nobody x)
  release_succeeds :
      {x : System} (t : Timer)
      → x.holder ≡ releasing t
      → Step failing x (enter (idle_done t x.service) nobody x)

-- What a service can come to, from a new one.
pub data Reach (failing : Bool) (idle_after : ℤ) (has_runner : Bool) : System → Type 0 where
  start : Reach failing idle_after has_runner (new_system (new_service idle_after has_runner))
  then_step :
      {x y : System}
      → Reach failing idle_after has_runner x
      → Step failing x y
      → Reach failing idle_after has_runner y
