-- ===== src/Inference/Service.antt =====
-- service.go: the lifecycle of the managed model. A caller holds the gate for the whole of a load, an
-- unload or a generation; what it does under `stateMu` is one section here, and other sections come
-- in between. A fired timer is a callback that waits for the gate.
pub mod Steps
pub mod Covered
pub mod Sections
pub mod Release
pub mod Calls
pub mod Paths
pub mod Requests
pub mod Execution
mod Tests
use woolwire.Base.{
  Bool, Option, false, if◌then◌else◌, ltb, ltb_ℤ, none, not, pos, some, suc, true, ℕ, ℤ, ◌&&◌, ◌*◌,
  ◌==◌, ◌||◌,
}
use woolwire.Inference.Limits.{minute}
use woolwire.Inference.Prompt.{second}

abbrev pub default_managed_idle_after : ℤ
default_managed_idle_after = pos (5 * minute)

abbrev pub min_idle_recheck : ℤ
min_idle_recheck = pos (2 * second)

-- A timer of the service: the generation that it was armed under, its delay, and whether it has yet
-- to fire.
pub record Timer : Type 0 where
  pub generation : ℕ
  pub delay : ℤ
  pub ticking : Bool

-- The fields under `stateMu`.
pub record Service : Type 0 where
  pub idle_timer : Option Timer
  pub idle_generation : ℕ
  pub demand_loaded : Bool
  pub manual_pinned : Bool
  pub closed : Bool
  pub idle_after : ℤ
  pub has_runner : Bool

unfoldable pub new_service : ℤ → Bool → Service
new_service idle_after has_runner = record {
  idle_timer = none;
  idle_generation = 0;
  demand_loaded = false;
  manual_pinned = false;
  closed = false;
  idle_after = idle_after;
  has_runner = has_runner;
}

-- `idleGeneration` counts timers; that it wraps after 2 ^ 64 of them is left out.
unfoldable pub stop_idle_timer_locked : Service → Service
stop_idle_timer_locked s = record s { idle_generation = suc s.idle_generation; idle_timer = none }

unfoldable pub rearm_idle_timer_locked : ℕ → ℤ → Service → Service
rearm_idle_timer_locked generation delay s = if ltb_ℤ delay (pos 0) then s else record s {
  idle_timer = some (record { generation = generation; delay = delay; ticking = true });
}

unfoldable pub arm_idle_timer_locked : ℕ → Service → Service
unfolding rearm_idle_timer_locked
arm_idle_timer_locked generation s =
    if ltb_ℤ s.idle_after (pos 0) then s else rearm_idle_timer_locked generation s.idle_after s

unfoldable pub schedule_idle_unload_locked : Service → Service
unfolding stop_idle_timer_locked arm_idle_timer_locked
schedule_idle_unload_locked s =
    let t = stop_idle_timer_locked s in
    if t.closed
      || t.manual_pinned
      || not t.demand_loaded
      || ltb_ℤ t.idle_after (pos 0)
      || not t.has_runner
    then t
    else arm_idle_timer_locked t.idle_generation t

unfoldable pub set_idle_unload : ℤ → Service → Service
unfolding schedule_idle_unload_locked
set_idle_unload d s = schedule_idle_unload_locked (record s { idle_after = d })

unfoldable pub close : Service → Service
unfolding stop_idle_timer_locked
close s = if s.closed then s else stop_idle_timer_locked (record s { closed = true })

-- `LoadManagedModel`: the section before the runner is asked, and the one after it failed.
unfoldable pub load_begin : Service → Service
unfolding stop_idle_timer_locked
load_begin s = record (stop_idle_timer_locked s) { manual_pinned = true; demand_loaded = false }

unfoldable pub load_failed : Bool → Bool → Service → Service
unfolding schedule_idle_unload_locked
load_failed loaded_after_failure previous_demand s =
    let t = record s {
      manual_pinned = false;
      demand_loaded = loaded_after_failure || previous_demand;
    } in
    if t.demand_loaded then schedule_idle_unload_locked t else t

-- `UnloadManagedModel`: the same two places, the second one after a success.
unfoldable pub unload_begin : Service → Service
unfolding stop_idle_timer_locked
unload_begin s = stop_idle_timer_locked s

unfoldable pub unload_done : Service → Service
unload_done s = record s { manual_pinned = false; demand_loaded = false }

-- `ensureManagedLoadedGated`: the runner holds the model already; or it is asked to load it, and
-- fails or succeeds.
unfoldable pub ensure_loaded : Service → Service
unfolding stop_idle_timer_locked
ensure_loaded s =
    let t = stop_idle_timer_locked s in
    if t.manual_pinned then t else record t { demand_loaded = true }

unfoldable pub ensure_begin : Service → Service
unfolding stop_idle_timer_locked
ensure_begin s = record (stop_idle_timer_locked s) { demand_loaded = false; manual_pinned = false }

unfoldable pub ensure_failed : Bool → Bool → Bool → Service → Service
unfolding schedule_idle_unload_locked
ensure_failed loaded_after_failure previous_demand previous_pinned s =
    if previous_pinned
    then record s { manual_pinned = true }
    else if loaded_after_failure || previous_demand
    then schedule_idle_unload_locked (record s { demand_loaded = true })
    else s

unfoldable pub ensure_done : Service → Service
ensure_done s = record s { demand_loaded = true; manual_pinned = false }

-- The timer's callback under the gate: it has nothing to do, the queue is busy, or the runner is
-- asked to unload.
pub data Verdict : Type 0 where
  dropped postponed unloading : Verdict

unfoldable pub check_idle : ℕ → ℕ × ℕ → Service → Verdict
check_idle generation (active, queued) s =
    if s.closed || not (generation == s.idle_generation) || s.manual_pinned || not s.demand_loaded
    then dropped
    else if ltb 0 active || ltb 0 queued
    then postponed
    else if s.has_runner
    then unloading
    else dropped

abbrev pub retry_delay : ℤ → ℤ
retry_delay delay = if ltb_ℤ delay min_idle_recheck then min_idle_recheck else delay

unfoldable pub postpone : Timer → Service → Service
unfolding rearm_idle_timer_locked
postpone t s =
    rearm_idle_timer_locked t.generation (retry_delay t.delay) (record s { idle_timer = none })

unfoldable pub idle_failed : Timer → Service → Service
unfolding postpone
idle_failed t s =
    if not s.closed && t.generation == s.idle_generation && s.demand_loaded && not s.manual_pinned
    then postpone t s
    else s

unfoldable pub idle_done : Timer → Service → Service
idle_done t s =
    if t.generation == s.idle_generation && not s.closed && not s.manual_pinned
    then record s { demand_loaded = false; idle_timer = none }
    else s
