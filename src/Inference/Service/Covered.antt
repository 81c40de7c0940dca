-- ===== src/Inference/Service/Covered.antt =====
-- service.go: when a loaded engine has a release to come, and what each holder of the gate keeps.
use woolwire.Base.{
  Bool, List, Option, [], false, ltb_ℤ, none, not, pos, some, true, ℕ, ◌&&◌, ◌==◌, ◌||◌, ◌∷◌, ◌≡◌,
}
use woolwire.Inference.Service.{Timer, Service}
use woolwire.Inference.Service.Steps.{
  Holder, nobody, loading, stopping, probing, switching, streaming, releasing, System,
}

-- The engine is to be released some time: a request loaded it, and nothing speaks against it.
abbrev pub is_awaiting : Service → Bool
is_awaiting s =
    not s.closed
    && not s.manual_pinned
    && s.demand_loaded
    && not (ltb_ℤ s.idle_after (pos 0))
    && s.has_runner

-- The timer runs under the generation.
abbrev pub is_armed : ℕ → Option Timer → Bool
is_armed g none = false
is_armed g (some t) = t.ticking && t.generation == g

-- A callback of the generation waits for the gate.
unfoldable pub is_fired : ℕ → List Timer → Bool
is_fired g [] = false
is_fired g (t ∷ ts) = t.generation == g || is_fired g ts

-- Where the engine is to be released, something is under way that does it.
abbrev pub is_covered : Service → List Timer → Bool
is_covered s fired =
    not (is_awaiting s)
    || is_armed s.idle_generation s.idle_timer
    || is_fired s.idle_generation fired

-- An armed timer is one of the present generation, of a service that is not closed.
abbrev pub is_current : Service → Option Timer → Bool
is_current s none = true
is_current s (some t) = not s.closed && t.generation == s.idle_generation

abbrev pub is_sound : Service → Bool
is_sound s = not (s.manual_pinned && s.demand_loaded) && is_current s s.idle_timer

-- What holds while a caller is inside, and so what its last section can rely on.
abbrev pub promise : Holder → Service → List Timer → Bool
promise nobody s fired = is_covered s fired
promise (loading _) s fired = s.manual_pinned && not s.demand_loaded
promise stopping s fired = true
promise probing s fired = true
promise (switching _ _) s fired = not s.manual_pinned && not s.demand_loaded
promise streaming s fired = true
promise (releasing t) s fired = is_covered s fired || t.generation == s.idle_generation

abbrev pub Inv : System → Type 0
Inv x = (is_sound x.service ≡ true) × (promise x.holder x.service x.fired ≡ true)
