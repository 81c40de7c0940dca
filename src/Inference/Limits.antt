-- ===== src/Inference/Limits.antt =====
-- The limits of queue.go. Owners hand over signed integers; `normalize_limits` replaces what is not
-- positive, so the limits that a queue keeps are natural numbers. Durations are in nanoseconds.
use woolwire.Base.{arith, negsuc, pos, suc, zero, ℕ, ℤ, ◌*◌, ◌<◌, ◌^◌}

-- `Limits` as a caller fills it.
pub record RawLimits : Type 0 where
  pub max_active : ℤ
  pub max_queued_per_member : ℤ
  pub max_queued_total : ℤ
  pub queue_timeout : ℤ
  pub exec_timeout : ℤ

-- `Limits` after `normalize_limits`.
pub record Limits : Type 0 where
  pub max_active : ℕ
  pub max_queued_per_member : ℕ
  pub max_queued_total : ℕ
  pub queue_timeout : ℕ
  pub exec_timeout : ℕ

abbrev pub minute : ℕ
minute = 60 * 10 ^ 9

unfoldable pub default_limits : RawLimits
default_limits = record {
  max_active = pos 1;
  max_queued_per_member = pos 1;
  max_queued_total = pos 10;
  queue_timeout = pos (5 * minute);
  exec_timeout = pos (10 * minute);
}

-- `if v <= 0 { v = d }`
unfoldable pub positive_or : ℤ → ℕ → ℕ
positive_or (pos zero) d = d
positive_or (pos (suc n)) d = suc n
positive_or (negsuc n) d = d

unfoldable pub normalize_limits : RawLimits → Limits
unfolding positive_or
normalize_limits l = record {
  max_active = positive_or l.max_active 1;
  max_queued_per_member = positive_or l.max_queued_per_member 1;
  max_queued_total = positive_or l.max_queued_total 10;
  queue_timeout = positive_or l.queue_timeout (5 * minute);
  exec_timeout = positive_or l.exec_timeout (10 * minute);
}

positive_or-pos : (v : ℤ) (d : ℕ) → 0 < d → 0 < positive_or v d
unfolding positive_or
positive_or-pos (pos zero) d h = h
positive_or-pos (pos (suc n)) d h = omega arith
positive_or-pos (negsuc n) d h = h

pub max_active-pos : (l : RawLimits) → 0 < (normalize_limits l).max_active
unfolding normalize_limits
max_active-pos l = positive_or-pos l.max_active 1 (omega arith)
