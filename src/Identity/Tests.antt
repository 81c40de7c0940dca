-- ===== src/Identity/Tests.antt =====
-- Runs of the payload code.
use woolwire.Base.{codes, negsuc, pos, refl, ◌≡◌}
use woolwire.Identity.Decimal.{format_int}

format_int-negative : format_int (negsuc 41) ≡ codes "-42"
unfolding format_int
format_int-negative = refl

format_int-large : format_int (pos 1732608983) ≡ codes "1732608983"
unfolding format_int
format_int-large = refl
