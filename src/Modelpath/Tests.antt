-- ===== src/Modelpath/Tests.antt =====
-- References at concrete inputs.
use woolwire.Base.{bytes_dec, codes, err, ok, refl, ℕ_discrete, ◌≡◌}
use woolwire.Community.Sanitize.{trim_space, trim_fuel, strip_any, strip_prefix}
use woolwire.Modelpath.{escapes, split, join, has_forbidden, is_dots, clean}

program : Unit {0}
unfolding clean split join has_forbidden is_dots trim_space trim_fuel strip_any strip_prefix
    bytes_dec ℕ_discrete
program = tt

nested : clean (codes "hub/owl.gguf") ≡ ok (codes "hub/owl.gguf")
unfolding program
nested = refl

traversal : clean (codes "hub/../../etc") ≡ err escapes
unfolding program
traversal = refl
