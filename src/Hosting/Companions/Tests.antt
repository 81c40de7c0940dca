-- ===== src/Hosting/Companions/Tests.antt =====
-- The choice of companions among files of a repository.
use mathlib.Core.List.{Mem}
use woolwire.Base.{All, Bytes, List, [], bytes_dec, codes, refl, true, ℕ, ℕ_discrete, ◌∷◌, ◌≡◌}
use woolwire.Hosting.Companions.{
  classify_companion, no_companion, CompanionCandidate, companion_projector, companion_draft,
  choose_companions, is_kind,
}
use woolwire.Hosting.Companions.Order.{Preferred}
use woolwire.Hosting.Companions.Choice.{choose_kind-Least}

program : Unit {0}
unfolding classify_companion choose_companions bytes_dec ℕ_discrete
program = tt

abbrev file : Bytes → ℕ → CompanionCandidate
file path size = record { path = path; size = size; kind = companion_projector }

abbrev found : List CompanionCandidate
found = file (codes "mmproj-F32.gguf") 20 ∷ file (codes "mmproj-F16.gguf") 10 ∷ []

chosen : choose_companions found (codes "Q4_K_M") ≡ file (codes "mmproj-F16.gguf") 10 ∷ []
unfolding program
chosen = refl

abbrev chosen_one : CompanionCandidate
chosen_one = file (codes "mmproj-F16.gguf") 10

choose_kind-Least_example :
    Mem chosen_one found
    × (is_kind chosen_one.kind companion_projector ≡ true)
    × All
        (λ y.
          is_kind y.kind companion_projector ≡ true
          → Preferred (codes "Q4_K_M") companion_projector chosen_one y)
        found
unfolding program
choose_kind-Least_example =
    choose_kind-Least found (codes "Q4_K_M") companion_projector chosen_one refl

classified :
    (classify_companion (codes "sub/MMPROJ-model-F16.gguf") ≡ companion_projector)
    × (classify_companion (codes "MTP/gemma.gguf") ≡ companion_draft)
    × (classify_companion (codes "mtp-x.gguf") ≡ companion_draft)
    × (classify_companion (codes "xmmproj.gguf") ≡ no_companion)
unfolding program
classified = (refl, refl, refl, refl)
