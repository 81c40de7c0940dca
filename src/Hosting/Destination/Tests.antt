-- ===== src/Hosting/Destination/Tests.antt =====
-- Destinations, and the theorems on them.
use woolwire.Base.{
  All, Bytes, [], bytes_dec, codes, err, false, none, ok, refl, some, true, ℕ_discrete, ◌↔◌, ◌∷◌,
  ◌≡◌,
}
use woolwire.Community.Sanitize.{strip_prefix}
use woolwire.Hosting.Destination.{check_ip, check_port, private_network, metadata}
use woolwire.Hosting.Destination.Endpoint.{
  check_all, guarded_dial, Url, Reader, validate_destination,
}
use woolwire.Hosting.Destination.Policy.{IsClosed, check_ip_iff, mapped, check_ip-mapped}
use woolwire.Hosting.Destination.Dialer.{Passes, guarded_dial-Passes}
use woolwire.Hosting.Destination.Accepted.{Valid, validate_destination-Valid}

program : Unit {0}
unfolding check_ip check_port check_all guarded_dial validate_destination bytes_dec ℕ_discrete
    strip_prefix
program = tt

abbrev router : Bytes
router = 192 ∷ 168 ∷ 1 ∷ 1 ∷ []

router_closed :
    (check_ip false (some router) ≡ err private_network)
    × (check_ip true (some router) ≡ ok tt)
    × (check_ip true (some (mapped 169 254 169 254)) ≡ err metadata)
unfolding program
router_closed = (refl, refl, refl)

check_ip_iff_example : (check_ip false (some (8 ∷ 8 ∷ 8 ∷ 8 ∷ [])) ≡ ok tt) ↔ (¬ IsClosed 8 8 8 8)
check_ip_iff_example = check_ip_iff 8 8 8 8

check_ip-mapped_run :
    check_ip false (some (mapped 10 0 0 1)) ≡ check_ip false (some (10 ∷ 0 ∷ 0 ∷ 1 ∷ []))
check_ip-mapped_run = check_ip-mapped false 10 0 0 1

abbrev public_ip : Bytes
public_ip = 8 ∷ 8 ∷ 8 ∷ 8 ∷ []

guarded_dial-Passes_example : All (Passes false 443) (public_ip ∷ []) × Passes false 443 public_ip
unfolding program
guarded_dial-Passes_example =
    guarded_dial-Passes false 443 (public_ip ∷ []) (λ _. true) public_ip refl

abbrev example_url : Url
example_url = record { scheme = codes "https"; hostname = codes "example.org"; port = [] }

abbrev reader : Reader
reader = record { parse_url = λ _. some example_url; parse_ip = λ _. none; to_lower = λ s. s }

validate_destination-Valid_example :
    (u : Url) × ((reader.parse_url (codes "https://example.org") ≡ some u) × Valid reader false u)
unfolding program
validate_destination-Valid_example =
    validate_destination-Valid reader false (codes "https://example.org") refl
