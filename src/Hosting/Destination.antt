-- ===== src/Hosting/Destination.antt =====
-- internal/hosting/destination.go: where a model's endpoint or a download may lead. An address is its
-- 4 or 16 bytes, as in net.IP. What url.Parse and net.ParseIP read, strings.ToLower, and what a
-- resolver or a dial yields, are arguments.
pub mod Policy
pub mod Endpoint
pub mod Dialer
pub mod Names
pub mod Accepted
mod Tests
use mathlib.Core.List.{reverse}
use woolwire.Base.{
  Bool, Bytes, List, Option, Result, [], any, err, false, if◌then◌else◌, is_text, leb, length, none,
  not, ok, some, ℕ, ◌&&◌, ◌/◌, ◌==◌, ◌||◌, ◌∷◌,
}
use woolwire.Community.Sanitize.{strip_prefix}

abbrev pub default_allowed_ports : List ℕ
default_allowed_ports = 80 ∷ 443 ∷ 8000 ∷ 8080 ∷ 1234 ∷ 11434 ∷ []

-- `DefaultAllowedPorts[port]`
abbrev pub is_default_port : ℕ → Bool
is_default_port port = any (λ p. p == port) default_allowed_ports

-- The last 4 of 16 bytes that begin with ten zeros and two times 255: an IPv4 address in IPv6.
unfoldable pub unmapped : Bytes → Option Bytes
unfolding strip_prefix
unmapped ip = elim (strip_prefix (0 ∷ 0 ∷ 0 ∷ 0 ∷ 0 ∷ 0 ∷ 0 ∷ 0 ∷ 0 ∷ 0 ∷ 255 ∷ 255 ∷ []) ip) [
  | some rest ↦ if length rest == 4 then some rest else none
  | none ↦ none
]

-- `ip.To4()`
unfoldable pub to4 : Bytes → Option Bytes
unfolding unmapped
to4 ip = if length ip == 4 then some ip else unmapped ip

-- One form for both spellings of an IPv4 address; `ip.Equal` compares these.
unfoldable pub canonical : Bytes → Bytes
unfolding to4
canonical ip = elim (to4 ip) [ some v4 ↦ v4 | none ↦ ip ]

abbrev pub known_metadata_ips : List Bytes
known_metadata_ips =
    (169 ∷ 254 ∷ 169 ∷ 254 ∷ [])
    ∷ (169 ∷ 254 ∷ 170 ∷ 2 ∷ [])
    ∷ (0xfd ∷ 0 ∷ 0x0e ∷ 0xc2 ∷ 0 ∷ 0 ∷ 0 ∷ 0 ∷ 0 ∷ 0 ∷ 0 ∷ 0 ∷ 0 ∷ 0 ∷ 2 ∷ 0x54 ∷ [])
    ∷ (100 ∷ 100 ∷ 100 ∷ 200 ∷ [])
    ∷ []

-- net.IP's tests, on the one form of an address.
abbrev pub is_loopback : Bytes → Bool
is_loopback (a ∷ b ∷ c ∷ d ∷ []) = a == 127
is_loopback ip = is_text ip (0 ∷ 0 ∷ 0 ∷ 0 ∷ 0 ∷ 0 ∷ 0 ∷ 0 ∷ 0 ∷ 0 ∷ 0 ∷ 0 ∷ 0 ∷ 0 ∷ 0 ∷ 1 ∷ [])

abbrev pub is_unspecified : Bytes → Bool
is_unspecified (a ∷ b ∷ c ∷ d ∷ []) = a == 0 && b == 0 && c == 0 && d == 0
is_unspecified ip = is_text ip (0 ∷ 0 ∷ 0 ∷ 0 ∷ 0 ∷ 0 ∷ 0 ∷ 0 ∷ 0 ∷ 0 ∷ 0 ∷ 0 ∷ 0 ∷ 0 ∷ 0 ∷ 0 ∷ [])

-- The interface-local and link-local multicast ranges lie in this one.
abbrev pub is_multicast : Bytes → Bool
is_multicast (a ∷ b ∷ c ∷ d ∷ []) = a / 16 == 14
is_multicast (a ∷ rest) = length rest == 15 && a == 255
is_multicast [] = false

abbrev pub is_link_local_unicast : Bytes → Bool
is_link_local_unicast (a ∷ b ∷ c ∷ d ∷ []) = a == 169 && b == 254
is_link_local_unicast (a ∷ b ∷ rest) = length rest == 14 && a == 254 && b / 64 == 2
is_link_local_unicast _ = false

abbrev pub is_private : Bytes → Bool
is_private (a ∷ b ∷ c ∷ d ∷ []) = a == 10 || a == 172 && b / 16 == 1 || a == 192 && b == 168
is_private (a ∷ rest) = length rest == 15 && a / 2 == 126
is_private [] = false

abbrev pub is_carrier_grade : Bytes → Bool
is_carrier_grade (a ∷ b ∷ c ∷ d ∷ []) = a == 100 && leb 64 b && leb b 127
is_carrier_grade _ = false

pub data Error : Type 0 where
  unresolvable metadata unspecified multicast link_local private_network carrier_grade : Error
  blocked_port invalid_url unsupported_scheme empty_host invalid_port plain_http no_address : Error

unfoldable pub check_canonical : Bool → Bytes → Result Error (Unit {0})
check_canonical allow_private ip =
    if any (is_text ip) known_metadata_ips
    then err metadata
    else if is_loopback ip
    then ok tt
    else if is_unspecified ip
    then err unspecified
    else if is_multicast ip
    then err multicast
    else if is_link_local_unicast ip
    then err link_local
    else if is_private ip
    then if allow_private then ok tt else err private_network
    else if is_carrier_grade ip
    then if allow_private then ok tt else err carrier_grade
    else ok tt

-- `DestinationPolicy.CheckIP`, for a policy that allows private networks or not
unfoldable pub check_ip : Bool → Option Bytes → Result Error (Unit {0})
unfolding check_canonical canonical
check_ip allow_private none = err unresolvable
check_ip allow_private (some ip) = check_canonical allow_private (canonical ip)

unfoldable pub check_port : Bool → Option Bytes → ℕ → Result Error (Unit {0})
unfolding canonical
check_port allow_private ip port =
    if elim ip [ some a ↦ is_loopback (canonical a) | none ↦ false ]
    then ok tt
    else if allow_private
    then ok tt
    else if not (is_default_port port)
    then err blocked_port
    else ok tt
