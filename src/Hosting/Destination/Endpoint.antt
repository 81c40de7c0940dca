-- ===== src/Hosting/Destination/Endpoint.antt =====
-- destination.go: the check of an endpoint's URL, and the dialer that sees the addresses of a name.
use mathlib.Core.List.{reverse}
use woolwire.Base.{
  Bool, Bytes, List, Option, Result, [], any, codes, err, fail_if, false, if◌then◌else◌, is_text,
  leb, length, ltb, none, not, ok, or_fail, some, true, ℕ, ◌&&◌, ◌*◌, ◌++◌, ◌+◌, ◌-◌, ◌==◌, ◌>>=◌,
  ◌>>◌, ◌||◌, ◌∷◌,
}
use woolwire.Community.Sanitize.{strip_prefix}
use woolwire.Hosting.Destination.{
  Error, metadata, invalid_url, unsupported_scheme, empty_host, invalid_port, plain_http,
  no_address, canonical, is_loopback, check_ip, check_port,
}

abbrev pub default_port_for_scheme : Bytes → ℕ
default_port_for_scheme scheme = if is_text scheme (codes "https") then 443 else 80

-- What url.Parse makes of a text, as far as it is read here.
pub record Url : Type 0 where
  pub scheme : Bytes
  pub hostname : Bytes
  pub port : Bytes

-- The parts of Go's library that read a text.
pub record Reader : Type 0 where
  pub parse_url : Bytes → Option Url
  pub parse_ip : Bytes → Option Bytes
  pub to_lower : Bytes → Bytes

-- `strconv.Atoi` of digits: a port of a URL has no other character.
unfoldable pub atoi : ℕ → Bytes → Option ℕ
atoi n [] = some n
atoi n (c ∷ cs) =
    let rest = atoi (n * 10 + (c - b'0')) cs in if leb b'0' c && leb c b'9' then rest else none

abbrev pub valid_port : Option ℕ → Result Error ℕ
valid_port none = err invalid_port
valid_port (some p) = if p == 0 || ltb 65535 p then err invalid_port else ok p

unfoldable pub port_of : Url → Result Error ℕ
unfolding atoi
port_of u =
    if length u.port == 0 then ok (default_port_for_scheme u.scheme) else valid_port (atoi 0 u.port)

-- `strings.TrimSuffix(s, suffix)`
unfoldable pub trim_suffix : Bytes → Bytes → Bytes
unfolding strip_prefix
trim_suffix s suffix = elim (strip_prefix (reverse suffix) (reverse s)) [
  | some rest ↦ reverse rest
  | none ↦ s
]

unfoldable pub has_suffix : Bytes → Bytes → Bool
unfolding strip_prefix
has_suffix s suffix = elim (strip_prefix (reverse suffix) (reverse s)) [
  | some rest ↦ true
  | none ↦ false
]

abbrev pub metadata_hostnames : List Bytes
metadata_hostnames =
    codes "metadata.google.internal" ∷ codes "metadata.goog" ∷ codes "instance-data" ∷ []

unfoldable pub is_metadata_host : Bytes → Bool
unfolding has_suffix
is_metadata_host host =
    any (λ name. is_text host name || has_suffix host (codes "." ++ name)) metadata_hostnames

unfoldable pub lowered_host : Reader → Url → Bytes
unfolding trim_suffix
lowered_host reader u = reader.to_lower (trim_suffix u.hostname (codes "."))

-- What is asked of the host: of an address the policy, and of a name only the port.
unfoldable pub check_host : Bool → Bytes → Bytes → ℕ → Option Bytes → Result Error (Unit {0})
unfolding check_ip check_port canonical
check_host allow_private scheme host port (some ip) = do
  check_ip allow_private (some ip)
  check_port allow_private (some ip) port
  fail_if (is_text scheme (codes "http") && not (is_loopback (canonical ip)) && not allow_private)
      plain_http
check_host allow_private scheme host port none =
    if is_text host (codes "localhost") then ok tt else check_port allow_private none port

-- `requirePlainHTTPIsLocal`, of the parsed URL
unfoldable pub require_plain_http_is_local :
    Bool → Bytes → Bytes → Option Bytes → Result Error (Unit {0})
unfolding canonical
require_plain_http_is_local allow_private scheme host ip =
    if not (is_text scheme (codes "http"))
    then ok tt
    else if is_text host (codes "localhost")
        || is_text host (codes "host.docker.internal")
        || is_text host (codes "host.containers.internal")
    then ok tt
    else if elim ip [ some a ↦ is_loopback (canonical a) | none ↦ false ]
    then ok tt
    else if allow_private
    then ok tt
    else err plain_http

-- `ValidateDestinationWithPolicy`
unfoldable pub validate_destination : Reader → Bool → Bytes → Result Error (Unit {0})
unfolding port_of is_metadata_host lowered_host check_host require_plain_http_is_local
validate_destination reader allow_private text = do
  u ← or_fail (reader.parse_url text) invalid_url
  fail_if (not (is_text u.scheme (codes "http")) && not (is_text u.scheme (codes "https")))
      unsupported_scheme
  fail_if (length u.hostname == 0) empty_host
  port ← port_of u
  let host = lowered_host reader u
  fail_if (is_metadata_host host) metadata
  check_host allow_private u.scheme host port (reader.parse_ip host)
  require_plain_http_is_local allow_private u.scheme host (reader.parse_ip host)

-- The checks of a dial, of every address that the name has.
unfoldable pub check_all : Bool → ℕ → List Bytes → Result Error (Unit {0})
unfolding check_ip check_port
check_all allow_private port [] = ok tt
check_all allow_private port (ip ∷ ips) = do
  check_ip allow_private (some ip)
  check_port allow_private (some ip) port
  check_all allow_private port ips

-- The first address that answers.
unfoldable pub connect : (Bytes → Bool) → List Bytes → Option Bytes
connect answers [] = none
connect answers (ip ∷ ips) = let rest = connect answers ips in if answers ip then some ip else rest

-- `GuardedDialer`, for a host and a port that it could read: the address that it connects to, or none
-- where no address answers.
unfoldable pub guarded_dial : Bool → ℕ → List Bytes → (Bytes → Bool) → Result Error (Option Bytes)
unfolding check_all connect
guarded_dial allow_private port candidates answers = do
  fail_if (length candidates == 0) no_address
  check_all allow_private port candidates
  ok (connect answers candidates)
