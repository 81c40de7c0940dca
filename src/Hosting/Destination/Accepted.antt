-- ===== src/Hosting/Destination/Accepted.antt =====
-- destination.go: what an endpoint that is accepted is, said without the checks that accept it.
use woolwire.Base.{
  All, Bool, Bool-cases, Bytes, Option, Result, [], ap, arith, bytes_dec, codes, err, fail_if,
  false, if◌then◌else◌, inl, inr, is_text, length, none, not, ok, or_fail, refl, some, subst, sym,
  true, ℕ, ℕ_discrete, ◌&&◌, ◌==◌, ◌>>=◌, ◌||◌, ◌∙◌, ◌∷◌, ◌≡◌, ◌≢◌, ◌≤◌, ◌⊎◌,
}
use woolwire.Hosting.Destination.{
  check_ip, check_port, canonical, is_loopback, is_default_port, metadata, invalid_url,
  unsupported_scheme, empty_host, plain_http,
}
use woolwire.Hosting.Destination.Endpoint.{
  Url, Reader, atoi, valid_port, port_of, default_port_for_scheme, metadata_hostnames,
  is_metadata_host, lowered_host, check_host, require_plain_http_is_local, validate_destination,
}
use woolwire.Hosting.Destination.Policy.{is_text-eq}
use woolwire.Hosting.Destination.Dialer.{both_ok}
use woolwire.Hosting.Destination.Names.{IsApart, is_text_refl, not_false, names-IsApart}

abbrev pub IsLocalName : Bytes → Type 0
IsLocalName host =
    (host ≡ codes "localhost")
    ⊎ ((host ≡ codes "host.docker.internal") ⊎ (host ≡ codes "host.containers.internal"))

-- A host that is a literal address of the machine itself.
abbrev pub IsLoopbackLiteral : Option Bytes → Type 0
IsLoopbackLiteral o = (ip : Bytes) × ((o ≡ some ip) × (is_loopback (canonical ip) ≡ true))

-- The port that a URL names, or that of its scheme.
abbrev pub IsPort : Url → ℕ → Type 0
IsPort u port =
    ((u.port ≡ [])
      × (((u.scheme ≡ codes "https") × (port ≡ 443)) ⊎ ((u.scheme ≡ codes "http") × (port ≡ 80))))
    ⊎ ((atoi 0 u.port ≡ some port) × ((1 ≤ port) × (port ≤ 65535)))

pub record Valid (reader : Reader) (allow_private : Bool) (u : Url) : Type 0 where
  pub named : u.hostname ≢ []
  pub no_metadata : All (IsApart (lowered_host reader u)) metadata_hostnames
  pub address :
      (reader.parse_ip (lowered_host reader u) ≡ none)
      ⊎ ((ip : Bytes) × ((reader.parse_ip (lowered_host reader u) ≡ some ip)
            × (check_ip allow_private (some ip) ≡ ok tt)))
  pub encrypted_or_local :
      (u.scheme ≡ codes "https")
      ⊎ ((u.scheme ≡ codes "http")
          × ((allow_private ≡ true)
              ⊎ (IsLocalName (lowered_host reader u)
                  ⊎ IsLoopbackLiteral (reader.parse_ip (lowered_host reader u)))))
  pub port :
      (n : ℕ) × (IsPort u n
        × ((allow_private ≡ true)
            ⊎ ((lowered_host reader u ≡ codes "localhost")
                ⊎ (IsLoopbackLiteral (reader.parse_ip (lowered_host reader u))
                    ⊎ (is_default_port n ≡ true)))))

bound_ok :
    {E A B : Type 0} (r : Result E A) (f : A → Result E B) (b : B)
    → (r >>= f) ≡ ok b
    → (a : A) × ((r ≡ ok a) × (f a ≡ ok b))
bound_ok (ok a) f b h = (a, (refl, h))
bound_ok (err e) f b h = cc

fail_if-false : {E : Type 0} (b : Bool) (e : E) → fail_if b e ≡ ok tt → b ≡ false
fail_if-false true e h = cc
fail_if-false false e h = refl

or_fail-some : (o : Option Url) (u : Url) → or_fail o invalid_url ≡ ok u → o ≡ some u
or_fail-some (some v) u h = cc
or_fail-some none u h = cc

-- What the checks of a chain that has passed say.
scheme_known :
    (scheme : Bytes)
    → (not (is_text scheme (codes "http")) && not (is_text scheme (codes "https"))) ≡ false
    → (scheme ≡ codes "https") ⊎ (scheme ≡ codes "http")
scheme_known scheme h = elim (Bool-cases (is_text scheme (codes "http"))) [
  | inl p ↦ inr (is_text-eq scheme (codes "http") p)
  | inr p ↦ inl (is_text-eq scheme (codes "https") (ground (arith, h, p)))
]

local_or_private :
    (a http here docker containers loopback : Bool)
    → (if not http
        then ok tt
        else if here || docker || containers
        then ok tt
        else if loopback
        then ok tt
        else if a
        then ok tt
        else err plain_http)
      ≡ ok tt
    → http ≡ true
    → (a ≡ true) ⊎ (((here ≡ true) ⊎ ((docker ≡ true) ⊎ (containers ≡ true))) ⊎ (loopback ≡ true))
local_or_private a http here docker containers loopback h p = ground (arith, h, p)

loopback_of :
    (o : Option Bytes)
    → elim o [ some ip ↦ is_loopback (canonical ip) | none ↦ false ] ≡ true
    → IsLoopbackLiteral o
loopback_of (some ip) h = (ip, (refl, h))
loopback_of none h = cc

plain_http-local :
    (a : Bool) (scheme host : Bytes) (o : Option Bytes)
    → require_plain_http_is_local a scheme host o ≡ ok tt
    → scheme ≡ codes "http"
    → (a ≡ true) ⊎ (IsLocalName host ⊎ IsLoopbackLiteral o)
unfolding require_plain_http_is_local
plain_http-local a scheme host o h e =
    elim (local_or_private a (is_text scheme (codes "http")) (is_text host (codes "localhost"))
      (is_text host (codes "host.docker.internal"))
      (is_text host (codes "host.containers.internal"))
      (elim o [ some ip ↦ is_loopback (canonical ip) | none ↦ false ]) h
      (subst (λ z. is_text z (codes "http") ≡ true) (sym e) (is_text_refl (codes "http")))) [
        | inl p ↦ inl p
        | inr (inl (inl p)) ↦ inr (inl (inl (is_text-eq host (codes "localhost") p)))
        | inr (inl (inr (inl p))) ↦
            inr (inl (inr (inl (is_text-eq host (codes "host.docker.internal") p))))
        | inr (inl (inr (inr p))) ↦
            inr (inl (inr (inr (is_text-eq host (codes "host.containers.internal") p))))
        | inr (inr p) ↦ inr (inr (loopback_of o p))
      ]

port_allowed :
    (a : Bool) (o : Option Bytes) (n : ℕ)
    → check_port a o n ≡ ok tt
    → (a ≡ true) ⊎ (IsLoopbackLiteral o ⊎ (is_default_port n ≡ true))
unfolding check_port
port_allowed a none n h = ground (arith, h)
port_allowed a (some ip) n h = elim (Bool-cases (is_loopback (canonical ip))) [
  | inl p ↦ inr (inl (ip, (refl, p)))
  | inr p ↦ ground (arith, h, p)
]

host_port :
    (a : Bool) (scheme host : Bytes) (n : ℕ) (o : Option Bytes)
    → check_host a scheme host n o ≡ ok tt
    → (a ≡ true) ⊎ ((host ≡ codes "localhost") ⊎ (IsLoopbackLiteral o ⊎ (is_default_port n ≡ true)))
unfolding check_host
host_port a scheme host n none h = elim (Bool-cases (is_text host (codes "localhost"))) [
  | inl p ↦ inr (inl (is_text-eq host (codes "localhost") p))
  | inr p ↦ elim (port_allowed a none n (ground (arith, h, p))) [
    | inl q ↦ inl q
    | inr q ↦ inr (inr q)
  ]
]
host_port a scheme host n (some ip) h =
    let k = both_ok (check_ip a (some ip)) _ tt h in
    elim (port_allowed a (some ip) n (both_ok (check_port a (some ip) n) _ tt k.1).0) [
      | inl q ↦ inl q
      | inr q ↦ inr (inr q)
    ]

host_address :
    (a : Bool) (scheme host : Bytes) (n : ℕ) (o : Option Bytes)
    → check_host a scheme host n o ≡ ok tt
    → (o ≡ none) ⊎ ((ip : Bytes) × ((o ≡ some ip) × (check_ip a (some ip) ≡ ok tt)))
unfolding check_host
host_address a scheme host n none h = inl refl
host_address a scheme host n (some ip) h =
    inr (ip, (refl, (both_ok (check_ip a (some ip)) _ tt h).0))

valid_port-bounded :
    (o : Option ℕ) (n : ℕ) → valid_port o ≡ ok n → (o ≡ some n) × ((1 ≤ n) × (n ≤ 65535))
valid_port-bounded none n h = cc
valid_port-bounded (some m) n h = ground (arith, h)

empty_of : (s : Bytes) → length s ≡ 0 → s ≡ []
empty_of [] h = refl
empty_of (c ∷ cs) h = absurd (omega arith)

default_of :
    (scheme : Bytes) (n : ℕ)
    → (scheme ≡ codes "https") ⊎ (scheme ≡ codes "http")
    → default_port_for_scheme scheme ≡ n
    → ((scheme ≡ codes "https") × (n ≡ 443)) ⊎ ((scheme ≡ codes "http") × (n ≡ 80))
unfolding bytes_dec ℕ_discrete
default_of scheme n (inl e) h = inl (e, sym h ∙ ap default_port_for_scheme e)
default_of scheme n (inr e) h = inr (e, sym h ∙ ap default_port_for_scheme e)

port_of-IsPort :
    (u : Url) (n : ℕ)
    → (u.scheme ≡ codes "https") ⊎ (u.scheme ≡ codes "http")
    → port_of u ≡ ok n
    → IsPort u n
unfolding port_of
port_of-IsPort u n k h = elim (Bool-cases (length u.port == 0)) [
  | inl p ↦
      inl (empty_of u.port (ground (arith, p)), default_of u.scheme n k (ground (arith, h, p)))
  | inr p ↦ inr (valid_port-bounded (atoi 0 u.port) n (ground (arith, h, p)))
]

-- An endpoint that is accepted parses as a URL with a host that is neither a metadata name nor
-- under one; the host is no literal address or one that the policy for addresses lets through; the
-- scheme is https, or it is http and private networks are allowed or the host is one of the three
-- names of the machine or a loopback address; and the port, given and from 1 to 65535 or that of
-- the scheme, is one of the allowed ports unless private networks are allowed or the host is
-- localhost or a loopback address.
pub validate_destination-Valid :
    (reader : Reader) (allow_private : Bool) (text : Bytes)
    → validate_destination reader allow_private text ≡ ok tt
    → (u : Url) × ((reader.parse_url text ≡ some u) × Valid reader allow_private u)
unfolding validate_destination is_metadata_host
validate_destination-Valid reader a text h =
    let (u, (p, k)) = bound_ok (or_fail (reader.parse_url text) invalid_url) _ tt h in
    let host = lowered_host reader u in
    let scheme =
      both_ok
        (fail_if (not (is_text u.scheme (codes "http")) && not (is_text u.scheme (codes "https")))
          unsupported_scheme)
        _ tt k in
    let known = scheme_known u.scheme (fail_if-false _ unsupported_scheme scheme.0) in
    let full = both_ok (fail_if (length u.hostname == 0) empty_host) _ tt scheme.1 in
    let (n, (q, rest)) = bound_ok (port_of u) _ tt full.1 in
    let apart = both_ok (fail_if (is_metadata_host host) metadata) _ tt rest in
    let last = both_ok (check_host a u.scheme host n (reader.parse_ip host)) _ tt apart.1 in
    (
      u,
      (
        or_fail-some (reader.parse_url text) u p,
        record {
          named = λ e.
              not_false (length u.hostname == 0) (ap (λ z. length z == 0) e)
                (fail_if-false _ empty_host full.0);
          no_metadata = names-IsApart host metadata_hostnames (fail_if-false _ metadata apart.0);
          address = host_address a u.scheme host n (reader.parse_ip host) last.0;
          encrypted_or_local = elim known [
            | inl e ↦ inl e
            | inr e ↦ inr (e, plain_http-local a u.scheme host (reader.parse_ip host) last.1 e)
          ];
          port = (
            n,
            (port_of-IsPort u n known q, host_port a u.scheme host n (reader.parse_ip host) last.0),
          );
        },
      ),
    )
