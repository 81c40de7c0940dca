-- ===== src/Hosting/Destination/Dialer.antt =====
-- destination.go: what a dial has passed.
use woolwire.Base.{
  All, Bool, Bytes, List, Option, Result, [], arith, err, fail_if, false, if◌then◌else◌, inl, inr,
  length, ok, refl, some, subst, true, ℕ, ◌==◌, ◌>>◌, ◌∷◌, ◌≡◌, ◌⊎◌,
}
use woolwire.Hosting.Destination.{Error, check_ip, check_port, no_address}
use woolwire.Hosting.Destination.Endpoint.{check_all, connect, guarded_dial}

-- An address and a port that the policy lets through.
abbrev pub Passes : Bool → ℕ → Bytes → Type 0
Passes allow_private port ip =
    (check_ip allow_private (some ip) ≡ ok tt) × (check_port allow_private (some ip) port ≡ ok tt)

-- A chain of checks that ends well has passed each.
pub both_ok :
    {E B : Type 0} (r : Result E (Unit {0})) (s : Result E B) (b : B)
    → (r >> s) ≡ ok b
    → (r ≡ ok tt) × (s ≡ ok b)
both_ok (ok _) s b h = (refl, h)
both_ok (err e) s b h = cc

check_all-Passes :
    (allow_private : Bool) (port : ℕ) (ips : List Bytes)
    → check_all allow_private port ips ≡ ok tt
    → All (Passes allow_private port) ips
unfolding check_all
check_all-Passes a port [] h = tt
check_all-Passes a port (ip ∷ ips) h =
    let k =
      both_ok (check_ip a (some ip)) (check_port a (some ip) port >> check_all a port ips) tt h in
    let l = both_ok (check_port a (some ip) port) (check_all a port ips) tt k.1 in
    ((k.0, l.0), check_all-Passes a port ips l.1)

first_or_rest :
    (b : Bool) (x ip : Bytes) (rest : Option Bytes)
    → (if b then some x else rest) ≡ some ip
    → (x ≡ ip) ⊎ (rest ≡ some ip)
first_or_rest true x ip rest h = inl (ground (arith, h))
first_or_rest false x ip rest h = inr h

connect-Passes :
    (P : Bytes → Type 0) (answers : Bytes → Bool) (ips : List Bytes) (ip : Bytes)
    → connect answers ips ≡ some ip
    → All P ips
    → P ip
unfolding connect
connect-Passes P answers [] ip h a = cc
connect-Passes P answers (x ∷ xs) ip h a =
    elim (first_or_rest (answers x) x ip (connect answers xs) h) [
      | inl e ↦ subst P e a.0
      | inr e ↦ connect-Passes P answers xs ip e a.1
    ]

ok-injective : {A : Type 0} (r : Result Error A) (a b : A) → r ≡ ok a → r ≡ ok b → a ≡ b
ok-injective r a b p q = cc

-- If the guarded dialer connects to an address, then every address that the name resolved to has
-- passed the checks of address and port, and so has the one that it connects to.
pub guarded_dial-Passes :
    (allow_private : Bool) (port : ℕ) (candidates : List Bytes) (answers : Bytes → Bool)
    (ip : Bytes)
    → guarded_dial allow_private port candidates answers ≡ ok (some ip)
    → All (Passes allow_private port) candidates × Passes allow_private port ip
unfolding guarded_dial
guarded_dial-Passes a port candidates answers ip h =
    let k =
      both_ok (fail_if (length candidates == 0) no_address)
        (check_all a port candidates >> ok (connect answers candidates)) (some ip) h in
    let l = both_ok (check_all a port candidates) (ok (connect answers candidates)) (some ip) k.1 in
    let p = check_all-Passes a port candidates l.0 in
    (
      p,
      connect-Passes (Passes a port) answers candidates ip
          (ok-injective (ok (connect answers candidates)) (connect answers candidates) (some ip)
            refl l.1)
          p,
    )
