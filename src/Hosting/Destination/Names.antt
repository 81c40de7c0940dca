-- ===== src/Hosting/Destination/Names.antt =====
-- destination.go: the names of metadata services and the names under them.
use mathlib.Core.List.{reverse, reverse-append}
use woolwire.Community.Sanitize.{strip_prefix}
use woolwire.Base.{
  All, Bool, Bytes, List, Option, [], any, ap, arith, bytes_dec, codes, false, is_text, ite_cases,
  none, refl, some, subst, sym, true, ℕ, ◌++◌, ◌==◌, ◌||◌, ◌∙◌, ◌∷◌, ◌≡◌, ◌≢◌,
}
use woolwire.Hosting.Destination.Endpoint.{has_suffix}

-- Neither a metadata name nor a name under one.
abbrev pub IsApart : Bytes → Bytes → Type 0
IsApart host name = (host ≢ name) × ((sub : Bytes) → host ≢ sub ++ (codes "." ++ name))

pub is_text_refl : (x : Bytes) → is_text x x ≡ true
is_text_refl x = ite_cases (λ b. b ≡ true) (bytes_dec x x) (λ _. refl) (λ n. absurd (n refl))

strip_prefix-append : (p s : Bytes) → strip_prefix p (p ++ s) ≡ some s
unfolding strip_prefix
strip_prefix-append [] s = refl
strip_prefix-append (x ∷ p) s = rw (same x) (strip_prefix-append p s)
  where
    same : (n : ℕ) → (n == n) ≡ true
    same n = ground arith

has_suffix-append : (p s : Bytes) → has_suffix (p ++ s) s ≡ true
unfolding has_suffix
has_suffix-append p s = found (strip_prefix (reverse s) (reverse (p ++ s))) (reverse p) (
    ap (strip_prefix (reverse s)) (reverse-append p s)
    ∙ strip_prefix-append (reverse s) (reverse p))
  where
    found :
        (o : Option Bytes) (rest : Bytes)
        → o ≡ some rest
        → elim o [ some r ↦ true | none ↦ false ] ≡ true
    found (some r) rest e = refl
    found none rest e = cc

pub not_false : (b : Bool) → b ≡ true → b ≡ false → ⊥
not_false b p q = cc

name-IsApart :
    (host name : Bytes)
    → (is_text host name || has_suffix host (codes "." ++ name)) ≡ false
    → IsApart host name
name-IsApart host name h = (
  λ e.
      not_false (is_text host name) (subst (λ z. is_text host z ≡ true) e (is_text_refl host))
        (ground (arith, h)),
  λ sub e.
      not_false (has_suffix host (codes "." ++ name))
        (subst (λ z. has_suffix z (codes "." ++ name) ≡ true) (sym e)
          (has_suffix-append sub (codes "." ++ name)))
        (ground (arith, h)),
)

pub names-IsApart :
    (host : Bytes) (names : List Bytes)
    → any (λ name. is_text host name || has_suffix host (codes "." ++ name)) names ≡ false
    → All (IsApart host) names
names-IsApart host [] h = tt
names-IsApart host (n ∷ ns) h =
    (name-IsApart host n (ground (arith, h)), names-IsApart host ns (ground (arith, h)))
