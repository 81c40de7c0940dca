-- ===== src/Hosting/Destination/Policy.antt =====
-- destination.go: which addresses pass, by their ranges.
use woolwire.Base.{
  Bool, Bytes, Option, [], any, ap, arith, bytes_dec, err, false, if_neg, if◌then◌else◌, is_text,
  none, ok, some, true, ℕ, ◌↔◌, ◌∷◌, ◌≡◌, ◌≤◌, ◌⊎◌,
}
use woolwire.Hosting.Destination.{
  to4, canonical, known_metadata_ips, is_loopback, is_unspecified, is_multicast,
  is_link_local_unicast, is_private, is_carrier_grade, metadata, unspecified, multicast, link_local,
  private_network, carrier_grade, check_canonical, check_ip,
}

-- The IPv4 ranges that are closed without the owner's word: no address, 10/8, 100.64/10, 169.254/16,
-- 172.16/12, 192.168/16 and 224/4.
abbrev pub IsClosed : ℕ → ℕ → ℕ → ℕ → Type 0
IsClosed a b c d =
    ((a ≡ 0) × (b ≡ 0) × (c ≡ 0) × (d ≡ 0))
    ⊎ ((a ≡ 10)
        ⊎ (((a ≡ 100) × (64 ≤ b) × (b ≤ 127))
            ⊎ (((a ≡ 169) × (b ≡ 254))
                ⊎ (((a ≡ 172) × (16 ≤ b) × (b ≤ 31))
                    ⊎ (((a ≡ 192) × (b ≡ 168)) ⊎ ((224 ≤ a) × (a ≤ 239)))))))

pub is_text-eq : (x y : Bytes) → is_text x y ≡ true → x ≡ y
is_text-eq x y h = elim (bytes_dec x y) [
  | yes e ↦ e
  | no n ↦ absurd (differ (if_neg (bytes_dec x y) n _ _))
]
  where
    differ : is_text x y ≡ false → ⊥
    differ e = ground (arith, e, h)

-- The metadata services of IPv4 stand in two of the ranges.
metadata_range :
    (a b c d : ℕ)
    → any (is_text (a ∷ b ∷ c ∷ d ∷ [])) known_metadata_ips ≡ true
    → ((a ≡ 169) × (b ≡ 254)) ⊎ ((a ≡ 100) × (b ≡ 100))
metadata_range a b c d h = ground (
  arith,
  h,
  is_text-eq (a ∷ b ∷ c ∷ d ∷ []) (169 ∷ 254 ∷ 169 ∷ 254 ∷ []),
  is_text-eq (a ∷ b ∷ c ∷ d ∷ []) (169 ∷ 254 ∷ 170 ∷ 2 ∷ []),
  is_text-eq (a ∷ b ∷ c ∷ d ∷ [])
      (0xfd ∷ 0 ∷ 0x0e ∷ 0xc2 ∷ 0 ∷ 0 ∷ 0 ∷ 0 ∷ 0 ∷ 0 ∷ 0 ∷ 0 ∷ 0 ∷ 0 ∷ 2 ∷ 0x54 ∷ []),
  is_text-eq (a ∷ b ∷ c ∷ d ∷ []) (100 ∷ 100 ∷ 100 ∷ 200 ∷ []),
)

-- The tests behind the one for metadata.
open_canonical :
    (m : Bool) (a b c d : ℕ)
    → (m ≡ true → ((a ≡ 169) × (b ≡ 254)) ⊎ ((a ≡ 100) × (b ≡ 100)))
    → ((if m
          then err metadata
          else if is_loopback (a ∷ b ∷ c ∷ d ∷ [])
          then ok tt
          else if is_unspecified (a ∷ b ∷ c ∷ d ∷ [])
          then err unspecified
          else if is_multicast (a ∷ b ∷ c ∷ d ∷ [])
          then err multicast
          else if is_link_local_unicast (a ∷ b ∷ c ∷ d ∷ [])
          then err link_local
          else if is_private (a ∷ b ∷ c ∷ d ∷ [])
          then if false then ok tt else err private_network
          else if is_carrier_grade (a ∷ b ∷ c ∷ d ∷ [])
          then if false then ok tt else err carrier_grade
          else ok tt)
        ≡ ok tt)
      ↔ (¬ IsClosed a b c d)
open_canonical m a b c d h = ground (arith, h)

-- Without the owner's word, an IPv4 address passes exactly if it is outside 0.0.0.0, 10/8,
-- 100.64/10, 169.254/16, 172.16/12, 192.168/16 and 224/4.
pub check_ip_iff :
    (a b c d : ℕ) → (check_ip false (some (a ∷ b ∷ c ∷ d ∷ [])) ≡ ok tt) ↔ (¬ IsClosed a b c d)
unfolding check_ip check_canonical canonical to4
check_ip_iff a b c d = open_canonical _ a b c d (metadata_range a b c d)

-- The IPv6 spelling of an IPv4 address.
abbrev pub mapped : ℕ → ℕ → ℕ → ℕ → Bytes
mapped a b c d = 0 ∷ 0 ∷ 0 ∷ 0 ∷ 0 ∷ 0 ∷ 0 ∷ 0 ∷ 0 ∷ 0 ∷ 255 ∷ 255 ∷ a ∷ b ∷ c ∷ d ∷ []

pub check_ip-mapped :
    (allow_private : Bool) (a b c d : ℕ)
    → check_ip allow_private (some (mapped a b c d))
      ≡ check_ip allow_private (some (a ∷ b ∷ c ∷ d ∷ []))
unfolding check_ip
check_ip-mapped allow_private a b c d = ap (check_canonical allow_private) (same_form a b c d)
  where
    same_form : (a b c d : ℕ) → canonical (mapped a b c d) ≡ canonical (a ∷ b ∷ c ∷ d ∷ [])
    same_form a b c d = ground arith

check_canonical_opt_in :
    (ip : Bytes) → check_canonical false ip ≡ ok tt → check_canonical true ip ≡ ok tt
unfolding check_canonical
check_canonical_opt_in ip h = opened _ _ _ _ _ _ _ h
  where
    opened :
        (m l u n k p c : Bool)
        → (if m
            then err metadata
            else if l
            then ok tt
            else if u
            then err unspecified
            else if n
            then err multicast
            else if k
            then err link_local
            else if p
            then if false then ok tt else err private_network
            else if c
            then if false then ok tt else err carrier_grade
            else ok tt)
          ≡ ok tt
        → (if m
            then err metadata
            else if l
            then ok tt
            else if u
            then err unspecified
            else if n
            then err multicast
            else if k
            then err link_local
            else if p
            then if true then ok tt else err private_network
            else if c
            then if true then ok tt else err carrier_grade
            else ok tt)
          ≡ ok tt
    opened m l u n k p c h = ground (arith, h)

-- The owner's word opens addresses, and closes none.
pub check_ip_opt_in : (ip : Option Bytes) → check_ip false ip ≡ ok tt → check_ip true ip ≡ ok tt
unfolding check_ip
check_ip_opt_in none h = cc
check_ip_opt_in (some ip) h = check_canonical_opt_in (canonical ip) h
