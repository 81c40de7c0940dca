-- ===== src/Hosting/Companions/Order.antt =====
-- companions.go: the order of the candidates, as the code compares them and said without the code.
use woolwire.Base.{
  Bool, Bytes, [], arith, false, if◌then◌else◌, inl, inr, length, lt_bytes, lt_bytes_irrefl,
  lt_bytes_trans, ltb, not, refl, true, ℕ, ◌&&◌, ◌<◌, ◌==◌, ◌∷◌, ◌≡◌, ◌≢◌, ◌⊎◌,
}
use woolwire.Hosting.Companions.{
  CompanionKind, precision_rank, CompanionCandidate, matches_quantization, precedes,
}

-- The comparison, of the results of its tests.
abbrev order_of : (unasked mx my : Bool) (rx ry sx sy : ℕ) (by_path : Bool) → Bool
order_of unasked mx my rx ry sx sy by_path =
    let by_size = if sx == sy then by_path else ltb sx sy in
    let by_rank = if rx == ry then by_size else ltb rx ry in
    if unasked
    then by_rank
    else if mx && not my
    then true
    else if my && not mx
    then false
    else by_rank

order_of_irrefl : (n m : Bool) (r s : ℕ) (p : Bool) → p ≡ false → order_of n m m r r s s p ≡ false
order_of_irrefl n m r s p h = ground (arith, h)

order_of_trans :
    (n mx my mz : Bool) (rx ry rz sx sy sz : ℕ) (p q r : Bool)
    → (p ≡ true → q ≡ true → r ≡ true)
    → order_of n mx my rx ry sx sy p ≡ true
    → order_of n my mz ry rz sy sz q ≡ true
    → order_of n mx mz rx rz sx sz r ≡ true
order_of_trans n mx my mz rx ry rz sx sy sz p q r t h k = ground (arith, t, h, k)

pub precedes_irrefl :
    (w : Bytes) (k : CompanionKind) (x : CompanionCandidate) → precedes w k x x ≡ false
unfolding precedes
precedes_irrefl w k x =
    order_of_irrefl (length w == 0) (matches_quantization w x) (precision_rank x.path k) x.size
      (lt_bytes x.path x.path) (lt_bytes_irrefl x.path)

pub precedes_trans :
    (w : Bytes) (k : CompanionKind) (x y z : CompanionCandidate)
    → precedes w k x y ≡ true
    → precedes w k y z ≡ true
    → precedes w k x z ≡ true
unfolding precedes
precedes_trans w k x y z =
    order_of_trans (length w == 0) (matches_quantization w x) (matches_quantization w y)
      (matches_quantization w z) (precision_rank x.path k) (precision_rank y.path k)
      (precision_rank z.path k) x.size y.size z.size (lt_bytes x.path y.path)
      (lt_bytes y.path z.path) (lt_bytes x.path z.path) (lt_bytes_trans x.path y.path z.path)

-- `x` does not come after `y` by path, by size and then path, and by precision before these.
abbrev pub ByPath : CompanionCandidate → CompanionCandidate → Type 0
ByPath x y = lt_bytes y.path x.path ≡ false

abbrev pub BySize : CompanionCandidate → CompanionCandidate → Type 0
BySize x y = (x.size < y.size) ⊎ ((x.size ≡ y.size) × ByPath x y)

abbrev pub ByRank : CompanionKind → CompanionCandidate → CompanionCandidate → Type 0
ByRank kind x y =
    (precision_rank x.path kind < precision_rank y.path kind)
    ⊎ ((precision_rank x.path kind ≡ precision_rank y.path kind) × BySize x y)

-- A model whose quantization is known prefers the companions that name it.
abbrev pub Preferred : Bytes → CompanionKind → CompanionCandidate → CompanionCandidate → Type 0
Preferred quantization kind x y =
    ((quantization ≡ []) × ByRank kind x y)
    ⊎ ((quantization ≢ [])
        × (((matches_quantization quantization x ≡ true)
              × (matches_quantization quantization y ≡ false))
            ⊎ ((matches_quantization quantization x ≡ matches_quantization quantization y)
                × ByRank kind x y)))

order_of_rank :
    (rx ry sx sy : ℕ) (p : Bool)
    → order_of true false false ry rx sy sx p ≡ false
    → (rx < ry) ⊎ ((rx ≡ ry) × ((sx < sy) ⊎ ((sx ≡ sy) × (p ≡ false))))
order_of_rank rx ry sx sy p h = ground (arith, h)

order_of_match :
    (unasked mx my : Bool) (rx ry sx sy : ℕ) (p : Bool)
    → unasked ≡ false
    → order_of unasked my mx ry rx sy sx p ≡ false
    → ((mx ≡ true) × (my ≡ false))
      ⊎ ((mx ≡ my) × ((rx < ry) ⊎ ((rx ≡ ry) × ((sx < sy) ⊎ ((sx ≡ sy) × (p ≡ false))))))
order_of_match unasked mx my rx ry sx sy p n h = ground (arith, n, h)

pub precedes-Preferred :
    (w : Bytes) (k : CompanionKind) (y x : CompanionCandidate)
    → precedes w k y x ≡ false
    → Preferred w k x y
unfolding precedes
precedes-Preferred [] k y x h = inl (
  refl,
  order_of_rank (precision_rank x.path k) (precision_rank y.path k) x.size y.size
      (lt_bytes y.path x.path) h,
)
precedes-Preferred (b ∷ w) k y x h = inr (
  filled,
  order_of_match (length (b ∷ w) == 0) (matches_quantization (b ∷ w) x)
      (matches_quantization (b ∷ w) y) (precision_rank x.path k) (precision_rank y.path k) x.size
      y.size (lt_bytes y.path x.path) (ground arith) h,
)
  where
    filled : b ∷ w ≢ []
    filled e = cc
