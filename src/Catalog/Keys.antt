-- ===== src/Catalog/Keys.antt =====
-- ad.go: the catalog's keys tell hosts and models apart.
use woolwire.Base.{All, Bytes, [], arith, refl, ◌∷◌, ◌≡◌, ◌≢◌}
use woolwire.Catalog.Store.{ad_key}

-- No slash stands in the identifier.
abbrev pub NoSlash : Bytes → Type 0
NoSlash = All (λ c. c ≢ b'/')

pub ad_key-injective :
    (h k m n : Bytes) → NoSlash h → NoSlash k → ad_key h m ≡ ad_key k n → (h ≡ k) × (m ≡ n)
unfolding ad_key
ad_key-injective [] [] m n a b e = (refl, ground arith)
ad_key-injective [] (y ∷ ys) m n a b e = absurd (b.0 (ground arith))
ad_key-injective (x ∷ xs) [] m n a b e = absurd (a.0 (ground arith))
ad_key-injective (x ∷ xs) (y ∷ ys) m n a b e = ground (arith, ad_key-injective xs ys m n a.1 b.1)
