-- ===== src/Base/Maps.antt =====
-- Go maps as association lists: a read, a write and a deletion by key, and sums over the values.
use Prim.Native.Nat.{ℕ, ◌+◌, ◌≤◌}
use mathlib.Core.Path.{◌≡◌, refl, sym, ap, ◌∙◌}
use mathlib.Core.Logic.{ite, if_pos, if_neg}
use mathlib.Core.List.{List, [], ◌∷◌}
use mathlib.Core.Option.{Option, none, some}
use native.Mathlib.Omega.{arith}
use woolwire.Base.Lists.{length, All}
use woolwire.Base.Numbers.{ite_cases}

module _ {K V : Type 0} (dec : Discrete K) where
  unfoldable pub lookup : K → List (K × V) → Option V
  lookup k [] = none
  lookup k ((j, v) ∷ m) = ite (dec j k) (some v) (lookup k m)

  unfoldable pub put : K → V → List (K × V) → List (K × V)
  put k v [] = (k, v) ∷ []
  put k v ((j, w) ∷ m) = ite (dec j k) ((k, v) ∷ m) ((j, w) ∷ put k v m)

  -- `delete(m, k)`
  unfoldable pub delete : K → List (K × V) → List (K × V)
  delete k [] = []
  delete k ((j, w) ∷ m) = ite (dec j k) (delete k m) ((j, w) ∷ delete k m)

  pub lookup-put :
      (k j : K) (v : V) (m : List (K × V))
      → lookup j (put k v m) ≡ ite (dec k j) (some v) (lookup j m)
  unfolding lookup put
  lookup-put k j v [] = refl
  lookup-put k j v ((i, w) ∷ m) = ground (arith, lookup-put k j v m)

  pub lookup-delete :
      (k j : K) (m : List (K × V)) → lookup j (delete k m) ≡ ite (dec k j) none (lookup j m)
  unfolding lookup delete
  lookup-delete k j [] = ground arith
  lookup-delete k j ((i, w) ∷ m) = ground (arith, lookup-delete k j m)

  -- No key twice.
  abbrev pub Distinct : List (K × V) → Type 0
  Distinct [] = Unit {0}
  Distinct ((k, v) ∷ m) = (lookup k m ≡ none) × Distinct m

  pub put-Distinct : (k : K) (v : V) (m : List (K × V)) → Distinct m → Distinct (put k v m)
  unfolding lookup put
  put-Distinct k v [] d = (refl, tt)
  put-Distinct k v ((i, w) ∷ m) d = ground (arith, put-Distinct k v m d.1, lookup-put k i v m)

  pub delete-Distinct : (k : K) (m : List (K × V)) → Distinct m → Distinct (delete k m)
  unfolding lookup delete
  delete-Distinct k [] d = tt
  delete-Distinct k ((i, w) ∷ m) d = ground (arith, delete-Distinct k m d.1, lookup-delete k i m)

  pub delete_absent : (k : K) (m : List (K × V)) → lookup k m ≡ none → delete k m ≡ m
  unfolding lookup delete
  delete_absent k [] h = refl
  delete_absent k ((i, w) ∷ m) h = ground (arith, delete_absent k m)

-- The sum of a measure over the values.
module _ {K V : Type 0} (f : V → ℕ) where
  abbrev pub sum_of : List (K × V) → ℕ
  sum_of [] = 0
  sum_of ((k, v) ∷ m) = f v + sum_of m

module _ {K V : Type 0} (dec : Discrete K) (f : V → ℕ) where
  pub sum_of-put_new :
      (k : K) (v : V) (m : List (K × V))
      → lookup dec k m ≡ none
      → sum_of f (put dec k v m) ≡ sum_of f m + f v
  unfolding lookup put
  sum_of-put_new k v [] h = omega arith
  sum_of-put_new k v ((i, w) ∷ m) h = ground (arith, sum_of-put_new k v m)

  pub sum_of-put_old :
      (k : K) (u v : V) (m : List (K × V))
      → lookup dec k m ≡ some u
      → sum_of f (put dec k v m) + f u ≡ sum_of f m + f v
  unfolding lookup put
  sum_of-put_old k u v [] h = cc
  sum_of-put_old k u v ((i, w) ∷ m) h = ground (arith, sum_of-put_old k u v m)

  pub sum_of-delete :
      (k : K) (u : V) (m : List (K × V))
      → Distinct dec m
      → lookup dec k m ≡ some u
      → sum_of f (delete dec k m) + f u ≡ sum_of f m
  unfolding lookup delete
  sum_of-delete k u [] d h = cc
  sum_of-delete k u ((i, w) ∷ m) d h =
      ground (arith, sum_of-delete k u m d.1, delete_absent dec k m)

  -- A value that is there counts in full.
  pub le-sum_of : (k : K) (u : V) (m : List (K × V)) → lookup dec k m ≡ some u → f u ≤ sum_of f m
  unfolding lookup
  le-sum_of k u [] h = cc
  le-sum_of k u ((i, w) ∷ m) h = ground (arith, le-sum_of k u m)

module _ {K V : Type 0} (dec : Discrete K) where
  pub length-put_new :
      (k : K) (v : V) (m : List (K × V))
      → lookup dec k m ≡ none
      → length (put dec k v m) ≡ length m + 1
  unfolding lookup put
  length-put_new k v [] h = omega arith
  length-put_new k v ((i, w) ∷ m) h = ground (arith, length-put_new k v m)

  pub length-put_old :
      (k : K) (u v : V) (m : List (K × V))
      → lookup dec k m ≡ some u
      → length (put dec k v m) ≡ length m
  unfolding lookup put
  length-put_old k u v [] h = cc
  length-put_old k u v ((i, w) ∷ m) h = ground (arith, length-put_old k u v m)

  pub length-delete :
      (k : K) (u : V) (m : List (K × V))
      → Distinct dec m
      → lookup dec k m ≡ some u
      → length (delete dec k m) + 1 ≡ length m
  unfolding lookup delete
  length-delete k u [] d h = cc
  length-delete k u ((i, w) ∷ m) d h =
      ground (arith, length-delete k u m d.1, delete_absent dec k m)

module _ {K V : Type 0} (dec : Discrete K) (P : K × V → Type 0) where
  pub put-All : (k : K) (v : V) (m : List (K × V)) → P (k, v) → All P m → All P (put dec k v m)
  unfolding put
  put-All k v [] p a = (p, tt)
  put-All k v ((j, w) ∷ m) p a =
      ite_cases {A = List (K × V)} (All P) (dec j k) (λ q. (p, a.1))
        (λ n. (a.0, put-All k v m p a.1))

module _ {A : Type 0} {P Q : A → Type 0} where
  pub All-imp : ((x : A) → P x → Q x) → (l : List A) → All P l → All Q l
  All-imp f [] a = tt
  All-imp f (x ∷ l) a = (f x a.0, All-imp f l a.1)

-- Every entry is read back.
module _ {K V : Type 0} (dec : Discrete K) where
  lookup_tail :
      (j k : K) (v w : V) (m : List (K × V))
      → lookup dec k m ≡ none
      → lookup dec j m ≡ some w
      → lookup dec j ((k, v) ∷ m) ≡ some w
  unfolding lookup
  lookup_tail j k v w m h e = elim (dec k j) [
    | yes q ↦ absurd (none-ne-some (sym h ∙ ap (λ z. lookup dec z m) q ∙ e))
    | no n ↦ if_neg (dec k j) n _ _ ∙ e
  ]
    where
      none-ne-some : none ≡ some w → ⊥
      none-ne-some e = cc

  pub lookup-All : (m : List (K × V)) → Distinct dec m → All (λ e. lookup dec e.0 m ≡ some e.1) m
  unfolding lookup
  lookup-All [] d = tt
  lookup-All ((k, v) ∷ m) d = (
    if_pos (dec k k) refl _ _,
    All-imp (λ e q. lookup_tail e.0 k v e.1 m d.0 q) m (lookup-All m d.1),
  )
