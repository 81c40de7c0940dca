-- ===== src/Base/Sort.antt =====
-- `sort.SliceStable`, and that a sort by a strict total order forgets the order of its input.
use mathlib.Core.Path.{◌≡◌, refl, sym, ◌∙◌}
use mathlib.Core.Bool.{Bool, true, false}
use mathlib.Core.List.{List, [], ◌∷◌, Perm, Mem}
use native.Mathlib.Omega.{arith}
use woolwire.Base.Numbers.{if◌then◌else◌, if_cases}
use woolwire.Base.Lists.{All}
use woolwire.Base.Perms.{run_all, run_all-perm}

-- A stable sort by insertion, which returns what any stable sort returns.
module _ {A : Type 0} (less : A → A → Bool) where
  unfoldable pub insert_sorted : List A → A → List A
  insert_sorted [] x = x ∷ []
  insert_sorted (y ∷ ys) x = if less x y then x ∷ y ∷ ys else y ∷ insert_sorted ys x

  unfoldable pub sort_from : List A → List A → List A
  unfolding insert_sorted
  sort_from acc [] = acc
  sort_from acc (x ∷ xs) = sort_from (insert_sorted acc x) xs

module _ {A : Type 0} (less : A → A → Bool) (irrefl : (x : A) → less x x ≡ false)
    (trans : (x y z : A) → less x y ≡ true → less y z ≡ true → less x z ≡ true) where
  insert_sorted_comm :
      (x y : A) (l : List A)
      → (less x y ≡ false → less y x ≡ false → x ≡ y)
      → insert_sorted less (insert_sorted less l x) y
        ≡ insert_sorted less (insert_sorted less l y) x
  unfolding insert_sorted
  insert_sorted_comm x y [] t = ground (arith, trans x y x, irrefl x)
  insert_sorted_comm x y (z ∷ zs) t =
      ground (arith, insert_sorted_comm x y zs t, trans x y x, irrefl x, trans x y z, trans y x z)

  sort_from-run_all :
      (acc xs : List A) → sort_from less acc xs ≡ run_all (insert_sorted less) acc xs
  unfolding sort_from
  sort_from-run_all acc [] = refl
  sort_from-run_all acc (x ∷ xs) = sort_from-run_all (insert_sorted less acc x) xs

  pub sort_from-perm :
      (xs ys : List A)
      → IsSet (List A)
      → ((x y : A) → Mem x xs → Mem y xs → less x y ≡ false → less y x ≡ false → x ≡ y)
      → Perm xs ys
      → sort_from less [] xs ≡ sort_from less [] ys
  sort_from-perm xs ys s t p =
      sort_from-run_all [] xs
      ∙ run_all-perm (insert_sorted less) s p
          (λ x y mx my l. insert_sorted_comm x y l (t x y mx my)) []
      ∙ sym (sort_from-run_all [] ys)

module _ {A : Type 0} (less : A → A → Bool) (P : A → Type 0) where
  insert_sorted_keeps : (l : List A) (x : A) → All P l → P x → All P (insert_sorted less l x)
  unfolding insert_sorted
  insert_sorted_keeps [] x a p = (p, tt)
  insert_sorted_keeps (y ∷ ys) x a p =
      if_cases {A = List A} (All P) (less x y) (λ z. (p, a))
        (λ z. (a.0, insert_sorted_keeps ys x a.1 p))

  pub sort_from_keeps : (acc l : List A) → All P acc → All P l → All P (sort_from less acc l)
  unfolding sort_from
  sort_from_keeps acc [] a b = a
  sort_from_keeps acc (x ∷ xs) a b =
      sort_from_keeps (insert_sorted less acc x) xs (insert_sorted_keeps acc x a b.0) b.1
