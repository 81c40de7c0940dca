-- ===== src/Base/Perms.antt =====
-- Folds that do not depend on the order of their list.
use mathlib.Core.Path.{◌≡◌, refl, sym, subst, ◌∙◌, ap}
use mathlib.Core.Logic.{∥∥₁_elim, ∥∥₁_map}
use mathlib.Core.List.{
  List, [], ◌∷◌, Mem, Perm, Permᴰ, mem-cons_self, mem-cons_of_mem, map, mem-cons, not-mem-nil,
}
use mathlib.Core.List.Perm
use mathlib.Core.Logic.Or
use woolwire.Base.Lists.{All}

module _ {A B : Type 0} (f : B → A → B) where
  abbrev pub run_all : B → List A → B
  run_all b [] = b
  run_all b (x ∷ xs) = run_all (f b x) xs

  -- The order of two elements of the list does not matter, wherever the run stands.
  abbrev pub Commutes : List A → Type 0
  Commutes l = (x y : A) → Mem x l → Mem y l → (b : B) → f (f b x) y ≡ f (f b y) x

  run_all-permᴰ : {l k : List A} → Permᴰ l k → Commutes l → (b : B) → run_all b l ≡ run_all b k
  run_all-permᴰ Permᴰ.nil h b = refl
  run_all-permᴰ (Permᴰ.cons {a = x} {b = y} {l₁ = l₁} e p) h b =
      (λ i. run_all (f b (e i)) l₁)
      ∙ run_all-permᴰ p (λ u v mu mv. h u v (mem-cons_of_mem x mu) (mem-cons_of_mem x mv)) (f b y)
  run_all-permᴰ (Permᴰ.swap {a = x} {b = y} {l = l} e₁ e₂) h b =
      ap (λ c. run_all c l)
        (h x y mem-cons_self (mem-cons_of_mem x mem-cons_self) b ∙ (λ i. f (f b (e₂ i)) (e₁ i)))
  run_all-permᴰ (Permᴰ.trans p q) h b =
      run_all-permᴰ p h b
      ∙ run_all-permᴰ q
          (λ u v mu mv. h u v ((Perm.mem_iff ∣ p ∣₁).1 mu) ((Perm.mem_iff ∣ p ∣₁).1 mv)) b

  pub run_all-perm :
      {l k : List A} → IsSet B → Perm l k → Commutes l → (b : B) → run_all b l ≡ run_all b k
  run_all-perm {l} {k} s p h b =
      ∥∥₁_elim p (s (run_all b l) (run_all b k)) (λ d. run_all-permᴰ d h b)

module _ {A B : Type 0} (f : A → B) where
  map-permᴰ : {l k : List A} → Permᴰ l k → Permᴰ (map f l) (map f k)
  map-permᴰ Permᴰ.nil = Permᴰ.nil
  map-permᴰ (Permᴰ.cons e p) = Permᴰ.cons (ap f e) (map-permᴰ p)
  map-permᴰ (Permᴰ.swap e₁ e₂) = Permᴰ.swap (ap f e₁) (ap f e₂)
  map-permᴰ (Permᴰ.trans p q) = Permᴰ.trans (map-permᴰ p) (map-permᴰ q)

  pub map-perm : {l k : List A} → Perm l k → Perm (map f l) (map f k)
  map-perm {l} {k} p = ∥∥₁_map {B = Permᴰ (map f l) (map f k)} p map-permᴰ

module _ {A : Type 0} (P : A → Type 0) where
  pub All-mem : ((x : A) → IsProp (P x)) → (x : A) (l : List A) → All P l → Mem x l → P x
  All-mem s x [] h m = absurd (not-mem-nil m)
  All-mem s x (y ∷ l) h m =
      Or.elim (s x) (mem-cons.0 m) (λ e. subst P (sym e) h.0) (λ k. All-mem s x l h.1 k)

  pub All-intro : (l : List A) → ((x : A) → Mem x l → P x) → All P l
  All-intro [] f = tt
  All-intro (x ∷ l) f = (f x mem-cons_self, All-intro l (λ y m. f y (mem-cons_of_mem x m)))

  pub All-perm : {l k : List A} → ((x : A) → IsProp (P x)) → Perm l k → All P l → All P k
  All-perm {l} {k} s p h = All-intro k (λ x m. All-mem s x l h ((Perm.mem_iff p).1 m))

pub All-map :
    {A B : Type 0} (P : B → Type 0) (f : A → B) (l : List A)
    → All (λ a. P (f a)) l
    → All P (map f l)
All-map P f [] h = tt
All-map P f (a ∷ l) h = (h.0, All-map P f l h.1)
