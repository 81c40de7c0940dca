-- ===== src/Hosting/Companions/Choice.antt =====
-- companions.go: which of the candidates is chosen.
use mathlib.Core.List.{Mem, mem-cons_self, mem-cons_of_mem}
use woolwire.Base.{
  All, Bool, Bytes, List, [], arith, false, if_cases, if◌then◌else◌, keep, refl, subst, sym, true,
  ◌∙◌, ◌∷◌, ◌≡◌,
}
use woolwire.Base.Sort.{sort_from, insert_sorted, sort_from_keeps}
use woolwire.Hosting.Companions.{
  CompanionKind, is_kind, CompanionCandidate, precedes, first_of, choose_kind,
}
use woolwire.Hosting.Companions.Order.{
  Preferred, precedes_irrefl, precedes_trans, precedes-Preferred,
}

module _ {A : Type 0} (less : A → A → Bool) (irrefl : (x : A) → less x x ≡ false)
    (trans : (x y z : A) → less x y ≡ true → less y z ≡ true → less x z ≡ true) where
  -- Nothing in a list comes before its first element.
  abbrev LeastFirst : List A → Type 0
  LeastFirst [] = Unit {0}
  LeastFirst (h ∷ t) = All (λ y. less y h ≡ false) t

  insert_sorted_all :
      (P : A → Type 0) (l : List A) (x : A) → All P l → P x → All P (insert_sorted less l x)
  unfolding insert_sorted
  insert_sorted_all P [] x a p = (p, tt)
  insert_sorted_all P (y ∷ ys) x a p =
      if_cases {A = List A} (All P) (less x y) (λ _. (p, a))
        (λ _. (a.0, insert_sorted_all P ys x a.1 p))

  before_all :
      (x h : A) (t : List A)
      → less x h ≡ true
      → All (λ y. less y h ≡ false) t
      → All (λ y. less y x ≡ false) t
  before_all x h [] b a = tt
  before_all x h (y ∷ ys) b a = (ground (arith, trans y x h, b, a.0), before_all x h ys b a.1)

  insert_sorted-LeastFirst :
      (l : List A) (x : A) → LeastFirst l → LeastFirst (insert_sorted less l x)
  unfolding insert_sorted
  insert_sorted-LeastFirst [] x h = tt
  insert_sorted-LeastFirst (y ∷ ys) x h =
      if_cases {A = List A} LeastFirst (less x y)
        (λ b. (ground (arith, trans y x y, irrefl y, b), before_all x y ys b h))
        (λ b. insert_sorted_all (λ z. less z y ≡ false) ys x h b)

  sort_from-LeastFirst : (acc xs : List A) → LeastFirst acc → LeastFirst (sort_from less acc xs)
  unfolding sort_from
  sort_from-LeastFirst acc [] h = h
  sort_from-LeastFirst acc (x ∷ xs) h =
      sort_from-LeastFirst (insert_sorted less acc x) xs (insert_sorted-LeastFirst acc x h)

  either_way :
      (P : A → Type 0) (x y : A) (ys zs : List A) (b : Bool)
      → (All P zs → All P ys × P x)
      → All P (if b then x ∷ y ∷ ys else y ∷ zs)
      → All P (y ∷ ys) × P x
  either_way P x y ys zs true f a = (a.1, a.0)
  either_way P x y ys zs false f a = let k = f a.1 in ((a.0, k.0), k.1)

  -- What holds of a sorted list holds of what was sorted.
  uninserted :
      (P : A → Type 0) (l : List A) (x : A) → All P (insert_sorted less l x) → All P l × P x
  unfolding insert_sorted
  uninserted P [] x a = (tt, a.0)
  uninserted P (y ∷ ys) x a =
      either_way P x y ys (insert_sorted less ys x) (less x y) (uninserted P ys x) a

  unsorted :
      (P : A → Type 0) (acc xs : List A) → All P (sort_from less acc xs) → All P acc × All P xs
  unfolding sort_from
  unsorted P acc [] a = (a, tt)
  unsorted P acc (x ∷ xs) a =
      let k = unsorted P (insert_sorted less acc x) xs a in
      let l = uninserted P acc x k.0 in (l.0, (l.1, k.1))

  -- The first of a sorted list is least among what was sorted.
  first_least :
      (xs t : List A) (h : A) → sort_from less [] xs ≡ h ∷ t → All (λ y. less y h ≡ false) xs
  first_least xs t h e =
      (unsorted (λ y. less y h ≡ false) [] xs
        (subst (All (λ y. less y h ≡ false)) (sym e)
          (irrefl h, subst LeastFirst e (sort_from-LeastFirst [] xs tt)))).1

unkept_cons :
    (f : CompanionCandidate → Bool) (P : CompanionCandidate → Type 0) (x : CompanionCandidate)
    (ks : List CompanionCandidate) (xs : List CompanionCandidate) (b : Bool)
    → f x ≡ b
    → (All P ks → All (λ c. f c ≡ true → P c) xs)
    → All P (elim b [ true ↦ x ∷ ks | false ↦ ks ])
    → All (λ c. f c ≡ true → P c) (x ∷ xs)
unkept_cons f P x ks xs true e r a = ((λ _. a.0), r a.1)
unkept_cons f P x ks xs false e r a = ((λ t. absurd (apart (sym e ∙ t))), r a)
  where
    apart : false ≡ true → ⊥
    apart q = cc

-- What holds of the elements that are kept.
unkept :
    (f : CompanionCandidate → Bool) (P : CompanionCandidate → Type 0) (xs : List CompanionCandidate)
    → All P (keep f xs)
    → All (λ c. f c ≡ true → P c) xs
unkept f P [] a = tt
unkept f P (x ∷ xs) a = unkept_cons f P x (keep f xs) xs (f x) refl (unkept f P xs) a

first_is :
    (l : List CompanionCandidate) (c : CompanionCandidate)
    → first_of l ≡ c ∷ []
    → (t : List CompanionCandidate) × (l ≡ c ∷ t)
first_is [] c e = cc
first_is (x ∷ xs) c e = (xs, cc)

all-Preferred :
    (w : Bytes) (k : CompanionKind) (c : CompanionCandidate) (xs : List CompanionCandidate)
    → All (λ y. is_kind y.kind k ≡ true → precedes w k y c ≡ false) xs
    → All (λ y. is_kind y.kind k ≡ true → Preferred w k c y) xs
all-Preferred w k c [] a = tt
all-Preferred w k c (x ∷ xs) a =
    ((λ t. precedes-Preferred w k x c (a.0 t)), all-Preferred w k c xs a.1)

kept_cons :
    (f : CompanionCandidate → Bool) (P : CompanionCandidate → Type 0) (x : CompanionCandidate)
    (ks : List CompanionCandidate) (b : Bool)
    → (b ≡ true → P x)
    → All P ks
    → All P (elim b [ true ↦ x ∷ ks | false ↦ ks ])
kept_cons f P x ks true p a = (p refl, a)
kept_cons f P x ks false p a = a

-- What is kept stands in the list and passes the test.
kept :
    (f : CompanionCandidate → Bool) (P : CompanionCandidate → Type 0) (xs : List CompanionCandidate)
    → ((x : CompanionCandidate) → Mem x xs → f x ≡ true → P x)
    → All P (keep f xs)
kept f P [] g = tt
kept f P (x ∷ xs) g =
    kept_cons f P x (keep f xs) (f x) (g x mem-cons_self)
      (kept f P xs (λ y m. g y (mem-cons_of_mem x m)))

-- The companion that is chosen for a role is one of the candidates of that role, and it comes
-- behind no other of them: if a quantization is asked for, it names it or the other does not
-- either; where that decides nothing, its precision has the lower rank; where the ranks are equal,
-- it is the smaller file; and where the sizes are equal too, its path is not the later one.
pub choose_kind-Least :
    (candidates : List CompanionCandidate) (quantization : Bytes) (kind : CompanionKind)
    (c : CompanionCandidate)
    → choose_kind candidates quantization kind ≡ c ∷ []
    → Mem c candidates
      × (is_kind c.kind kind ≡ true)
      × All (λ y. is_kind y.kind kind ≡ true → Preferred quantization kind c y) candidates
unfolding choose_kind
choose_kind-Least candidates quantization kind c h =
    let group = keep (λ y. is_kind y.kind kind) candidates in
    let less = precedes quantization kind in
    let IsOne = λ (x : CompanionCandidate). Mem x candidates × (is_kind x.kind kind ≡ true) in
    let (t, e) = first_is (sort_from less [] group) c h in
    let one =
      (subst (All IsOne) e (
        sort_from_keeps less IsOne [] group tt
          (kept (λ y. is_kind y.kind kind) IsOne candidates (λ x m k. (m, k))))).0 in
    (
      one.0,
      one.1,
      all-Preferred quantization kind c candidates (
          unkept (λ y. is_kind y.kind kind) (λ y. less y c ≡ false) candidates
            (first_least less (precedes_irrefl quantization kind) (precedes_trans quantization kind)
              group t c e)),
    )
