-- ===== src/Base/Numbers.antt =====
-- Boolean tests on the native numbers, the conditional, and the 64-bit signed integers of Go read
-- as integers.
use Prim.Native.Nat.{ℕ, suc, compare, Ordering, ◌+◌, ◌-◌}
use mathlib.Core.Path.{◌≡◌, refl, sym}
use mathlib.Core.Logic.{ite, ◌↔◌, ◌⊎◌, inl, inr}
use mathlib.Core.Bool.{Bool, true, false}
use mathlib.Core.Option.{Option, none, some}
use native.Mathlib.Decide.{ℕ_discrete}
use native.Mathlib.Omega.{arith}

abbrev pub ltb : ℕ → ℕ → Bool
ltb a b = elim (compare a b) [ Ordering.lt ↦ true | _ ↦ false ]

abbrev pub leb : ℕ → ℕ → Bool
leb a b = elim (compare a b) [ Ordering.gt ↦ false | _ ↦ true ]

infix 50 ◌==◌
abbrev pub ◌==◌ : ℕ → ℕ → Bool
a == b = elim (compare a b) [ Ordering.eq ↦ true | _ ↦ false ]

infix 1 if◌then◌else◌
abbrev pub if◌then◌else◌ {ℓ} : {A : Type ℓ} → Bool → A → A → A
if true then x else y = x
if false then x else y = y

pub ==_iff : (a b : ℕ) → ((a == b) ≡ true) ↔ (a ≡ b)
==_iff a b = ground arith

pub Bool-cases : (b : Bool) → (b ≡ true) ⊎ (b ≡ false)
Bool-cases true = inl refl
Bool-cases false = inr refl

pub Option-cases {ℓ} : {A : Type ℓ} (o : Option A) → (o ≡ none) ⊎ ((a : A) × (o ≡ some a))
Option-cases none = inl refl
Option-cases (some a) = inr (a, refl)

-- What holds of both branches, each with its test, holds of the conditional.
pub if_cases {ℓ κ} :
    {A : Type ℓ} (P : A → Type κ) (b : Bool) {x y : A}
    → (b ≡ true → P x)
    → (b ≡ false → P y)
    → P (if b then x else y)
if_cases P true f g = f refl
if_cases P false f g = g refl

pub ite_cases {ℓ κ μ} :
    {A : Type ℓ} {C : Type μ} (P : A → Type κ) (d : Dec C) {x y : A}
    → (C → P x)
    → (¬ C → P y)
    → P (ite d x y)
ite_cases P (yes c) f g = f c
ite_cases P (no n) f g = g n

-- `negsuc n` is -(n + 1).
pub data ℤ : Type 0 where
  pos : ℕ → ℤ
  negsuc : ℕ → ℤ

abbrev pub leb_ℤ : ℤ → ℤ → Bool
leb_ℤ (pos a) (pos b) = leb a b
leb_ℤ (pos a) (negsuc b) = false
leb_ℤ (negsuc a) (pos b) = true
leb_ℤ (negsuc a) (negsuc b) = leb b a

abbrev pub ltb_ℤ : ℤ → ℤ → Bool
ltb_ℤ a b = elim (leb_ℤ b a) [ true ↦ false | false ↦ true ]

pub leb_ℤ_refl : (a : ℤ) → leb_ℤ a a ≡ true
leb_ℤ_refl (pos a) = ground arith
leb_ℤ_refl (negsuc a) = ground arith

pub leb_ℤ_trans : (a b c : ℤ) → leb_ℤ a b ≡ true → leb_ℤ b c ≡ true → leb_ℤ a c ≡ true
leb_ℤ_trans (pos a) (pos b) (pos c) h k = ground arith
leb_ℤ_trans (negsuc a) (negsuc b) (negsuc c) h k = ground arith
leb_ℤ_trans (negsuc a) b (pos c) h k = refl
leb_ℤ_trans (pos a) (negsuc b) c h k = ground arith
leb_ℤ_trans a (pos b) (negsuc c) h k = ground arith

pub leb_ℤ_total : (a b : ℤ) → leb_ℤ a b ≡ false → leb_ℤ b a ≡ true
leb_ℤ_total (pos a) (pos b) h = ground arith
leb_ℤ_total (pos a) (negsuc b) h = refl
leb_ℤ_total (negsuc a) (pos b) h = ground arith
leb_ℤ_total (negsuc a) (negsuc b) h = ground arith

pub leb_ℤ_antisymm : (a b : ℤ) → leb_ℤ a b ≡ true → leb_ℤ b a ≡ true → a ≡ b
leb_ℤ_antisymm (pos a) (pos b) h k = ground arith
leb_ℤ_antisymm (pos a) (negsuc b) h k = ground arith
leb_ℤ_antisymm (negsuc a) (pos b) h k = ground arith
leb_ℤ_antisymm (negsuc a) (negsuc b) h k = ground arith

pub pos-injective : (a b : ℕ) → pos a ≡ pos b → a ≡ b
pos-injective a b e = ground arith

pub negsuc-injective : (a b : ℕ) → negsuc a ≡ negsuc b → a ≡ b
negsuc-injective a b e = ground arith

pos_dec : (a b : ℕ) → Dec (a ≡ b) → Dec (pos a ≡ pos b)
pos_dec a b (yes p) = yes (λ i. pos (p i))
pos_dec a b (no p) = no (λ e. p (pos-injective a b e))

negsuc_dec : (a b : ℕ) → Dec (a ≡ b) → Dec (negsuc a ≡ negsuc b)
negsuc_dec a b (yes p) = yes (λ i. negsuc (p i))
negsuc_dec a b (no p) = no (λ e. p (negsuc-injective a b e))

pub pos-ne-negsuc : (a b : ℕ) → pos a ≡ negsuc b → ⊥
pos-ne-negsuc a b e = cc

unfoldable pub ℤ_discrete : Discrete ℤ
unfolding pos_dec negsuc_dec
ℤ_discrete (pos a) (pos b) = pos_dec a b (ℕ_discrete a b)
ℤ_discrete (pos a) (negsuc b) = no (pos-ne-negsuc a b)
ℤ_discrete (negsuc a) (pos b) = no (λ e. pos-ne-negsuc b a (sym e))
ℤ_discrete (negsuc a) (negsuc b) = negsuc_dec a b (ℕ_discrete a b)

-- `z + n` and `z - n`, for a number of seconds, say.
abbrev pub add_ℤ : ℤ → ℕ → ℤ
add_ℤ (pos a) n = pos (a + n)
add_ℤ (negsuc a) n = if leb n a then negsuc (a - n) else pos (n - suc a)

abbrev pub sub_ℤ : ℤ → ℕ → ℤ
sub_ℤ (pos a) n = if leb n a then pos (a - n) else negsuc (n - suc a)
sub_ℤ (negsuc a) n = negsuc (a + n)
