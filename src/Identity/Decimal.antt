-- ===== src/Identity/Decimal.antt =====
-- `strconv.FormatInt(v, 10)`, and that it loses nothing.
use woolwire.Base.{
  All, All-append, Bool-cases, Bytes, [], ap, arith, if◌then◌else◌, inl, inr, ltb, negsuc, pos,
  refl, suc, sym, zero, ℕ, ℤ, ◌%◌, ◌*◌, ◌++◌, ◌+◌, ◌-◌, ◌/◌, ◌<◌, ◌∙◌, ◌∷◌, ◌≡◌, ◌≤◌,
}

-- The decimal digits of `n`, most significant first, in ASCII; `suc n` is enough fuel for `n`.
pub digits_fuel : ℕ → ℕ → Bytes
digits_fuel zero n = []
digits_fuel (suc f) n =
    let rest = digits_fuel f (n / 10) ++ (48 + n % 10) ∷ [] in
    if ltb n 10 then (48 + n) ∷ [] else rest

unfoldable pub digits : ℕ → Bytes
unfolding digits_fuel
digits n = digits_fuel (suc n) n

unfoldable pub format_int : ℤ → Bytes
unfolding digits
format_int (pos n) = digits n
format_int (negsuc n) = b'-' ∷ digits (suc n)

-- The number that a run of digits stands for, after those that stand for `acc`.
value : ℕ → Bytes → ℕ
value acc [] = acc
value acc (d ∷ ds) = value (acc * 10 + (d - 48)) ds

value-append :
    (acc : ℕ) (xs : Bytes) (d : ℕ) → value acc (xs ++ d ∷ []) ≡ value acc xs * 10 + (d - 48)
unfolding value
value-append acc [] d = refl
value-append acc (x ∷ xs) d = value-append (acc * 10 + (x - 48)) xs d

value-digits_fuel : (f n : ℕ) → n < f → value 0 (digits_fuel f n) ≡ n
unfolding digits_fuel value
value-digits_fuel zero n h = absurd (omega arith)
value-digits_fuel (suc f) n h = elim (Bool-cases (ltb n 10)) [
  | inl small ↦ rw small (omega arith)
  | inr big ↦ rw big (
      rw
        (
          value-append 0 (digits_fuel f (n / 10)) (48 + n % 10),
          value-digits_fuel f (n / 10) (ground arith),
        )
        (omega arith))
]

All-digits_fuel : (f n : ℕ) → All (λ d. 48 ≤ d) (digits_fuel f n)
unfolding digits_fuel
All-digits_fuel zero n = tt
All-digits_fuel (suc f) n = elim (Bool-cases (ltb n 10)) [
  | inl small ↦ rw small (omega arith)
  | inr big ↦
      rw big (All-append _ (digits_fuel f (n / 10)) _ (All-digits_fuel f (n / 10)) (omega arith))
]

digits-injective : (a b : ℕ) → digits a ≡ digits b → a ≡ b
unfolding digits
digits-injective a b e =
    sym (value-digits_fuel (suc a) a (omega arith))
    ∙ ap (value 0) e
    ∙ value-digits_fuel (suc b) b (omega arith)

not-minus : (ds rest : Bytes) → All (λ d. 48 ≤ d) ds → ds ≡ b'-' ∷ rest → ⊥
not-minus [] rest h e = cc
not-minus (d ∷ ds) rest h e = ground arith

-- Different integers print differently.
pub format_int-injective : (a b : ℤ) → format_int a ≡ format_int b → a ≡ b
unfolding format_int
format_int-injective (pos a) (pos b) e = ap pos (digits-injective a b e)
format_int-injective (pos a) (negsuc b) e =
    absurd (not-minus (digits a) (digits (suc b)) (All-digits_fuel (suc a) a) e)
format_int-injective (negsuc a) (pos b) e =
    absurd (not-minus (digits b) (digits (suc a)) (All-digits_fuel (suc b) b) (sym e))
format_int-injective (negsuc a) (negsuc b) e =
    ground (arith, digits-injective (suc a) (suc b) (ground arith))
