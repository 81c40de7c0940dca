-- ===== src/Runner/OutputTail/Kept.antt =====
-- controller.go: what the tail keeps of the output, and what it tells of it.
use woolwire.Base.{
  All, All-append, Bool, Bool-cases, Bytes, List, [], any, ap, arith, bytes_dec, drop, false,
  if_cases, inl, inr, is_text, length, length-append, ltb, not, refl, suc, sym, true, zero, ℕ, ◌&&◌,
  ◌++◌, ◌+◌, ◌-◌, ◌<◌, ◌==◌, ◌||◌, ◌∙◌, ◌∷◌, ◌≡◌, ◌≤◌,
}
use mathlib.Core.List.{append-nil, append_assoc}
use woolwire.Runner.OutputTail.{write, engine_tail_bytes, pick, choose_lines}

-- The last `n` bytes of a text.
abbrev pub last : ℕ → Bytes → Bytes
last n s = drop (length s - n) s

-- What all the writes put out, one after the other.
abbrev pub output : List Bytes → Bytes
output [] = []
output (p ∷ ps) = p ++ output ps

-- The writes, from a buffer.
abbrev pub write_all : Bytes → List Bytes → Bytes
write_all buf [] = buf
write_all buf (p ∷ ps) = write_all (write buf p) ps

drop-zero : (n : ℕ) (s : Bytes) → n ≡ 0 → drop n s ≡ s
drop-zero n s h = rw h refl

length-drop : (n : ℕ) (s : Bytes) → length (drop n s) ≡ length s - n
length-drop zero s = omega arith
length-drop (suc n) [] = omega arith
length-drop (suc n) (c ∷ cs) = omega (arith, length-drop n cs)

drop-append : (n : ℕ) (s p : Bytes) → n ≤ length s → drop n (s ++ p) ≡ drop n s ++ p
drop-append zero s p h = refl
drop-append (suc n) [] p h = absurd (omega (arith, h))
drop-append (suc n) (c ∷ cs) p h = drop-append n cs p (omega (arith, h))

drop-empty : (n : ℕ) → drop {A = ℕ} n [] ≡ []
drop-empty zero = refl
drop-empty (suc n) = refl

zero_add : (m : ℕ) → m ≡ zero + m
zero_add m = omega arith

suc_add : (n m : ℕ) → suc (n + m) ≡ suc n + m
suc_add n m = omega arith

drop-drop : (m n : ℕ) (s : Bytes) → drop m (drop n s) ≡ drop (n + m) s
drop-drop m zero s = ap (λ k. drop k s) (zero_add m)
drop-drop m (suc n) [] = drop-empty m ∙ sym (drop-empty (suc n + m))
drop-drop m (suc n) (c ∷ cs) = drop-drop m n cs ∙ ap (λ k. drop k (c ∷ cs)) (suc_add n m)

write-last : (buf p : Bytes) → write buf p ≡ last engine_tail_bytes (buf ++ p)
unfolding write
write-last buf p = elim (Bool-cases (ltb engine_tail_bytes (length (buf ++ p)))) [
  | inl h ↦ rw h refl
  | inr h ↦
      rw h (sym (drop-zero (length (buf ++ p) - engine_tail_bytes) (buf ++ p) (ground (arith, h))))
]

write_bounded : (buf p : Bytes) → length (write buf p) ≤ engine_tail_bytes
write_bounded buf p =
    rw (write-last buf p)
      (omega (arith, length-drop (length (buf ++ p) - engine_tail_bytes) (buf ++ p)))

-- The front of a text that was cut off before would be cut off now.
last-last : (n : ℕ) (s p : Bytes) → last n (last n s ++ p) ≡ last n (s ++ p)
last-last n s p = rw (← drop-append (length s - n) s p (omega arith)) (
    drop-drop (length (drop (length s - n) (s ++ p)) - n) (length s - n) (s ++ p)
    ∙ ap (λ k. drop k (s ++ p)) cut)
  where
    cut : (length s - n) + (length (drop (length s - n) (s ++ p)) - n) ≡ length (s ++ p) - n
    cut = omega (arith, length-drop (length s - n) (s ++ p), length-append s p)

write_all_from :
    (buf : Bytes) (ps : List Bytes)
    → length buf ≤ engine_tail_bytes
    → write_all buf ps ≡ last engine_tail_bytes (buf ++ output ps)
write_all_from buf [] h = sym (
    drop-zero (length (buf ++ []) - engine_tail_bytes) (buf ++ [])
      (omega (arith, h, length-append buf []))
    ∙ append-nil buf)
write_all_from buf (p ∷ ps) h =
    write_all_from (write buf p) ps (write_bounded buf p)
    ∙ ap (λ s. last engine_tail_bytes (s ++ output ps)) (write-last buf p)
    ∙ last-last engine_tail_bytes (buf ++ p) (output ps)
    ∙ ap (last engine_tail_bytes) (append_assoc buf p (output ps))

-- After any writes the tail holds the last 8192 bytes of all of them, one after the other.
pub write_all-last : (ps : List Bytes) → write_all [] ps ≡ last engine_tail_bytes (output ps)
write_all-last ps = write_all_from [] ps (omega arith)

-- A list in which no text stands twice.
abbrev pub is_distinct : List Bytes → Bool
is_distinct [] = true
is_distinct (x ∷ xs) = not (any (is_text x) xs) && is_distinct xs

is_text_sym : (a b : Bytes) → is_text a b ≡ is_text b a
is_text_sym a b = ground (arith, bytes_dec a b, bytes_dec b a)

any_snoc :
    (y x : Bytes) (xs : List Bytes)
    → any (is_text y) (xs ++ x ∷ []) ≡ (any (is_text y) xs || is_text y x)
any_snoc y x [] = ground arith
any_snoc y x (z ∷ zs) = ground (arith, any_snoc y x zs)

is_distinct_snoc :
    (x : Bytes) (xs : List Bytes)
    → is_distinct xs ≡ true
    → any (is_text x) xs ≡ false
    → is_distinct (xs ++ x ∷ []) ≡ true
is_distinct_snoc x [] h k = refl
is_distinct_snoc x (y ∷ ys) h k =
    ground (arith, any_snoc y x ys, is_text_sym x y, is_distinct_snoc x ys)

-- What is picked: few lines, all different, each one of the candidates.
abbrev pub Picked : (Bytes → Type 0) → ℕ → List Bytes → Type 0
Picked P n lines = (length lines ≤ n) × (is_distinct lines ≡ true) × All P lines

pick-Picked :
    (P : Bytes → Type 0) (n : ℕ) (kept lines : List Bytes)
    → length kept < n
    → is_distinct kept ≡ true
    → All P kept
    → All P lines
    → Picked P n (pick n kept lines)
unfolding pick
pick-Picked P n kept [] h d a b = (omega (arith, h), d, a)
pick-Picked P n kept (x ∷ xs) h d a b = elim (Bool-cases (any (is_text x) kept)) [
  | inl e ↦ rw e (pick-Picked P n kept xs h d a b.1)
  | inr e ↦ rw e (
      if_cases {A = List Bytes} (Picked P n) (length (kept ++ x ∷ []) == n)
        (λ q.
          (ground (arith, q), is_distinct_snoc x kept d e, All-append P kept (x ∷ []) a (b.0, tt)))
        (λ q.
          pick-Picked P n (kept ++ x ∷ []) xs (ground (arith, q, length-append kept (x ∷ [])))
            (is_distinct_snoc x kept d e) (All-append P kept (x ∷ []) a (b.0, tt)) b.1))
]

drop-All : (P : Bytes → Type 0) (n : ℕ) (lines : List Bytes) → All P lines → All P (drop n lines)
drop-All P zero lines h = h
drop-All P (suc n) [] h = tt
drop-All P (suc n) (x ∷ xs) h = drop-All P n xs h.1

-- An explanation of `n` lines at most, all different, each a line of the output.
pub choose_lines-Picked :
    (P : Bytes → Type 0) (n : ℕ) (lines causes : List Bytes)
    → 0 < n
    → All P lines
    → All P causes
    → Picked P n (choose_lines n lines causes)
unfolding choose_lines
choose_lines-Picked P n lines [] h a b = pick-Picked P n [] _ h refl tt (
    if_cases {A = List Bytes} (All P) (ltb n (length lines))
      (λ q. drop-All P (length lines - n) lines a) (λ q. a))
choose_lines-Picked P n lines (c ∷ cs) h a b = pick-Picked P n [] (c ∷ cs) h refl tt b
