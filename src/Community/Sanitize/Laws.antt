-- ===== src/Community/Sanitize/Laws.antt =====
-- What `SanitizeContent` leaves alone, and an image that it lets through.
use mathlib.Core.List.{append_assoc}
use woolwire.Base.{
  All, All-append, Bytes, Option-cases, [], ap, arith, codes, false, inl, inr, length, none, refl,
  some, suc, zero, ℕ, ◌++◌, ◌<◌, ◌==◌, ◌∙◌, ◌∷◌, ◌≡◌, ◌≢◌, ◌≤◌,
}
use woolwire.Community.Sanitize.{
  split_at, match_url, match_alt, match_image, replacement, trim_space, sanitize_fuel,
  sanitize_content,
}

-- `c` does not stand in the text.
abbrev pub Without : ℕ → Bytes → Type 0
Without c = All (λ d. d ≢ c)

fuel_unchanged : (f : ℕ) (s : Bytes) → length s ≤ f → Without b'!' s → sanitize_fuel f s ≡ s
unfolding sanitize_fuel match_image
fuel_unchanged zero [] h w = refl
fuel_unchanged zero (c ∷ cs) h w = absurd (omega arith)
fuel_unchanged (suc f) [] h w = refl
fuel_unchanged (suc f) (c ∷ cs) h w = ground (arith, fuel_unchanged f cs (omega arith) w.1, w.0)

-- A text without an exclamation mark is left as it is.
pub sanitize_content_unchanged : (s : Bytes) → Without b'!' s → sanitize_content s ≡ s
unfolding sanitize_content
sanitize_content_unchanged s w = fuel_unchanged (length s) s (omega arith) w

split_at-append :
    (stop : ℕ) (a rest : Bytes) → Without stop a → split_at stop (a ++ stop ∷ rest) ≡ some (a, rest)
unfolding split_at
split_at-append stop [] rest w = ground arith
split_at-append stop (c ∷ cs) rest w = ground (arith, split_at-append stop cs rest w.1, w.0)

-- The text of an image.
abbrev pub image : Bytes → Bytes → Bytes
image alt url = b'!' ∷ b'[' ∷ (alt ++ b']' ∷ b'(' ∷ (url ++ b')' ∷ []))

match_image-image :
    (alt : Bytes) (u : ℕ) (us rest : Bytes)
    → Without b']' alt
    → Without b')' (u ∷ us)
    → match_image (b'!' ∷ b'[' ∷ (alt ++ b']' ∷ b'(' ∷ ((u ∷ us) ++ b')' ∷ rest)))
      ≡ some (alt, rest)
unfolding match_image match_alt match_url
match_image-image alt u us rest w x = ground (
  arith,
  split_at-append b']' alt (b'(' ∷ ((u ∷ us) ++ b')' ∷ rest)) w,
  split_at-append b')' (u ∷ us) rest x,
)

split_at-length : (stop : ℕ) (s a b : Bytes) → split_at stop s ≡ some (a, b) → length b < length s
unfolding split_at
split_at-length stop [] a b e = cc
split_at-length stop (c ∷ cs) a b e = elim (Option-cases (split_at stop cs)) [
  | inl z ↦ ground arith
  | inr ((a', b'), z) ↦ ground (arith, split_at-length stop cs a' b' z)
]

match_url-length : (s r : Bytes) → match_url s ≡ some r → length r < length s
unfolding match_url
match_url-length [] r e = cc
match_url-length (c ∷ cs) r e = elim (Option-cases (split_at b')' cs)) [
  | inl z ↦ ground arith
  | inr ((a', b'), z) ↦ ground (arith, split_at-length b')' cs a' b' z)
]

match_image-length : (s a r : Bytes) → match_image s ≡ some (a, r) → length r < length s
unfolding match_image match_alt
match_image-length [] a r e = cc
match_image-length (c ∷ []) a r e = ground arith
match_image-length (c ∷ d ∷ cs) a r e = elim (Option-cases (split_at b']' cs)) [
  | inl z ↦ ground arith
  | inr ((a', b'), z) ↦ ground (arith, split_at-length b']' cs a' b' z, match_url-length b' r)
]

-- The head of a text, whatever the fuel.
fuel_step :
    (f : ℕ) (c : ℕ) (cs : Bytes)
    → sanitize_fuel (suc f) (c ∷ cs) ≡ elim (match_image (c ∷ cs)) [
      | some (alt, rest) ↦ replacement alt ++ sanitize_fuel f rest
      | none ↦ c ∷ sanitize_fuel f cs
    ]
unfolding sanitize_fuel
fuel_step f c cs = ground arith

fuel_enough :
    (f g : ℕ) (s : Bytes) → length s ≤ f → length s ≤ g → sanitize_fuel f s ≡ sanitize_fuel g s
fuel_enough zero zero [] h k = refl
fuel_enough zero (suc g) [] h k = unfold sanitize_fuel in refl
fuel_enough (suc f) zero [] h k = unfold sanitize_fuel in refl
fuel_enough (suc f) (suc g) [] h k = unfold sanitize_fuel in refl
fuel_enough zero g (c ∷ cs) h k = absurd (omega arith)
fuel_enough (suc f) zero (c ∷ cs) h k = absurd (omega arith)
fuel_enough (suc f) (suc g) (c ∷ cs) h k = elim (Option-cases (match_image (c ∷ cs))) [
  | inl z ↦
      ground
        (arith, fuel_step f c cs, fuel_step g c cs, fuel_enough f g cs (omega arith) (omega arith))
  | inr ((a, r), z) ↦
      let shorter = match_image-length (c ∷ cs) a r z in
      ground
        (arith, fuel_step f c cs, fuel_step g c cs, fuel_enough f g r (omega arith) (omega arith))
]

-- An image at the head of a text, with no closing bracket in its alternative text and no closing
-- parenthesis in its non-empty address, becomes its replacement, and the text after it is
-- sanitized by itself.
pub sanitize_content-image :
    (alt : Bytes) (u : ℕ) (us rest : Bytes)
    → Without b']' alt
    → Without b')' (u ∷ us)
    → sanitize_content (b'!' ∷ b'[' ∷ (alt ++ b']' ∷ b'(' ∷ ((u ∷ us) ++ b')' ∷ rest)))
      ≡ replacement alt ++ sanitize_content rest
unfolding sanitize_content
sanitize_content-image alt u us rest w x =
    let s = b'[' ∷ (alt ++ b']' ∷ b'(' ∷ ((u ∷ us) ++ b')' ∷ rest)) in
    let m = match_image-image alt u us rest w x in
    let shorter = match_image-length (b'!' ∷ s) alt rest m in
    ground (
      arith,
      m,
      fuel_step (length s) b'!' s,
      fuel_enough (length s) (length rest) rest (omega arith) (omega arith),
    )

pub sanitize_content-append :
    (p s : Bytes) → Without b'!' p → sanitize_content (p ++ s) ≡ p ++ sanitize_content s
unfolding sanitize_content
sanitize_content-append [] s w = refl
sanitize_content-append (c ∷ cs) s w = ground (
  arith,
  fuel_step (length (cs ++ s)) c (cs ++ s),
  no_match,
  sanitize_content-append cs s w.1,
  w.0,
)
  where
    no_match : match_image (c ∷ (cs ++ s)) ≡ none
    no_match = unfold match_image in ground (arith, w.0)

suc-eq_zero : (n : ℕ) → (suc n == 0) ≡ false
suc-eq_zero n = ground arith

replacement_label :
    (a : Bytes)
    → trim_space (b'!' ∷ a) ≡ b'!' ∷ a
    → replacement (b'!' ∷ a) ≡ codes "[Image: " ++ ((b'!' ∷ a) ++ codes "]")
unfolding replacement
replacement_label a t = rw (t, suc-eq_zero (length a)) refl

-- A text of the form ![![a](u)(v), where a has no closing bracket and no white space at its end, u
-- is a non-empty address without closing parenthesis and v has no exclamation mark, is turned into
-- a text that still ends in the Markdown image ![a](v).
pub sanitize_content_leaves_image :
    (a : Bytes) (u : ℕ) (us v : Bytes)
    → Without b']' a
    → Without b')' (u ∷ us)
    → Without b'!' v
    → trim_space (b'!' ∷ b'[' ∷ a) ≡ b'!' ∷ b'[' ∷ a
    → sanitize_content (
        b'!'
        ∷ b'['
        ∷ ((b'!' ∷ b'[' ∷ a) ++ b']' ∷ b'(' ∷ ((u ∷ us) ++ b')' ∷ (b'(' ∷ (v ++ b')' ∷ [])))))
      ≡ codes "[Image: " ++ image a v
sanitize_content_leaves_image a u us v w x y t =
    let rest = b'(' ∷ (v ++ b')' ∷ []) in
    let quiet : Without b'!' rest = (omega arith, All-append _ v (b')' ∷ []) y (omega arith)) in
    sanitize_content-image (b'!' ∷ b'[' ∷ a) u us rest (omega arith, (omega arith, w)) x
    ∙ (λ i. replacement_label (b'[' ∷ a) t i ++ sanitize_content_unchanged rest quiet i)
    ∙ ap (λ z. codes "[Image: " ++ b'!' ∷ b'[' ∷ z) (append_assoc a (b']' ∷ []) rest)
