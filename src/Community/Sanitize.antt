-- ===== src/Community/Sanitize.antt =====
-- sanitize.go. The pattern `!\[([^\]]*)\]\(([^)]+)\)` has one way to match at each place: each of
-- its runs stops at the first closing character. `strings.TrimSpace` works on UTF-8.
pub mod Laws
use mathlib.Core.List.{reverse}
use woolwire.Base.{
  Bytes, List, Option, [], codes, if◌then◌else◌, length, map, none, some, suc, zero, ℕ, ◌++◌, ◌==◌,
  ◌∷◌,
}

-- The encodings of Unicode's white space.
abbrev pub spaces : List Bytes
spaces =
    (9 ∷ [])
    ∷ (10 ∷ [])
    ∷ (11 ∷ [])
    ∷ (12 ∷ [])
    ∷ (13 ∷ [])
    ∷ (32 ∷ [])
    ∷ (0xc2 ∷ 0x85 ∷ [])
    ∷ (0xc2 ∷ 0xa0 ∷ [])
    ∷ (0xe1 ∷ 0x9a ∷ 0x80 ∷ [])
    ∷ (0xe2 ∷ 0x80 ∷ 0x80 ∷ [])
    ∷ (0xe2 ∷ 0x80 ∷ 0x81 ∷ [])
    ∷ (0xe2 ∷ 0x80 ∷ 0x82 ∷ [])
    ∷ (0xe2 ∷ 0x80 ∷ 0x83 ∷ [])
    ∷ (0xe2 ∷ 0x80 ∷ 0x84 ∷ [])
    ∷ (0xe2 ∷ 0x80 ∷ 0x85 ∷ [])
    ∷ (0xe2 ∷ 0x80 ∷ 0x86 ∷ [])
    ∷ (0xe2 ∷ 0x80 ∷ 0x87 ∷ [])
    ∷ (0xe2 ∷ 0x80 ∷ 0x88 ∷ [])
    ∷ (0xe2 ∷ 0x80 ∷ 0x89 ∷ [])
    ∷ (0xe2 ∷ 0x80 ∷ 0x8a ∷ [])
    ∷ (0xe2 ∷ 0x80 ∷ 0xa8 ∷ [])
    ∷ (0xe2 ∷ 0x80 ∷ 0xa9 ∷ [])
    ∷ (0xe2 ∷ 0x80 ∷ 0xaf ∷ [])
    ∷ (0xe2 ∷ 0x81 ∷ 0x9f ∷ [])
    ∷ (0xe3 ∷ 0x80 ∷ 0x80 ∷ [])
    ∷ []

-- The rest of a text behind a prefix.
unfoldable pub strip_prefix : Bytes → Bytes → Option Bytes
strip_prefix [] s = some s
strip_prefix (x ∷ xs) [] = none
strip_prefix (x ∷ xs) (y ∷ ys) = if x == y then strip_prefix xs ys else none

unfoldable pub strip_any : List Bytes → Bytes → Option Bytes
unfolding strip_prefix
strip_any [] s = none
strip_any (p ∷ ps) s = elim (strip_prefix p s) [ some rest ↦ some rest | none ↦ strip_any ps s ]

-- Each round drops at least one byte, so the length is enough fuel.
unfoldable pub trim_fuel : List Bytes → ℕ → Bytes → Bytes
unfolding strip_any
trim_fuel ps zero s = s
trim_fuel ps (suc f) s = elim (strip_any ps s) [ some rest ↦ trim_fuel ps f rest | none ↦ s ]

unfoldable pub trim_space : Bytes → Bytes
unfolding trim_fuel
trim_space s =
    let left = trim_fuel spaces (length s) s in
    reverse (trim_fuel (map reverse spaces) (length left) (reverse left))

abbrev pub cons_to : ℕ → Option (Bytes × Bytes) → Option (Bytes × Bytes)
cons_to c none = none
cons_to c (some (a, b)) = some (c ∷ a, b)

-- What stands before the first `stop`, and what follows it.
unfoldable pub split_at : ℕ → Bytes → Option (Bytes × Bytes)
split_at stop [] = none
split_at stop (c ∷ cs) = if c == stop then some ([], cs) else cons_to c (split_at stop cs)

-- `\(([^)]+)\)`: what follows the parenthesis, if something stands in it.
unfoldable pub match_url : Bytes → Option Bytes
unfolding split_at
match_url [] = none
match_url (c ∷ cs) =
    if c == b'('
    then (elim (split_at b')' cs) [
      | none ↦ none
      | some ([], rest) ↦ none
      | some (u ∷ us, rest) ↦ some rest
    ])
    else none

-- `\[([^\]]*)\]` and the address: the alternative text, and what follows the image.
unfoldable pub match_alt : Bytes → Option (Bytes × Bytes)
unfolding split_at match_url
match_alt [] = none
match_alt (c ∷ cs) =
    if c == b'['
    then (elim (split_at b']' cs) [
      | none ↦ none
      | some (alt, after) ↦ elim (match_url after) [ none ↦ none | some rest ↦ some (alt, rest) ]
    ])
    else none

-- The whole pattern, at the head of a text.
unfoldable pub match_image : Bytes → Option (Bytes × Bytes)
unfolding match_alt
match_image [] = none
match_image (c ∷ cs) = if c == b'!' then match_alt cs else none

unfoldable pub replacement : Bytes → Bytes
unfolding trim_space
replacement alt =
    let label = trim_space alt in
    codes "[Image: "
    ++ ((if length label == 0 then codes "Blocked Remote Image" else label) ++ codes "]")

-- Each round drops at least one byte of the text.
unfoldable pub sanitize_fuel : ℕ → Bytes → Bytes
unfolding match_image replacement
sanitize_fuel zero s = []
sanitize_fuel (suc f) [] = []
sanitize_fuel (suc f) (c ∷ cs) = elim (match_image (c ∷ cs)) [
  | some (alt, rest) ↦ replacement alt ++ sanitize_fuel f rest
  | none ↦ c ∷ sanitize_fuel f cs
]

unfoldable pub sanitize_content : Bytes → Bytes
unfolding sanitize_fuel
sanitize_content s = sanitize_fuel (length s) s
