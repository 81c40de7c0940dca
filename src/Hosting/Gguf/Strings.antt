-- ===== src/Hosting/Gguf/Strings.antt =====
-- gguf.go: the reader takes back what a writer of the format puts down.
use mathlib.Core.List.{append_assoc}
use woolwire.Base.{
  All, Bytes, List, [], ap, arith, drop, err, if◌then◌else◌, length, length-append, ltb, ok, pos,
  refl, take, ℕ, ◌%◌, ◌++◌, ◌+◌, ◌/◌, ◌<◌, ◌>>=◌, ◌^◌, ◌∙◌, ◌∷◌, ◌≡◌, ◌≤◌,
}
use woolwire.Hosting.Gguf.{
  GgufReader, max_header_scan, max_string_len, string_too_long, take_bytes, skip, u32, u64, str,
  skip_string, skip_strings, little_endian,
}

abbrev pub at : Bytes → ℕ → GgufReader
at b n = record { rest = b; read = n }

-- A number in little-endian bytes.
abbrev pub write_u32 : ℕ → Bytes
write_u32 v = (v % 256) ∷ (v / 2 ^ 8 % 256) ∷ (v / 2 ^ 16 % 256) ∷ (v / 2 ^ 24 % 256) ∷ []

abbrev pub write_u64 : ℕ → Bytes
write_u64 v = write_u32 (v % 2 ^ 32) ++ write_u32 (v / 2 ^ 32)

abbrev pub write_string : Bytes → Bytes
write_string s = write_u64 (length s) ++ s

take-append : (a b : Bytes) → take (length a) (a ++ b) ≡ a
take-append [] b = refl
take-append (x ∷ a) b = ap (λ z. x ∷ z) (take-append a b)

drop-append : (a b : Bytes) → drop (length a) (a ++ b) ≡ b
drop-append [] b = refl
drop-append (x ∷ a) b = drop-append a b

pub take_bytes-append :
    (a b : Bytes) (n : ℕ)
    → n + length a ≤ max_header_scan
    → take_bytes (length a) (at (a ++ b) n) ≡ ok (a, at b (n + length a))
unfolding take_bytes
take_bytes-append a b n h = ground (arith, take-append a b, drop-append a b, length-append a b)

pub u32-write :
    (v : ℕ) (b : Bytes) (n : ℕ)
    → v < 2 ^ 32
    → n + 4 ≤ max_header_scan
    → u32 (at (write_u32 v ++ b) n) ≡ ok (v, at b (n + 4))
unfolding u32
u32-write v b n h k = rw (take_bytes-append (write_u32 v) b n k) (λ i. ok (value i, at b (n + 4)))
  where
    value : little_endian (write_u32 v) ≡ v
    value = omega arith

pub u64-write :
    (v : ℕ) (b : Bytes) (n : ℕ)
    → v < 2 ^ 64
    → n + 8 ≤ max_header_scan
    → u64 (at (write_u64 v ++ b) n) ≡ ok (v, at b (n + 8))
unfolding u64
u64-write v b n h k = rw (take_bytes-append (write_u64 v) b n k) (λ i. ok (value i, at b (n + 8)))
  where
    value : little_endian (write_u64 v) ≡ v
    value = omega arith

-- A string within the limits is read back, byte by byte, and the reader stands behind it.
pub str-write :
    (s b : Bytes) (n : ℕ)
    → length s ≤ max_string_len
    → n + 8 + length s ≤ max_header_scan
    → str (at (write_string s ++ b) n) ≡ ok (s, at b (n + 8 + length s))
unfolding str
str-write s b n h k =
    ap (λ m. m >>= λ x. if ltb max_string_len x.0 then err string_too_long else take_bytes x.0 x.1)
      (u64-write (length s) (s ++ b) n (omega arith) (omega arith))
    ∙ ground (arith, take_bytes-append s b (n + 8) k)

pub skip_string-write :
    (s b : Bytes) (n : ℕ)
    → length s ≤ max_string_len
    → n + 8 + length s ≤ max_header_scan
    → skip_string (at (write_string s ++ b) n) ≡ ok (tt, at b (n + 8 + length s))
unfolding skip_string skip
skip_string-write s b n h k =
    ap (λ m. m >>= λ x. if ltb max_string_len x.0 then err string_too_long else skip (pos x.0) x.1)
      (u64-write (length s) (s ++ b) n (omega arith) (omega arith))
    ∙ ground (arith, take_bytes-append s b (n + 8) k)

-- The vocabulary of a tokenizer: an array of strings.
abbrev pub write_strings : List Bytes → Bytes
write_strings [] = []
write_strings (s ∷ ss) = write_string s ++ write_strings ss

pub skip_strings-write :
    (ss : List Bytes) (b : Bytes) (n : ℕ)
    → All (λ s. length s ≤ max_string_len) ss
    → n + length (write_strings ss) ≤ max_header_scan
    → skip_strings (length ss) (at (write_strings ss ++ b) n)
      ≡ ok (tt, at b (n + length (write_strings ss)))
unfolding skip_strings
skip_strings-write [] b n h k = (λ i. ok (tt, at b (same i)))
  where
    same : n ≡ n + 0
    same = omega arith
skip_strings-write (s ∷ ss) b n h k =
    let size = length-append s (write_strings ss) in
    ap (λ z. skip_string (at z n) >>= λ x. skip_strings (length ss) x.1)
      (append_assoc (write_string s) (write_strings ss) b)
    ∙ ap (λ m. m >>= λ x. skip_strings (length ss) x.1)
        (skip_string-write s (write_strings ss ++ b) n h.0 (omega (arith, size)))
    ∙ skip_strings-write ss b (n + 8 + length s) h.1 (omega (arith, size))
    ∙ ap (λ z. ok (tt, at b z)) (omega (arith, size))
