-- ===== src/Hosting/Gguf.antt =====
-- gguf.go: the reader of a header that was not validated yet, with its bounds.
pub mod Metadata
pub mod Budget
pub mod Strings
pub mod RoundTrip
mod Tests
use woolwire.Base.{
  Bytes, Option, Result, [], count, drop, err, if◌then◌else◌, length, ltb, negsuc, none, not, ok,
  pos, some, suc, take, zero, ℕ, ℤ, ◌*◌, ◌+◌, ◌==◌, ◌>>=◌, ◌^◌, ◌||◌, ◌∷◌,
}

abbrev pub max_string_len : ℕ
max_string_len = 2 ^ 24

abbrev pub max_array_count : ℕ
max_array_count = 2 ^ 26

abbrev pub max_header_scan : ℕ
max_header_scan = 512 * 2 ^ 20

pub data Error : Type 0 where
  scan_budget_exceeded unexpected_end negative_length string_too_long array_too_long
        unsupported_element_type unknown_value_type not_gguf unsupported_version too_many_entries
        not_model :
      Error

-- The bytes that are still to be read, and how many were asked for.
pub record GgufReader : Type 0 where
  pub rest : Bytes
  pub read : ℕ

-- The result of a read with what is left, or the error that ends the reading.
abbrev pub Read : Type 0 → Type 0
Read A = Result Error (A × GgufReader)

-- `take`, and then the bytes from the buffer.
unfoldable pub take_bytes : ℕ → GgufReader → Read Bytes
take_bytes n r =
    if ltb max_header_scan (r.read + n)
    then err scan_budget_exceeded
    else if ltb (length r.rest) n
    then err unexpected_end
    else ok (take n r.rest, record { rest = drop n r.rest; read = r.read + n })

-- The length is an int64.
unfoldable pub skip : ℤ → GgufReader → Read (Unit {0})
unfolding take_bytes
skip (negsuc n) r = err negative_length
skip (pos n) r = take_bytes n r >>= λ s. ok (tt, s.1)

-- `binary.LittleEndian`: the value of the bytes, the least significant first
abbrev pub little_endian : Bytes → ℕ
little_endian [] = 0
little_endian (b ∷ bs) = b + 256 * little_endian bs

unfoldable pub u32 : GgufReader → Read ℕ
unfolding take_bytes
u32 r = take_bytes 4 r >>= λ s. ok (little_endian s.0, s.1)

unfoldable pub u64 : GgufReader → Read ℕ
unfolding take_bytes
u64 r = take_bytes 8 r >>= λ s. ok (little_endian s.0, s.1)

unfoldable pub str : GgufReader → Read Bytes
unfolding u64 take_bytes
str r = u64 r >>= λ s. if ltb max_string_len s.0 then err string_too_long else take_bytes s.0 s.1

abbrev pub gguf_string : ℕ
gguf_string = 8

abbrev pub gguf_array : ℕ
gguf_array = 9

-- The tags from `ggufUint8`, 0, to `ggufFloat64`, 12.
unfoldable pub scalar_size : ℕ → Option ℕ
scalar_size typ =
    if typ == 0 || typ == 1 || typ == 7
    then some 1
    else if typ == 2 || typ == 3
    then some 2
    else if typ == 4 || typ == 5 || typ == 6
    then some 4
    else if typ == 10 || typ == 11 || typ == 12
    then some 8
    else none

-- One element of an array of strings, or the value of a string, that is passed over.
unfoldable pub skip_string : GgufReader → Read (Unit {0})
unfolding u64 skip
skip_string r =
    u64 r >>= λ s. if ltb max_string_len s.0 then err string_too_long else skip (pos s.0) s.1

unfoldable pub skip_strings : ℕ → GgufReader → Read (Unit {0})
unfolding skip_string
skip_strings zero r = ok (tt, r)
skip_strings (suc n) r = skip_string r >>= λ s. skip_strings n s.1

unfoldable pub skip_elements : ℕ → ℕ → GgufReader → Read (Unit {0})
unfolding skip skip_strings scalar_size
skip_elements typ count r = elim (scalar_size typ) [
  | some size ↦ skip (pos (count * size)) r
  | none ↦ if not (typ == gguf_string) then err unsupported_element_type else skip_strings count r
]

unfoldable pub skip_array : GgufReader → Read (Unit {0})
unfolding u32 u64 skip_elements
skip_array r = u32 r >>= λ t. u64 t.1 >>= λ n.
    if ltb max_array_count n.0 then err array_too_long else skip_elements t.0 n.0 n.1

unfoldable pub skip_value : ℕ → GgufReader → Read (Unit {0})
unfolding skip skip_string skip_array scalar_size
skip_value typ r = elim (scalar_size typ) [
  | some size ↦ skip (pos size) r
  | none ↦
      if typ == gguf_string
      then skip_string r
      else if typ == gguf_array
      then skip_array r
      else err unknown_value_type
]

-- A value that is known to hold a non-negative integer; anything else is passed over, for 0.
unfoldable pub read_uint_value : ℕ → GgufReader → Read ℕ
unfolding take_bytes u32 u64 skip_value
read_uint_value typ r =
    if typ == 0 || typ == 1
    then (take_bytes 1 r >>= λ s. ok (little_endian s.0, s.1))
    else if typ == 2 || typ == 3
    then (take_bytes 2 r >>= λ s. ok (little_endian s.0, s.1))
    else if typ == 4 || typ == 5
    then u32 r
    else if typ == 10 || typ == 11
    then u64 r
    else (skip_value typ r >>= λ s. ok (0, s.1))
