-- ===== src/Hosting/Gguf/RoundTrip.antt =====
-- gguf.go: reading a header that was written for a list of entries finds what the entries say.
use mathlib.Core.List.{append_assoc}
use woolwire.Base.{
  All, Bool, Bytes, List, Result, [], ap, arith, bytes_dec, codes, err, fail_if, false, if_pos,
  if◌then◌else◌, ite, leb, length, length-append, ltb, not, ok, refl, true, ℕ, ◌&&◌, ◌++◌, ◌+◌, ◌<◌,
  ◌==◌, ◌>>=◌, ◌^◌, ◌∙◌, ◌∷◌, ◌≡◌, ◌≤◌, ◌⊎◌,
}
use woolwire.Hosting.Gguf.{
  Error, not_model, not_gguf, unsupported_version, too_many_entries, GgufReader, Read,
  max_header_scan, max_string_len, max_array_count, array_too_long, skip, u32, u64, str,
  skip_elements, skip_array, skip_value, read_uint_value, scalar_size, gguf_string, gguf_array,
}
use woolwire.Hosting.Gguf.Metadata.{
  GgufMetadata, has_prefix, has_suffix, chat_template_supports_thinking, string_or_skip, read_value,
  read_entries, max_key_values, empty_metadata, read_header, read_gguf_metadata,
}
use woolwire.Hosting.Gguf.Strings.{
  at, write_u32, write_u64, write_string, write_strings, take_bytes-append, u32-write, u64-write,
  str-write, skip_string-write, skip_strings-write,
}

-- The values that a model's header is made of.
pub data Value : Type 0 where
  text : Bytes → Value
  uint32 : ℕ → Value
  vocabulary : List Bytes → Value

abbrev pub tag : Value → ℕ
tag (text s) = gguf_string
tag (uint32 v) = 4
tag (vocabulary ss) = gguf_array

abbrev pub write_data : Value → Bytes
write_data (text s) = write_string s
write_data (uint32 v) = write_u32 v
write_data (vocabulary ss) = write_u32 gguf_string ++ (write_u64 (length ss) ++ write_strings ss)

-- The value is within the reader's limits.
abbrev pub Fits : Value → Type 0
Fits (text s) = length s ≤ max_string_len
Fits (uint32 v) = v < 2 ^ 32
Fits (vocabulary ss) = (length ss ≤ max_array_count) × All (λ s. length s ≤ max_string_len) ss

skip_array-write :
    (ss : List Bytes) (b : Bytes) (n : ℕ)
    → Fits (vocabulary ss)
    → n + length (write_data (vocabulary ss)) ≤ max_header_scan
    → skip_array (at (write_data (vocabulary ss) ++ b) n)
      ≡ ok (tt, at b (n + length (write_data (vocabulary ss))))
unfolding skip_array skip_elements scalar_size
skip_array-write ss b n f h =
    ap
      (λ m. m >>= λ t. u64 t.1 >>= λ c.
        if ltb max_array_count c.0 then err array_too_long else skip_elements t.0 c.0 c.1)
      (u32-write gguf_string (write_u64 (length ss) ++ (write_strings ss ++ b)) n (omega arith)
        (omega arith))
    ∙ ap
        (λ m. m >>= λ c.
          if ltb max_array_count c.0 then err array_too_long else skip_elements gguf_string c.0 c.1)
        (u64-write (length ss) (write_strings ss ++ b) (n + 4) (omega arith) (omega arith))
    ∙ rw small (
        skip_strings-write ss b (n + 4 + 8) f.1 (omega arith)
        ∙ ap (λ z. ok (tt, at b z)) (omega arith))
  where
    small : ltb max_array_count (length ss) ≡ false
    small = ground arith

skip_value-write :
    (v : Value) (b : Bytes) (n : ℕ)
    → Fits v
    → n + length (write_data v) ≤ max_header_scan
    → skip_value (tag v) (at (write_data v ++ b) n) ≡ ok (tt, at b (n + length (write_data v)))
unfolding skip_value skip scalar_size
skip_value-write (text s) b n f h =
    skip_string-write s b n f (omega arith) ∙ ap (λ z. ok (tt, at b z)) (omega arith)
skip_value-write (uint32 v) b n f h =
    ap (λ m. m >>= λ s. ok (tt, s.1)) (take_bytes-append (write_u32 v) b n h)
skip_value-write (vocabulary ss) b n f h = skip_array-write ss b n f h

-- The number that a value holds, 0 for what is no number.
abbrev pub number_of : Value → ℕ
number_of (text s) = 0
number_of (uint32 v) = v
number_of (vocabulary ss) = 0

read_uint_value-write :
    (v : Value) (b : Bytes) (n : ℕ)
    → Fits v
    → n + length (write_data v) ≤ max_header_scan
    → read_uint_value (tag v) (at (write_data v ++ b) n)
      ≡ ok (number_of v, at b (n + length (write_data v)))
unfolding read_uint_value
read_uint_value-write (text s) b n f h =
    ap (λ m. m >>= λ s. ok (0, s.1)) (skip_value-write (text s) b n f h)
read_uint_value-write (uint32 v) b n f h = u32-write v b n f h
read_uint_value-write (vocabulary ss) b n f h =
    ap (λ m. m >>= λ s. ok (0, s.1)) (skip_value-write (vocabulary ss) b n f h)

small : (v : Value) → tag v < 2 ^ 32
small (text s) = omega arith
small (uint32 v) = omega arith
small (vocabulary ss) = omega arith

-- Where both branches of a test read to the same place, so does the test.
on_dec :
    {P : Type 0} (d : Dec P) {m m' : Read GgufMetadata} {x y : GgufMetadata} {t : GgufReader}
    → m ≡ ok (x, t)
    → m' ≡ ok (y, t)
    → ite d m m' ≡ ok (ite d x y, t)
on_dec (yes p) e f = e
on_dec (no n) e f = f

on_bool :
    (b : Bool) {m m' : Read GgufMetadata} {x y : GgufMetadata} {t : GgufReader}
    → m ≡ ok (x, t)
    → m' ≡ ok (y, t)
    → (if b then m else m') ≡ ok (if b then x else y, t)
on_bool true e f = e
on_bool false e f = f

module _ (to_lower : Bytes → Bytes) where
  -- A text changes the record, and nothing else does.
  abbrev pub with_text : Value → (Bytes → GgufMetadata) → GgufMetadata → GgufMetadata
  with_text (text s) set md = set s
  with_text (uint32 v) set md = md
  with_text (vocabulary ss) set md = md

  string_or_skip-write :
      (v : Value) (set : Bytes → GgufMetadata) (md : GgufMetadata) (b : Bytes) (n : ℕ)
      → Fits v
      → n + length (write_data v) ≤ max_header_scan
      → string_or_skip to_lower (tag v) set md (at (write_data v ++ b) n)
        ≡ ok (with_text v set md, at b (n + length (write_data v)))
  string_or_skip-write (text s) set md b n f h =
      ap (λ m. m >>= λ x. ok (set x.0, x.1)) (str-write s b n f (omega arith))
      ∙ ap (λ z. ok (set s, at b z)) (omega arith)
  string_or_skip-write (uint32 v) set md b n f h =
      ap (λ m. m >>= λ x. ok (md, x.1)) (skip_value-write (uint32 v) b n f h)
  string_or_skip-write (vocabulary ss) set md b n f h =
      ap (λ m. m >>= λ x. ok (md, x.1)) (skip_value-write (vocabulary ss) b n f h)

  -- What an entry says of the model.
  abbrev pub describe : GgufMetadata → Bytes × Value → GgufMetadata
  describe md (key, v) =
      ite (bytes_dec key (codes "general.architecture"))
        (with_text v (λ s. record md { architecture = s }) md)
        (ite (bytes_dec key (codes "general.name")) (with_text v (λ s. record md { name = s }) md) (
          ite (bytes_dec key (codes "tokenizer.chat_template"))
            (with_text v
              (λ s. record md { supports_thinking = chat_template_supports_thinking to_lower s })
              md)
            (if has_suffix (codes ".context_length") key
              then (if ltb 0 (number_of v) && leb (number_of v) (2 ^ 31)
                  then record md { context_length = number_of v }
                  else md)
              else (if has_prefix (codes "tokenizer.ggml.") key
                  then record md { has_tokenizer = true }
                  else md))))

  read_value-write :
      (key : Bytes) (v : Value) (md : GgufMetadata) (b : Bytes) (n : ℕ)
      → Fits v
      → n + length (write_data v) ≤ max_header_scan
      → read_value to_lower key (tag v) md (at (write_data v ++ b) n)
        ≡ ok (describe md (key, v), at b (n + length (write_data v)))
  unfolding read_value
  read_value-write key v md b n f h =
      on_dec (bytes_dec key (codes "general.architecture")) (string_or_skip-write v _ md b n f h) (
        on_dec (bytes_dec key (codes "general.name")) (string_or_skip-write v _ md b n f h) (
          on_dec (bytes_dec key (codes "tokenizer.chat_template"))
            (string_or_skip-write v _ md b n f h)
            (on_bool (has_suffix (codes ".context_length") key)
              (ap
                (λ m. m >>= λ x. ok (
                  if ltb 0 x.0 && leb x.0 (2 ^ 31) then record md { context_length = x.0 } else md,
                  x.1,
                ))
                (read_uint_value-write v b n f h))
              (ap
                (λ m. m >>= λ s. ok (
                  if has_prefix (codes "tokenizer.ggml.") key
                      then record md { has_tokenizer = true }
                      else md,
                  s.1,
                ))
                (skip_value-write v b n f h)))))

  -- An entry, and a list of entries.
  abbrev pub write_entry : Bytes × Value → Bytes
  write_entry (key, v) = write_string key ++ (write_u32 (tag v) ++ write_data v)

  abbrev pub write_entries : List (Bytes × Value) → Bytes
  write_entries [] = []
  write_entries (e ∷ es) = write_entry e ++ write_entries es

  abbrev pub describe_all : GgufMetadata → List (Bytes × Value) → GgufMetadata
  describe_all md [] = md
  describe_all md (e ∷ es) = describe_all (describe md e) es

  pub read_entries-write :
      (es : List (Bytes × Value)) (md : GgufMetadata) (b : Bytes) (n : ℕ)
      → All (λ e. (length e.0 ≤ max_string_len) × Fits e.1) es
      → n + length (write_entries es) ≤ max_header_scan
      → read_entries to_lower (length es) md (at (write_entries es ++ b) n)
        ≡ ok (describe_all md es, at b (n + length (write_entries es)))
  unfolding read_entries
  read_entries-write [] md b n f h = ap (λ z. ok (md, at b z)) (omega arith)
  read_entries-write ((key, v) ∷ es) md b n f h =
      let tail = write_entries es ++ b in
      let s1 = length-append key (write_u32 (tag v) ++ write_data v) in
      let s2 = length-append (write_entry (key, v)) (write_entries es) in
      ap (λ z. next z)
        (append_assoc (write_entry (key, v)) (write_entries es) b
          ∙ append_assoc (write_string key) (write_u32 (tag v) ++ write_data v) tail)
      ∙ ap (λ m. m >>= after_key)
          (str-write key (write_u32 (tag v) ++ (write_data v ++ tail)) n f.0.0
            (omega (arith, s1, s2)))
      ∙ ap (λ m. m >>= after_tag key)
          (u32-write (tag v) (write_data v ++ tail) (n + 8 + length key) (small v)
            (omega (arith, s1, s2)))
      ∙ ap (λ m. m >>= after_value)
          (read_value-write key v md tail (n + 8 + length key + 4) f.0.1 (omega (arith, s1, s2)))
      ∙ read_entries-write es (describe md (key, v)) b
          (n + 8 + length key + 4 + length (write_data v)) f.1 (omega (arith, s1, s2))
      ∙ ap (λ z. ok (describe_all (describe md (key, v)) es, at b z)) (omega (arith, s1, s2))
    where
      after_value : GgufMetadata × GgufReader → Read GgufMetadata
      after_value s = read_entries to_lower (length es) s.0 s.1

      after_tag : Bytes → ℕ × GgufReader → Read GgufMetadata
      after_tag k t = read_value to_lower k t.0 md t.1 >>= after_value

      after_key : Bytes × GgufReader → Read GgufMetadata
      after_key k = u32 k.1 >>= after_tag k.0

      next : Bytes → Read GgufMetadata
      next z = str (at z n) >>= after_key

  -- A whole file: the header, and the tensors behind it.
  abbrev pub write_header : ℕ → ℕ → List (Bytes × Value) → Bytes
  write_header version tensors es =
      codes "GGUF"
      ++ (write_u32 version ++ (write_u64 tensors ++ (write_u64 (length es) ++ write_entries es)))

  -- What the outcome is once the entries are read.
  abbrev pub outcome : GgufMetadata → Result Error GgufMetadata
  outcome md = if md.has_tokenizer then ok md else err not_model

  -- A file of version 2 or 3 whose header was written for at most 2^16 entries of texts, 32-bit
  -- numbers and arrays of strings, all within the reader's limits and within the scan budget, is
  -- read, whatever follows the header, as the record that the entries describe one after the
  -- other, or as no model if none of them is a tokenizer's.
  pub read_gguf_metadata-write :
      (version tensors : ℕ) (es : List (Bytes × Value)) (weights : Bytes)
      → (version ≡ 2) ⊎ (version ≡ 3)
      → tensors < 2 ^ 64
      → length es ≤ max_key_values
      → All (λ e. (length e.0 ≤ max_string_len) × Fits e.1) es
      → length (write_header version tensors es) ≤ max_header_scan
      → read_gguf_metadata to_lower (write_header version tensors es ++ weights)
        ≡ outcome (describe_all (empty_metadata to_lower) es)
  unfolding read_gguf_metadata read_header
  read_gguf_metadata-write version tensors es weights v t c f h =
      let body = write_entries es ++ weights in
      ap (λ m. m >>= after_magic >>= first)
        (take_bytes-append (codes "GGUF")
          (write_u32 version ++ (write_u64 tensors ++ (write_u64 (length es) ++ body))) 0
          (omega arith))
      ∙ ap
          (λ z.
            fail_if z not_gguf
            >>= (λ _.
                u32 (
                  at (write_u32 version ++ (write_u64 tensors ++ (write_u64 (length es) ++ body)))
                    4)
                >>= after_version)
            >>= first)
          (if_pos (bytes_dec (codes "GGUF") (codes "GGUF")) refl false true)
      ∙ ap (λ m. m >>= after_version >>= first)
          (u32-write version (write_u64 tensors ++ (write_u64 (length es) ++ body)) 4 (ground arith)
            (omega arith))
      ∙ ap
          (λ z.
            fail_if z unsupported_version
            >>= (λ _.
                u64 (at (write_u64 tensors ++ (write_u64 (length es) ++ body)) 8) >>= after_tensors)
            >>= first)
          supported
      ∙ ap (λ m. m >>= after_tensors >>= first)
          (u64-write tensors (write_u64 (length es) ++ body) 8 t (omega arith))
      ∙ ap (λ m. m >>= after_count >>= first)
          (u64-write (length es) body 16 (omega arith) (omega arith))
      ∙ ap
          (λ z.
            fail_if z too_many_entries
            >>= (λ _.
                read_entries to_lower (length es) (empty_metadata to_lower) (at body 24)
                >>= after_entries)
            >>= first)
          few
      ∙ ap (λ m. m >>= after_entries >>= first)
          (read_entries-write es (empty_metadata to_lower) weights 24 f (omega arith))
      ∙ verdict (describe_all (empty_metadata to_lower) es)
          (at weights (24 + length (write_entries es)))
    where
      first : GgufMetadata × GgufReader → Result Error GgufMetadata
      first s = ok s.0

      after_entries : GgufMetadata × GgufReader → Read GgufMetadata
      after_entries md = fail_if (not md.0.has_tokenizer) not_model >>= λ _. ok md

      after_count : ℕ × GgufReader → Read GgufMetadata
      after_count kv = fail_if (ltb max_key_values kv.0) too_many_entries >>= λ _.
          read_entries to_lower kv.0 (empty_metadata to_lower) kv.1 >>= after_entries

      after_tensors : ℕ × GgufReader → Read GgufMetadata
      after_tensors tensors = u64 tensors.1 >>= after_count

      after_version : ℕ × GgufReader → Read GgufMetadata
      after_version version =
          fail_if (not (version.0 == 2) && not (version.0 == 3)) unsupported_version >>= λ _.
          u64 version.1 >>= after_tensors

      after_magic : Bytes × GgufReader → Read GgufMetadata
      after_magic magic =
          fail_if (ite (bytes_dec magic.0 (codes "GGUF")) false true) not_gguf >>= λ _.
          u32 magic.1 >>= after_version

      supported : (not (version == 2) && not (version == 3)) ≡ false
      supported = ground arith

      few : ltb max_key_values (length es) ≡ false
      few = ground arith

      verdict :
          (md : GgufMetadata) (r : GgufReader) → (after_entries (md, r) >>= first) ≡ outcome md
      verdict md r = ground arith
