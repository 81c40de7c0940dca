-- ===== src/Hosting/Gguf/Budget.antt =====
-- gguf.go: however hostile the header, no more than the budget is read, and no byte is read twice.
use woolwire.Base.{
  Bool, Bytes, Option, [], arith, bytes_dec, codes, count, drop, err, fail_if, false, if_cases,
  if◌then◌else◌, ite_cases, length, ltb, negsuc, none, not, ok, pos, refl, some, subst, suc, true,
  zero, ℕ, ℤ, ◌*◌, ◌+◌, ◌==◌, ◌>>=◌, ◌||◌, ◌∙◌, ◌∷◌, ◌≡◌, ◌≤◌,
}
use woolwire.Hosting.Gguf.{
  Error, GgufReader, Read, max_header_scan, take_bytes, skip, u32, u64, str, skip_string,
  skip_strings, skip_elements, max_string_len, string_too_long, max_array_count, array_too_long,
  not_gguf, unsupported_version, too_many_entries, not_model, gguf_string, gguf_array,
  unsupported_element_type, unknown_value_type, skip_array, skip_value, read_uint_value,
  scalar_size,
}
use woolwire.Hosting.Gguf.Metadata.{
  GgufMetadata, read_value, read_entries, read_header, string_or_skip, has_suffix, empty_metadata,
}

-- What was counted as read was taken off the bytes, and is within the budget.
abbrev pub Advances : GgufReader → GgufReader → Type 0
Advances r s =
    (s.read + length s.rest ≡ r.read + length r.rest)
    × (r.read ≤ max_header_scan → s.read ≤ max_header_scan)

-- A read that succeeds advances.
abbrev pub Sound : {A : Type 0} → GgufReader → Read A → Type 0
Sound r (ok s) = Advances r s.1
Sound r (err e) = Unit {0}

length-drop : (n : ℕ) (b : Bytes) → ltb (length b) n ≡ false → n + length (drop n b) ≡ length b
length-drop zero b h = omega arith
length-drop (suc n) [] h = absurd (ground arith)
length-drop (suc n) (x ∷ b) h = ground (arith, length-drop n b)

take_bytes-Sound : (n : ℕ) (r : GgufReader) → Sound r (take_bytes n r)
unfolding take_bytes
take_bytes-Sound n r =
    if_cases (Sound r) (ltb max_header_scan (r.read + n)) (λ z. tt)
      (λ y.
        if_cases (Sound r) (ltb (length r.rest) n) (λ z. tt)
          (λ z. (omega (arith, length-drop n r.rest z), λ h. ground arith)))

then-Sound :
    {A B : Type 0} (r : GgufReader) (m : Read A) (f : A × GgufReader → Read B)
    → Sound r m
    → ((s : A × GgufReader) → Sound s.1 (f s))
    → Sound r (m >>= f)
then-Sound r (err e) f h k = tt
then-Sound {B = B} r (ok s) f h k = further (f s) (k s)
  where
    further : (m : Read B) → Sound s.1 m → Sound r m
    further (ok t) g = (g.0 ∙ h.0, λ b. g.1 (h.1 b))
    further (err e) g = tt

-- A result that is made of what was read.
yield-Sound :
    {A B : Type 0} (r : GgufReader) (m : Read A) (g : A × GgufReader → B)
    → Sound r m
    → Sound r (m >>= λ s. ok (g s, s.1))
yield-Sound r m g h = then-Sound r m (λ s. ok (g s, s.1)) h (λ s. (refl, λ b. b))

guard-Sound :
    {A : Type 0} (r : GgufReader) (b : Bool) (e : Error) (m : Read A)
    → Sound r m
    → Sound r (fail_if b e >>= λ _. m)
guard-Sound r true e m h = tt
guard-Sound r false e m h = h

refuse-Sound :
    {A : Type 0} (r : GgufReader) (b : Bool) (e : Error) (m : Read A)
    → Sound r m
    → Sound r (if b then err e else m)
refuse-Sound r true e m h = tt
refuse-Sound r false e m h = h

skip-Sound : (n : ℤ) (r : GgufReader) → Sound r (skip n r)
unfolding skip
skip-Sound (negsuc n) r = tt
skip-Sound (pos n) r = yield-Sound r (take_bytes n r) (λ _. tt) (take_bytes-Sound n r)

u32-Sound : (r : GgufReader) → Sound r (u32 r)
unfolding u32
u32-Sound r = yield-Sound r (take_bytes 4 r) _ (take_bytes-Sound 4 r)

u64-Sound : (r : GgufReader) → Sound r (u64 r)
unfolding u64
u64-Sound r = yield-Sound r (take_bytes 8 r) _ (take_bytes-Sound 8 r)

str-Sound : (r : GgufReader) → Sound r (str r)
unfolding str
str-Sound r = then-Sound r (u64 r) _ (u64-Sound r) (λ s.
    refuse-Sound s.1 (ltb max_string_len s.0) string_too_long (take_bytes s.0 s.1)
      (take_bytes-Sound s.0 s.1))

skip_string-Sound : (r : GgufReader) → Sound r (skip_string r)
unfolding skip_string
skip_string-Sound r = then-Sound r (u64 r) _ (u64-Sound r) (λ s.
    refuse-Sound s.1 (ltb max_string_len s.0) string_too_long (skip (pos s.0) s.1)
      (skip-Sound (pos s.0) s.1))

skip_strings-Sound : (n : ℕ) (r : GgufReader) → Sound r (skip_strings n r)
unfolding skip_strings
skip_strings-Sound zero r = (refl, λ b. b)
skip_strings-Sound (suc n) r =
    then-Sound r (skip_string r) (λ s. skip_strings n s.1) (skip_string-Sound r)
      (λ s. skip_strings-Sound n s.1)

skip_elements-Sound : (typ count : ℕ) (r : GgufReader) → Sound r (skip_elements typ count r)
unfolding skip_elements
skip_elements-Sound typ count r = sized (scalar_size typ)
  where
    sized :
        (o : Option ℕ)
        → Sound r (elim o [
          | some size ↦ skip (pos (count * size)) r
          | none ↦
              if not (typ == gguf_string)
              then err unsupported_element_type
              else skip_strings count r
        ])
    sized (some size) = skip-Sound (pos (count * size)) r
    sized none =
        if_cases (Sound r) (not (typ == gguf_string)) (λ z. tt) (λ z. skip_strings-Sound count r)

skip_array-Sound : (r : GgufReader) → Sound r (skip_array r)
unfolding skip_array
skip_array-Sound r = then-Sound r (u32 r) _ (u32-Sound r) (λ t.
    then-Sound t.1 (u64 t.1) _ (u64-Sound t.1) (λ n.
      refuse-Sound n.1 (ltb max_array_count n.0) array_too_long (skip_elements t.0 n.0 n.1)
        (skip_elements-Sound t.0 n.0 n.1)))

skip_value-Sound : (typ : ℕ) (r : GgufReader) → Sound r (skip_value typ r)
unfolding skip_value
skip_value-Sound typ r = sized (scalar_size typ)
  where
    sized :
        (o : Option ℕ)
        → Sound r (elim o [
          | some size ↦ skip (pos size) r
          | none ↦
              if typ == gguf_string
              then skip_string r
              else if typ == gguf_array
              then skip_array r
              else err unknown_value_type
        ])
    sized (some size) = skip-Sound (pos size) r
    sized none =
        if_cases (Sound r) (typ == gguf_string) (λ z. skip_string-Sound r)
          (λ z. if_cases (Sound r) (typ == gguf_array) (λ y. skip_array-Sound r) (λ y. tt))

read_uint_value-Sound : (typ : ℕ) (r : GgufReader) → Sound r (read_uint_value typ r)
unfolding read_uint_value
read_uint_value-Sound typ r =
    if_cases (Sound r) (typ == 0 || typ == 1)
      (λ z. yield-Sound r (take_bytes 1 r) _ (take_bytes-Sound 1 r))
      (λ z.
        if_cases (Sound r) (typ == 2 || typ == 3)
          (λ z. yield-Sound r (take_bytes 2 r) _ (take_bytes-Sound 2 r))
          (λ z.
            if_cases (Sound r) (typ == 4 || typ == 5) (λ z. u32-Sound r)
              (λ z.
                if_cases (Sound r) (typ == 10 || typ == 11) (λ z. u64-Sound r)
                  (λ z. yield-Sound r (skip_value typ r) (λ _. 0) (skip_value-Sound typ r)))))

module _ (to_lower : Bytes → Bytes) where
  string_or_skip-Sound :
      (typ : ℕ) (set : Bytes → GgufMetadata) (md : GgufMetadata) (r : GgufReader)
      → Sound r (string_or_skip to_lower typ set md r)
  string_or_skip-Sound typ set md r =
      if_cases (Sound r) (not (typ == gguf_string))
        (λ z. yield-Sound r (skip_value typ r) (λ _. md) (skip_value-Sound typ r))
        (λ z. yield-Sound r (str r) (λ s. set s.0) (str-Sound r))

  read_value-Sound :
      (key : Bytes) (typ : ℕ) (md : GgufMetadata) (r : GgufReader)
      → Sound r (read_value to_lower key typ md r)
  unfolding read_value
  read_value-Sound key typ md r =
      ite_cases (Sound r) (bytes_dec key (codes "general.architecture"))
        (λ q. string_or_skip-Sound typ _ md r)
        (λ n.
          ite_cases (Sound r) (bytes_dec key (codes "general.name"))
            (λ q. string_or_skip-Sound typ _ md r)
            (λ n.
              ite_cases (Sound r) (bytes_dec key (codes "tokenizer.chat_template"))
                (λ q. string_or_skip-Sound typ _ md r)
                (λ n.
                  if_cases (Sound r) (has_suffix (codes ".context_length") key)
                    (λ z. yield-Sound r (read_uint_value typ r) _ (read_uint_value-Sound typ r))
                    (λ z. yield-Sound r (skip_value typ r) _ (skip_value-Sound typ r)))))

  read_entries-Sound :
      (n : ℕ) (md : GgufMetadata) (r : GgufReader) → Sound r (read_entries to_lower n md r)
  unfolding read_entries
  read_entries-Sound zero md r = (refl, λ b. b)
  read_entries-Sound (suc n) md r = then-Sound r (str r) _ (str-Sound r) (λ k.
      then-Sound k.1 (u32 k.1) _ (u32-Sound k.1) (λ t.
        then-Sound t.1 (read_value to_lower k.0 t.0 md t.1) (λ s. read_entries to_lower n s.0 s.1)
          (read_value-Sound k.0 t.0 md t.1) (λ s. read_entries-Sound n s.0 s.1)))

  read_header-Sound : (r : GgufReader) → Sound r (read_header to_lower r)
  unfolding read_header
  read_header-Sound r = then-Sound r (take_bytes 4 r) _ (take_bytes-Sound 4 r) (λ magic.
      guard-Sound magic.1 _ not_gguf _ (
        then-Sound magic.1 (u32 magic.1) _ (u32-Sound magic.1) (λ version.
          guard-Sound version.1 _ unsupported_version _ (
            then-Sound version.1 (u64 version.1) _ (u64-Sound version.1) (λ tensors.
              then-Sound tensors.1 (u64 tensors.1) _ (u64-Sound tensors.1) (λ kv.
                guard-Sound kv.1 _ too_many_entries _ (
                  then-Sound kv.1 (read_entries to_lower kv.0 (empty_metadata to_lower) kv.1) _
                    (read_entries-Sound kv.0 (empty_metadata to_lower) kv.1)
                    (λ md. guard-Sound md.1 _ not_model (ok md) (refl, λ b. b)))))))))

  -- Whatever the bytes of a file are, a header that is read has taken exactly the counted number
  -- of bytes off the file, at most 512 MiB.
  pub read_header_budget :
      (file : Bytes) (md : GgufMetadata) (s : GgufReader)
      → read_header to_lower (record { rest = file; read = 0 }) ≡ ok (md, s)
      → (s.read + length s.rest ≡ length file) × (s.read ≤ max_header_scan)
  read_header_budget file md s e =
      let a =
        subst (Sound (record { rest = file; read = 0 })) e
          (read_header-Sound (record { rest = file; read = 0 })) in
      (omega (arith, a.0), a.1 (omega arith))
