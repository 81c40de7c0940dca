-- ===== src/Hosting/Gguf/Metadata.antt =====
-- gguf.go, `readGGUFMetadata`: what the header says of a model. `strings.ToLower`, which follows
-- the tables of Unicode, is the parameter `to_lower`. The file is its bytes.
use woolwire.Base.{
  Bool, Bytes, List, Result, [], any, bytes_dec, codes, fail_if, false, if◌then◌else◌, ite, leb,
  ltb, none, not, ok, some, suc, true, zero, ℕ, ◌&&◌, ◌==◌, ◌>>=◌, ◌^◌, ◌||◌, ◌∷◌,
}
use woolwire.Community.Sanitize.{strip_prefix}
use woolwire.Hosting.Gguf.{
  Error, not_gguf, unsupported_version, too_many_entries, not_model, GgufReader, Read, take_bytes,
  u32, u64, str, gguf_string, skip_value, read_uint_value,
}
use mathlib.Core.List.{reverse}

abbrev pub max_key_values : ℕ
max_key_values = 2 ^ 16

pub record GgufMetadata : Type 0 where
  pub architecture : Bytes
  pub name : Bytes
  pub context_length : ℕ
  pub has_tokenizer : Bool
  pub supports_thinking : Bool

abbrev pub has_prefix : Bytes → Bytes → Bool
has_prefix p s = elim (strip_prefix p s) [ none ↦ false | some rest ↦ true ]

abbrev pub has_suffix : Bytes → Bytes → Bool
has_suffix p s = has_prefix (reverse p) (reverse s)

-- `strings.Contains`
unfoldable pub contains : Bytes → Bytes → Bool
contains p [] = has_prefix p []
contains p (c ∷ cs) = has_prefix p (c ∷ cs) || contains p cs

abbrev pub thinking_template_markers : List Bytes
thinking_template_markers =
    codes "enable_thinking"
    ∷ codes "reasoning_effort"
    ∷ codes "reasoning_content"
    ∷ codes "<think>"
    ∷ codes "<|thinking|>"
    ∷ []

unfoldable pub chat_template_supports_thinking : (Bytes → Bytes) → Bytes → Bool
unfolding contains
chat_template_supports_thinking to_lower tmpl =
    any (λ marker. contains marker (to_lower tmpl)) thinking_template_markers

module _ (to_lower : Bytes → Bytes) where
  -- A string value, or anything else, which is passed over.
  abbrev pub string_or_skip :
      ℕ → (Bytes → GgufMetadata) → GgufMetadata → GgufReader → Read GgufMetadata
  string_or_skip typ set md r =
      if not (typ == gguf_string)
      then (skip_value typ r >>= λ s. ok (md, s.1))
      else (str r >>= λ s. ok (set s.0, s.1))

  -- The `switch` on the key.
  unfoldable pub read_value : Bytes → ℕ → GgufMetadata → GgufReader → Read GgufMetadata
  unfolding str skip_value read_uint_value chat_template_supports_thinking
  read_value key typ md r =
      ite (bytes_dec key (codes "general.architecture"))
        (string_or_skip typ (λ s. record md { architecture = s }) md r)
        (ite (bytes_dec key (codes "general.name"))
          (string_or_skip typ (λ s. record md { name = s }) md r)
          (ite (bytes_dec key (codes "tokenizer.chat_template"))
            (string_or_skip typ
              (λ s. record md { supports_thinking = chat_template_supports_thinking to_lower s }) md
              r)
            (if has_suffix (codes ".context_length") key
              then (read_uint_value typ r >>= λ v. ok (
                if ltb 0 v.0 && leb v.0 (2 ^ 31) then record md { context_length = v.0 } else md,
                v.1,
              ))
              else (skip_value typ r >>= λ s. ok (
                if has_prefix (codes "tokenizer.ggml.") key
                    then record md { has_tokenizer = true }
                    else md,
                s.1,
              )))))

  unfoldable pub read_entries : ℕ → GgufMetadata → GgufReader → Read GgufMetadata
  unfolding str u32 read_value
  read_entries zero md r = ok (md, r)
  read_entries (suc n) md r =
      str r >>= λ k. u32 k.1 >>= λ t. read_value k.0 t.0 md t.1 >>= λ s. read_entries n s.0 s.1

  abbrev pub empty_metadata : GgufMetadata
  empty_metadata = record {
    architecture = [];
    name = [];
    context_length = 0;
    has_tokenizer = false;
    supports_thinking = false;
  }

  -- The header, with the reader behind it.
  unfoldable pub read_header : GgufReader → Read GgufMetadata
  unfolding take_bytes u32 u64 read_entries
  read_header r = take_bytes 4 r >>= λ magic.
      fail_if (ite (bytes_dec magic.0 (codes "GGUF")) false true) not_gguf >>= λ _.
      u32 magic.1 >>= λ version.
      fail_if (not (version.0 == 2) && not (version.0 == 3)) unsupported_version >>= λ _.
      u64 version.1 >>= λ tensors. u64 tensors.1 >>= λ kv_count.
      fail_if (ltb max_key_values kv_count.0) too_many_entries >>= λ _.
      read_entries kv_count.0 empty_metadata kv_count.1 >>= λ md.
      fail_if (not md.0.has_tokenizer) not_model >>= λ _. ok md

  unfoldable pub read_gguf_metadata : Bytes → Result Error GgufMetadata
  unfolding read_header
  read_gguf_metadata file = read_header (record { rest = file; read = 0 }) >>= λ s. ok s.0
