-- ===== src/Hosting/Gguf/Tests.antt =====
-- A small GGUF file, read.
use woolwire.Base.{
  All, Bytes, List, [], arith, bytes_dec, codes, false, inr, length, ok, refl, true, ℕ_discrete,
  ◌++◌, ◌+◌, ◌∷◌, ◌≡◌, ◌≤◌,
}
use woolwire.Community.Sanitize.{strip_prefix}
use woolwire.Hosting.Gguf.{
  GgufReader, max_header_scan, max_string_len, take_bytes, u32, u64, str, skip, skip_string,
  skip_strings, skip_elements, skip_array, skip_value, read_uint_value, scalar_size,
}
use woolwire.Hosting.Gguf.Metadata.{
  GgufMetadata, empty_metadata, contains, chat_template_supports_thinking, read_value, read_entries,
  read_header, read_gguf_metadata,
}
use woolwire.Hosting.Gguf.Budget.{read_header_budget}
use woolwire.Hosting.Gguf.RoundTrip.{
  Value, text, uint32, vocabulary, write_header, describe_all, outcome, Fits,
  read_gguf_metadata-write,
}

abbrev entries : List (Bytes × Value)
entries =
    (codes "general.name", text (codes "owl"))
    ∷ (codes "owl.context_length", uint32 4096)
    ∷ (codes "tokenizer.ggml.tokens", vocabulary (codes "a" ∷ codes "b" ∷ []))
    ∷ []

abbrev file : Bytes
file = write_header (λ b. b) 3 1 entries

abbrev owl : GgufMetadata
owl = record {
  architecture = [];
  name = codes "owl";
  context_length = 4096;
  has_tokenizer = true;
  supports_thinking = false;
}

program : Unit {0}
unfolding take_bytes u32 u64 str skip skip_string skip_strings skip_elements skip_array skip_value
    read_uint_value scalar_size contains chat_template_supports_thinking read_value read_entries
    read_header read_gguf_metadata strip_prefix bytes_dec ℕ_discrete
program = tt

reads_owl : read_gguf_metadata (λ b. b) file ≡ ok owl
unfolding program
reads_owl = refl

fits : All (λ e. (length e.0 ≤ max_string_len) × Fits e.1) entries
fits = omega arith

read_gguf_metadata-write_example :
    read_gguf_metadata (λ b. b) (file ++ 7 ∷ [])
    ≡ outcome (λ b. b) (describe_all (λ b. b) (empty_metadata (λ b. b)) entries)
read_gguf_metadata-write_example =
    read_gguf_metadata-write (λ b. b) 3 1 entries (7 ∷ []) (inr refl) (omega arith) (omega arith)
      fits (omega arith)

abbrev behind : GgufReader
behind = record { rest = []; read = length file }

reads_header : read_header (λ b. b) (record { rest = file; read = 0 }) ≡ ok (owl, behind)
unfolding program
reads_header = refl

read_header_budget_example :
    (behind.read + length behind.rest ≡ length file) × (behind.read ≤ max_header_scan)
read_header_budget_example = read_header_budget (λ b. b) file owl behind reads_header
