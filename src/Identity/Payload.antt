-- ===== src/Identity/Payload.antt =====
-- canonical.go, and the token helpers of identity.go.
use woolwire.Base.{
  Bool, Bytes, List, Option, Result, [], fail_if, false, length, ltb, not, ok, or_fail, true, ℕ, ℤ,
  ◌%◌, ◌&&◌, ◌++◌, ◌/◌, ◌==◌, ◌>>=◌, ◌>>◌, ◌^◌, ◌∷◌,
}
use woolwire.Identity.Decimal.{format_int}

-- Go's standard library: `ed25519.Sign` and `Verify`, `base64.RawURLEncoding`, `sha256.Sum256`,
-- `hex.EncodeToString`.
pub record Crypto : Type 0 where
  pub sign : Bytes → Bytes → Bytes
  pub verify : Bytes → Bytes → Bytes → Bool
  pub encode : Bytes → Bytes
  pub decode : Bytes → Option Bytes
  pub sha256 : Bytes → Bytes
  pub hex : Bytes → Bytes

abbrev pub public_key_size : ℕ
public_key_size = 32

abbrev pub private_key_size : ℕ
private_key_size = 64

abbrev pub signature_size : ℕ
signature_size = 64

abbrev pub sig_version_canonical : ℕ
sig_version_canonical = 1

-- The dynamic types that `fieldBytes` tells apart.
pub data Field : Type 0 where
  text : Bytes → Field
  raw : Bytes → Field
  int int64 : ℤ → Field
  flag : Bool → Field
  other : Field

unfoldable pub field_bytes : Field → Bytes
unfolding format_int
field_bytes (text s) = s
field_bytes (raw b) = b
field_bytes (int v) = format_int v
field_bytes (int64 v) = format_int v
field_bytes (flag true) = 1 ∷ []
field_bytes (flag false) = 0 ∷ []
field_bytes other = []

-- `binary.BigEndian.PutUint64`
unfoldable pub put_uint64 : ℕ → Bytes
put_uint64 v =
    (v / 2 ^ 56 % 256)
    ∷ (v / 2 ^ 48 % 256)
    ∷ (v / 2 ^ 40 % 256)
    ∷ (v / 2 ^ 32 % 256)
    ∷ (v / 2 ^ 24 % 256)
    ∷ (v / 2 ^ 16 % 256)
    ∷ (v / 2 ^ 8 % 256)
    ∷ (v % 256)
    ∷ []

unfoldable pub write_field : Bytes → Bytes
unfolding put_uint64
write_field b = put_uint64 (length b) ++ b

unfoldable pub write_fields : List Field → Bytes
unfolding write_field field_bytes
write_fields [] = []
write_fields (f ∷ fs) = write_field (field_bytes f) ++ write_fields fs

unfoldable pub signing_payload : ℕ → Bytes → List Field → Bytes
unfolding write_field write_fields
signing_payload version domain fields = version ∷ write_field domain ++ write_fields fields

pub data TokenError : Type 0 where
  bad_encoding bad_length : TokenError

unfoldable pub decode_token : Crypto → Bytes → ℕ → Result TokenError Bytes
decode_token c s expected_len = do
  b ← or_fail (c.decode s) bad_encoding
  fail_if (ltb 0 expected_len && not (length b == expected_len)) bad_length
  ok b
