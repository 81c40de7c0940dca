-- ===== src/Room/Invitation.antt =====
-- invitation.go. JSON and DEFLATE are Go's standard library, taken as the parameter `Codec`.
pub mod RoundTrip
use woolwire.Base.{
  Bool, Bytes, Option, Result, [], bytes_dec, err, fail_if, false, if◌then◌else◌, ite, length, ltb,
  not, ok, or_fail, true, ℕ, ◌==◌, ◌>>=◌, ◌>>◌, ◌||◌, ◌∷◌,
}
use woolwire.Identity.{Crypto, decode_token, public_key_size}

abbrev pub invitation_version : ℕ
invitation_version = 1

abbrev pub invitation_max_size : ℕ
invitation_max_size = 4096

abbrev pub invitation_secret_size : ℕ
invitation_secret_size = 32

abbrev pub invitation_id_size : ℕ
invitation_id_size = 16

abbrev pub compressed_magic_byte : ℕ
compressed_magic_byte = 1

pub record Invitation : Type 0 where
  pub version : ℕ
  pub room_id : Bytes
  pub authority_public : Bytes
  pub bootstrap_addr : Bytes
  pub invitation_id : Bytes
  pub admission_secret : Bytes

-- `json.Marshal`, the strict `json.Decoder`, the writer and the reader of `compress/flate`.
pub record Codec : Type 0 where
  pub marshal : Invitation → Bytes
  pub unmarshal : Bytes → Option Invitation
  pub deflate : Bytes → Bytes
  pub inflate : Bytes → Option Bytes

pub data Error : Type 0 where
  missing_argument unsupported_version invalid_room_id invalid_authority invalid_bootstrap
        invalid_invitation_id invalid_secret too_large invalid_length not_base64 decompress_failed
        decode_failed :
      Error

check_token : Crypto → Bytes → ℕ → Error → Result Error (Unit {0})
check_token c s n e = elim (decode_token c s n) [ ok _ ↦ ok tt | err _ ↦ err e ]

unfoldable pub validate : Crypto → Invitation → Result Error (Unit {0})
unfolding check_token
validate c i = do
  fail_if (not (i.version == invitation_version)) unsupported_version
  fail_if (length i.room_id == 0 || ltb 128 (length i.room_id)) invalid_room_id
  check_token c i.authority_public public_key_size invalid_authority
  fail_if (length i.bootstrap_addr == 0 || ltb 8192 (length i.bootstrap_addr)) invalid_bootstrap
  check_token c i.invitation_id invitation_id_size invalid_invitation_id
  check_token c i.admission_secret invitation_secret_size invalid_secret

-- `id_bytes` and `secret_bytes` are what `rand.Read` returned.
unfoldable pub new_invitation :
    Crypto → Bytes → Bytes → Bytes → Bytes → Bytes → Result Error Invitation
new_invitation c room_id authority bootstrap_addr id_bytes secret_bytes = do
  fail_if
      (length room_id == 0
        || not (length authority == public_key_size)
        || length bootstrap_addr == 0)
      missing_argument
  ok (record {
    version = invitation_version;
    room_id = room_id;
    authority_public = c.encode authority;
    bootstrap_addr = bootstrap_addr;
    invitation_id = c.encode id_bytes;
    admission_secret = c.encode secret_bytes;
  })

unfoldable pub encode : Crypto → Codec → Invitation → Result Error Bytes
encode c j i = do
  validate c i
  let code = c.encode (compressed_magic_byte ∷ j.deflate (j.marshal i))
  fail_if (ltb invitation_max_size (length code)) too_large
  ok code

-- The magic byte tells a compressed payload from the older plain JSON.
unfoldable pub json_bytes : Codec → Bytes → Result Error Bytes
json_bytes j [] = ok []
json_bytes j (b ∷ rest) =
    if b == compressed_magic_byte then or_fail (j.inflate rest) decompress_failed else ok (b ∷ rest)

unfoldable pub parse_invitation : Crypto → Codec → Bytes → Result Error Invitation
parse_invitation c j code = do
  fail_if (length code == 0 || ltb invitation_max_size (length code)) invalid_length
  payload ← or_fail (c.decode code) not_base64
  text ← json_bytes j payload
  inv ← or_fail (j.unmarshal text) decode_failed
  validate c inv
  ok inv

-- `subtle.ConstantTimeCompare(a, b) == 1`
unfoldable pub verify_secret : Invitation → Bytes → Bool
verify_secret i secret = ite (bytes_dec i.admission_secret secret) true false
