-- ===== src/Room/Membership.antt =====
-- membership.go. `member_status` is a Go string type, so a record may hold any string there until
-- `verify` has looked at it.
pub mod Signed
use woolwire.Base.{
  Bool, Bytes, List, Result, [], bytes_dec, codes, err, fail_if, false, if◌then◌else◌, ite, length,
  not, ok, true, ℕ, ℤ, ◌++◌, ◌==◌, ◌>>=◌, ◌>>◌, ◌||◌, ◌∷◌,
}
use woolwire.Identity.{
  Crypto, Field, text, int64, format_int, signing_payload, decode_token, public_key_size,
  private_key_size, signature_size, sig_version_canonical,
}

abbrev pub status_admitted : Bytes
status_admitted = codes "admitted"

abbrev pub status_pending : Bytes
status_pending = codes "pending"

abbrev pub status_removed : Bytes
status_removed = codes "removed"

pub record Membership : Type 0 where
  pub member_id : Bytes
  pub room_id : Bytes
  pub device_public : Bytes
  pub display_name : Bytes
  pub status : Bytes
  pub roster_version : ℤ
  pub signature : Bytes
  pub sig_version : ℕ

abbrev pub membership_domain : Bytes
membership_domain = codes "woolwire/membership"

abbrev pub signed_fields : Membership → List Field
signed_fields m =
    text m.room_id
    ∷ text m.member_id
    ∷ text m.device_public
    ∷ text m.display_name
    ∷ text m.status
    ∷ int64 m.roster_version
    ∷ []

-- The fields joined by colons, as `fmt.Sprintf` writes them.
unfoldable pub legacy_payload : Membership → Bytes
legacy_payload m =
    m.room_id
    ++ b':'
      ∷ (m.member_id
          ++ b':'
            ∷ (m.device_public
                ++ b':'
                  ∷ (m.display_name ++ b':' ∷ (m.status ++ b':' ∷ format_int m.roster_version))))

unfoldable pub payload : Membership → Bytes
unfolding legacy_payload
payload m =
    if m.sig_version == 0
    then legacy_payload m
    else signing_payload m.sig_version membership_domain (signed_fields m)

pub data Error : Type 0 where
  invalid_private_key incomplete invalid_status invalid_public_key bad_signature_encoding
        verification_failed :
      Error

unfoldable pub is_empty : Bytes → Bool
is_empty [] = true
is_empty (x ∷ xs) = false

unfoldable pub known_status : Bytes → Bool
known_status s =
    ite (bytes_dec s status_admitted) true
      (ite (bytes_dec s status_pending) true (ite (bytes_dec s status_removed) true false))

module _ (c : Crypto) where
  -- `Sign` writes the version and the signature into the record.
  unfoldable pub sign : Membership → Bytes → Result Error Membership
  sign m private =
      if length private == private_key_size
      then ok (signed (record m { sig_version = sig_version_canonical }))
      else err invalid_private_key
    where
      signed : Membership → Membership
      signed n = record n { signature = c.encode (c.sign private (payload n)) }

  unfoldable pub decode_signature : Bytes → Result Error Bytes
  decode_signature s = elim (decode_token c s signature_size) [
    | ok sig ↦ ok sig
    | err e ↦ err bad_signature_encoding
  ]

  unfoldable pub verify : Membership → Bytes → Result Error (Unit {0})
  unfolding is_empty known_status decode_signature
  verify m authority = do
    fail_if
        (is_empty m.member_id
          || is_empty m.room_id
          || is_empty m.device_public
          || is_empty m.display_name)
        incomplete
    fail_if (not (known_status m.status)) invalid_status
    fail_if (not (length authority == public_key_size)) invalid_public_key
    sig ← decode_signature m.signature
    fail_if (not (c.verify authority (payload m) sig)) verification_failed
    ok tt
