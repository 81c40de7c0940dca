-- ===== src/Contributions/Receipt.antt =====
-- receipt.go: the record of one served request and its two signatures.
pub mod Signed
use woolwire.Base.{
  Bool, Bytes, List, Result, [], codes, err, fail_if, false, if◌then◌else◌, ite, length, not, ok,
  pos, true, ℕ, ℤ, ℤ_discrete, ◌++◌, ◌==◌, ◌>>=◌, ◌>>◌, ◌∷◌,
}
use woolwire.Identity.{
  Crypto, Field, text, int64, flag, format_int, signing_payload, decode_token, public_key_size,
  private_key_size, signature_size, sig_version_canonical,
}

pub record Receipt : Type 0 where
  pub request_id : Bytes
  pub room_id : Bytes
  pub host_member_id : Bytes
  pub requester_member_id : Bytes
  pub timestamp : ℤ
  pub completed : Bool
  pub host_signature : Bytes
  pub requester_signature : Bytes
  pub replicated_status : Bytes
  pub sig_version : ℕ

abbrev pub receipt_domain : Bytes
receipt_domain = codes "woolwire/contribution-receipt"

abbrev pub signed_fields : Receipt → List Field
signed_fields r =
    text r.room_id
    ∷ text r.request_id
    ∷ text r.host_member_id
    ∷ text r.requester_member_id
    ∷ int64 r.timestamp
    ∷ flag r.completed
    ∷ []

-- `%t`
abbrev pub format_bool : Bool → Bytes
format_bool b = if b then codes "true" else codes "false"

unfoldable pub legacy_payload : Receipt → Bytes
legacy_payload r =
    r.room_id
    ++ b':'
      ∷ (r.request_id
          ++ b':'
            ∷ (r.host_member_id
                ++ b':'
                  ∷ (r.requester_member_id
                      ++ b':' ∷ (format_int r.timestamp ++ b':' ∷ format_bool r.completed))))

unfoldable pub payload : Receipt → Bytes
unfolding legacy_payload
payload r =
    if r.sig_version == 0
    then legacy_payload r
    else signing_payload r.sig_version receipt_domain (signed_fields r)

pub data Error : Type 0 where
  invalid_host_private_key invalid_requester_private_key invalid_host_public_key
        bad_host_signature_encoding host_verification_failed invalid_requester_public_key
        bad_requester_signature_encoding requester_verification_failed :
      Error

module _ (c : Crypto) where
  -- The record that the host signs: the clock's seconds where it has no time yet.
  unfoldable pub stamp : ℤ → Receipt → Receipt
  stamp now r = record r {
    timestamp = ite (ℤ_discrete r.timestamp (pos 0)) now r.timestamp;
    sig_version = sig_version_canonical;
  }

  unfoldable pub sign_host : ℤ → Receipt → Bytes → Result Error Receipt
  unfolding stamp
  sign_host now r private =
      if length private == private_key_size
      then ok (record (stamp now r) {
        host_signature = c.encode (c.sign private (payload (stamp now r)));
      })
      else err invalid_host_private_key

  unfoldable pub sign_requester : Receipt → Bytes → Result Error Receipt
  sign_requester r private =
      if length private == private_key_size
      then ok (record r { requester_signature = c.encode (c.sign private (payload r)) })
      else err invalid_requester_private_key

  unfoldable pub decode_or : Error → Bytes → Result Error Bytes
  decode_or e s = elim (decode_token c s signature_size) [ ok sig ↦ ok sig | err _ ↦ err e ]

  unfoldable pub verify_host : Receipt → Bytes → Result Error (Unit {0})
  unfolding decode_or
  verify_host r public = do
    fail_if (not (length public == public_key_size)) invalid_host_public_key
    sig ← decode_or bad_host_signature_encoding r.host_signature
    fail_if (not (c.verify public (payload r) sig)) host_verification_failed
    ok tt

  unfoldable pub verify_requester : Receipt → Bytes → Result Error (Unit {0})
  unfolding decode_or
  verify_requester r public = do
    fail_if (not (length public == public_key_size)) invalid_requester_public_key
    sig ← decode_or bad_requester_signature_encoding r.requester_signature
    fail_if (not (c.verify public (payload r) sig)) requester_verification_failed
    ok tt

  unfoldable pub verify_both : Receipt → Bytes → Bytes → Result Error (Unit {0})
  unfolding verify_host verify_requester
  verify_both r host_public requester_public = do
    verify_host r host_public
    verify_requester r requester_public
