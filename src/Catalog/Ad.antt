-- ===== src/Catalog/Ad.antt =====
-- ad.go: what a host says of one of its models, signed.
use woolwire.Base.{
  Bool, Bytes, List, Result, [], codes, err, fail_if, if◌then◌else◌, length, not, ok, ℕ, ℤ, ◌++◌,
  ◌==◌, ◌>>=◌, ◌>>◌, ◌||◌, ◌∷◌,
}
use woolwire.Identity.{
  Crypto, Field, text, int, int64, flag, format_int, signing_payload, decode_token, public_key_size,
  private_key_size, signature_size, sig_version_canonical,
}

pub record ModelAd : Type 0 where
  pub room_id : Bytes
  pub host_member_id : Bytes
  pub model_id : Bytes
  pub revision : ℤ
  pub name : Bytes
  pub quantization : Bytes
  pub context_limit : ℤ
  pub availability : Bytes
  pub queue_estimate : ℤ
  pub is_managed : Bool
  pub supports_thinking : Bool
  pub timestamp : ℤ
  pub signature : Bytes
  pub sig_version : ℕ

abbrev pub ad_domain : Bytes
ad_domain = codes "woolwire/model-ad"

abbrev pub signed_fields : ModelAd → List Field
signed_fields m =
    text m.room_id
    ∷ text m.host_member_id
    ∷ text m.model_id
    ∷ int m.revision
    ∷ text m.name
    ∷ text m.quantization
    ∷ int m.context_limit
    ∷ text m.availability
    ∷ int m.queue_estimate
    ∷ flag m.is_managed
    ∷ int64 m.timestamp
    ∷ []

unfoldable pub legacy_payload : ModelAd → Bytes
legacy_payload m =
    m.room_id
    ++ b':'
      ∷ (m.host_member_id
          ++ b':'
            ∷ (m.model_id
                ++ b':'
                  ∷ (format_int m.revision
                      ++ b':'
                        ∷ (m.name
                            ++ b':'
                              ∷ (m.quantization
                                  ++ b':'
                                    ∷ (format_int m.context_limit
                                        ++ b':'
                                          ∷ (m.availability
                                              ++ b':'
                                                ∷ (format_int m.queue_estimate
                                                    ++ b':'
                                                      ∷ ((if m.is_managed
                                                            then codes "true"
                                                            else codes "false")
                                                          ++ b':' ∷ format_int m.timestamp)))))))))

unfoldable pub payload : ModelAd → Bytes
unfolding legacy_payload
payload m =
    if m.sig_version == 0
    then legacy_payload m
    else signing_payload m.sig_version ad_domain (signed_fields m)

pub data Error : Type 0 where
  invalid_private_key incomplete invalid_public_key bad_signature_encoding verification_failed
        older_revision :
      Error

module _ (c : Crypto) where
  -- The record that is signed, at the clock's seconds.
  abbrev pub stamp : ℤ → ModelAd → ModelAd
  stamp now m = record m { timestamp = now; sig_version = sig_version_canonical }

  unfoldable pub sign : ℤ → ModelAd → Bytes → Result Error ModelAd
  sign now m private =
      if length private == private_key_size
      then ok
          (record (stamp now m) { signature = c.encode (c.sign private (payload (stamp now m))) })
      else err invalid_private_key

  unfoldable pub decode_signature : Bytes → Result Error Bytes
  decode_signature s = elim (decode_token c s signature_size) [
    | ok sig ↦ ok sig
    | err e ↦ err bad_signature_encoding
  ]

  unfoldable pub verify : ModelAd → Bytes → Result Error (Unit {0})
  unfolding decode_signature
  verify m public = do
    fail_if
        (length m.room_id == 0
          || length m.host_member_id == 0
          || length m.model_id == 0
          || length m.name == 0)
        incomplete
    fail_if (not (length public == public_key_size)) invalid_public_key
    sig ← decode_signature m.signature
    fail_if (not (c.verify public (payload m) sig)) verification_failed
    ok tt
