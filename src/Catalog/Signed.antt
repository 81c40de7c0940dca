-- ===== src/Catalog/Signed.antt =====
-- ad.go: what an advertisement's signature covers, and that signing and verifying fit.
use woolwire.Base.{All, Bytes, arith, length, ok, ℤ, ◌>>=◌, ◌≡◌, ◌≢◌}
use woolwire.Identity.{Crypto, private_key_size, field_bytes}
use woolwire.Identity.Keys.{KeyPair, decode_token-encode}
use woolwire.Identity.Decimal.{format_int-injective}
use woolwire.Identity.Injective.{Fits, signing_payload-injective}
use woolwire.Catalog.Ad.{
  ModelAd, payload, ad_domain, signed_fields, stamp, sign, decode_signature, verify,
}

-- Every signed field is shorter than the 64-bit length header can say.
abbrev pub IsSmall : ModelAd → Type 0
IsSmall m = All (λ f. Fits (field_bytes f)) (signed_fields m)

-- Two advertisements with non-zero signature versions and fields that fit the length header that
-- have one signing payload agree in every field but the signature and the unsigned thinking flag.
pub ad_payload-injective :
    (m n : ModelAd)
    → m.sig_version ≢ 0
    → n.sig_version ≢ 0
    → IsSmall m
    → IsSmall n
    → payload m ≡ payload n
    → record m { signature = n.signature; supports_thinking = n.supports_thinking } ≡ n
unfolding payload field_bytes
ad_payload-injective m n hm hn sm sn q = ground (
  arith,
  signing_payload-injective m.sig_version n.sig_version ad_domain ad_domain (signed_fields m)
      (signed_fields n) (omega arith) (omega arith) sm sn (ground arith),
  format_int-injective m.revision n.revision,
  format_int-injective m.context_limit n.context_limit,
  format_int-injective m.queue_estimate n.queue_estimate,
  format_int-injective m.timestamp n.timestamp,
)

abbrev pub IsComplete : ModelAd → Type 0
IsComplete m =
    (length m.room_id ≢ 0)
    × (length m.host_member_id ≢ 0)
    × (length m.model_id ≢ 0)
    × (length m.name ≢ 0)

-- Signing an advertisement that has its room, host, model and name with one half of a key pair of
-- the right length succeeds, and the result verifies under the other half.
pub verify-sign_ad :
    (c : Crypto) (private public : Bytes) (now : ℤ) (m : ModelAd)
    → KeyPair c private public
    → length private ≡ private_key_size
    → IsComplete m
    → (sign c now m private >>= λ n. verify c n public) ≡ ok tt
unfolding sign verify decode_signature payload
verify-sign_ad c private public now m k size h = ground (
  arith,
  decode_token-encode c private public (payload (stamp c now m)) k,
  k.public_length,
  k.signs (payload (stamp c now m)),
)
