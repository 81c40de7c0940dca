-- ===== src/Contributions/Receipt/Signed.antt =====
-- receipt.go: the two signatures cover the record and fit their verification.
use woolwire.Base.{All, Bytes, arith, length, ok, ℤ, ◌>>=◌, ◌≡◌, ◌≢◌}
use woolwire.Identity.{Crypto, private_key_size, field_bytes}
use woolwire.Identity.Keys.{KeyPair, decode_token-encode}
use woolwire.Identity.Decimal.{format_int-injective}
use woolwire.Identity.Injective.{Fits, signing_payload-injective}
use woolwire.Contributions.Receipt.{
  Receipt, payload, receipt_domain, signed_fields, stamp, sign_host, sign_requester, decode_or,
  verify_host, verify_requester, verify_both,
}

-- Every signed field is shorter than the 64-bit length header can say.
abbrev pub IsSmall : Receipt → Type 0
IsSmall r = All (λ f. Fits (field_bytes f)) (signed_fields r)

-- Two receipts with non-zero signature versions and fields that fit the length header that have
-- one signing payload agree in every field but the two signatures and the local replication
-- status.
pub receipt_payload-injective :
    (r s : Receipt)
    → r.sig_version ≢ 0
    → s.sig_version ≢ 0
    → IsSmall r
    → IsSmall s
    → payload r ≡ payload s
    → record r {
      host_signature = s.host_signature;
      requester_signature = s.requester_signature;
      replicated_status = s.replicated_status;
    }
      ≡ s
unfolding payload field_bytes
receipt_payload-injective r s hr hs sr ss q = ground (
  arith,
  signing_payload-injective r.sig_version s.sig_version receipt_domain receipt_domain
      (signed_fields r) (signed_fields s) (omega arith) (omega arith) sr ss (ground arith),
  format_int-injective r.timestamp s.timestamp,
)

-- A receipt that the host and then the requester have signed, each with one half of a key pair of
-- the right length, verifies under the other two halves.
pub verify_both-sign :
    (c : Crypto) (host_private host_public requester_private requester_public : Bytes) (now : ℤ)
    (r : Receipt)
    → KeyPair c host_private host_public
    → KeyPair c requester_private requester_public
    → length host_private ≡ private_key_size
    → length requester_private ≡ private_key_size
    → (sign_host c now r host_private >>= λ s.
        sign_requester c s requester_private >>= λ t. verify_both c t host_public requester_public)
      ≡ ok tt
unfolding sign_host sign_requester verify_both verify_host verify_requester decode_or payload
verify_both-sign c hp hq rp rq now r h k sh sr = ground (
  arith,
  decode_token-encode c hp hq (payload (stamp c now r)) h,
  decode_token-encode c rp rq (payload (stamp c now r)) k,
  h.public_length,
  k.public_length,
  h.signs (payload (stamp c now r)),
  k.signs (payload (stamp c now r)),
)
