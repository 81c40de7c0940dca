-- ===== src/Room/Membership/Signed.antt =====
-- What a membership signature covers, and that signing and verifying fit.
use woolwire.Base.{All, Bytes, arith, false, ok, true, ◌||◌, ◌≡◌, ◌≢◌}
use woolwire.Identity.{Crypto, sig_version_canonical, field_bytes}
use woolwire.Identity.Keys.{KeyPair, decode_token-encode}
use woolwire.Identity.Decimal.{format_int-injective}
use woolwire.Identity.Injective.{Fits, signing_payload-injective}
use woolwire.Room.Membership.{
  Membership, payload, membership_domain, signed_fields, sign, verify, is_empty, known_status,
  decode_signature,
}

-- Every signed field is shorter than the 64-bit length header can say.
abbrev pub IsSmall : Membership → Type 0
IsSmall m = All (λ f. Fits (field_bytes f)) (signed_fields m)

-- Two membership records with non-zero signature versions and fields that fit the length header
-- that have one signing payload agree in every field but the signature, so a signature cannot be
-- moved to another record.
pub payload-injective :
    (m n : Membership)
    → m.sig_version ≢ 0
    → n.sig_version ≢ 0
    → IsSmall m
    → IsSmall n
    → payload m ≡ payload n
    → record m { signature = n.signature } ≡ n
unfolding payload field_bytes
payload-injective m n hm hn sm sn e = ground (
  arith,
  signing_payload-injective m.sig_version n.sig_version membership_domain membership_domain
      (signed_fields m) (signed_fields n) (omega arith) (omega arith) sm sn (ground arith),
  format_int-injective m.roster_version n.roster_version,
)

-- What `Verify` asks of the fields.
abbrev pub IsComplete : Membership → Type 0
IsComplete m =
    ((is_empty m.member_id
        || is_empty m.room_id
        || is_empty m.device_public
        || is_empty m.display_name)
      ≡ false)
    × (known_status m.status ≡ true)

-- A record with all identifiers present and a known status that Sign has signed with one half of a
-- key pair verifies under the other half.
pub verify-sign :
    (c : Crypto) (private public : Bytes) (m : Membership) {n : Membership}
    → KeyPair c private public
    → IsComplete m
    → sign c m private ≡ ok n
    → verify c n public ≡ ok tt
unfolding sign verify decode_signature payload
verify-sign c private public m k h e = ground (
  arith,
  decode_token-encode c private public (payload (record m { sig_version = sig_version_canonical }))
      k,
  k.public_length,
  k.signs (payload (record m { sig_version = sig_version_canonical })),
)
