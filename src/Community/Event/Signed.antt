-- ===== src/Community/Event/Signed.antt =====
-- event.go: what an event's signature covers, and that signing and verifying fit.
use woolwire.Base.{All, Bytes, arith, false, leb_ℤ, length, ok, pos, ℤ, ◌>>=◌, ◌≡◌, ◌≢◌}
use woolwire.Identity.{Crypto, private_key_size, field_bytes}
use woolwire.Identity.Decimal.{format_int-injective}
use woolwire.Identity.Injective.{Fits, signing_payload-injective}
use woolwire.Identity.Keys.{KeyPair, decode_token-encode}
use woolwire.Community.Event.{
  Event, payload, event_domain, signed_fields, sign, stamp, verify, event_id, decode_signature,
}

-- Every signed field is shorter than the 64-bit length header can say.
abbrev pub IsSmall : Event → Type 0
IsSmall e = All (λ f. Fits (field_bytes f)) (signed_fields e)

-- Two events with non-zero signature versions and fields that fit the length header that have one
-- signing payload agree in every field but the identifier, the signature and the local replication
-- status.
pub event_payload-injective :
    (e f : Event)
    → e.sig_version ≢ 0
    → f.sig_version ≢ 0
    → IsSmall e
    → IsSmall f
    → payload e ≡ payload f
    → record e { id = f.id; signature = f.signature; replicated_status = f.replicated_status } ≡ f
unfolding payload field_bytes
event_payload-injective e f he hf se sf q = ground (
  arith,
  signing_payload-injective e.sig_version f.sig_version event_domain event_domain (signed_fields e)
      (signed_fields f) (omega arith) (omega arith) se sf (ground arith),
  format_int-injective e.author_seq f.author_seq,
  format_int-injective e.timestamp f.timestamp,
)

-- What `Verify` asks of the fields.
abbrev pub IsComplete : Event → Type 0
IsComplete e =
    (length e.room_id ≢ 0)
    × (length e.channel_id ≢ 0)
    × (length e.author_member_id ≢ 0)
    × (leb_ℤ e.author_seq (pos 0) ≡ false)

-- Signing an event that has its room, its channel, its author and a positive sequence number with
-- one half of a key pair succeeds, and the result verifies under the other half, its identifier
-- included.
pub verify-sign_event :
    (c : Crypto) (private public : Bytes) (now : ℤ) (e : Event)
    → KeyPair c private public
    → length private ≡ private_key_size
    → IsComplete e
    → (sign c now e private >>= (λ f. verify c f public)) ≡ ok tt
unfolding sign verify decode_signature payload event_id
verify-sign_event c private public now e k size h = ground (
  arith,
  decode_token-encode c private public (payload (stamp c now e)) k,
  k.public_length,
  k.signs (payload (stamp c now e)),
)
