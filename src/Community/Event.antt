-- ===== src/Community/Event.antt =====
-- event.go: the signed events, their identifiers and their verification.
pub mod Signed
use woolwire.Base.{
  Bytes, List, Result, [], bytes_dec, codes, err, fail_if, false, if◌then◌else◌, ite, leb_ℤ, length,
  not, ok, pos, take, true, ℕ, ℤ, ℤ_discrete, ◌++◌, ◌==◌, ◌>>=◌, ◌>>◌, ◌||◌, ◌∷◌,
}
use woolwire.Identity.{
  Crypto, Field, text, int64, format_int, signing_payload, decode_token, public_key_size,
  private_key_size, signature_size, sig_version_canonical,
}

abbrev pub event_message : Bytes
event_message = codes "message"

abbrev pub event_edit : Bytes
event_edit = codes "edit"

abbrev pub event_delete : Bytes
event_delete = codes "delete"

abbrev pub event_tombstone : Bytes
event_tombstone = codes "tombstone"

abbrev pub event_channel : Bytes
event_channel = codes "channel"

abbrev pub event_channel_delete : Bytes
event_channel_delete = codes "channel_delete"

pub record Event : Type 0 where
  pub id : Bytes
  pub room_id : Bytes
  pub channel_id : Bytes
  pub author_member_id : Bytes
  pub author_seq : ℤ
  pub event_type : Bytes
  pub target_event_id : Bytes
  pub content : Bytes
  pub timestamp : ℤ
  pub signature : Bytes
  pub replicated_status : Bytes
  pub sig_version : ℕ

abbrev pub event_domain : Bytes
event_domain = codes "woolwire/community-event"

abbrev pub signed_fields : Event → List Field
signed_fields e =
    text e.room_id
    ∷ text e.channel_id
    ∷ text e.author_member_id
    ∷ int64 e.author_seq
    ∷ text e.event_type
    ∷ text e.target_event_id
    ∷ text e.content
    ∷ int64 e.timestamp
    ∷ []

unfoldable pub legacy_payload : Event → Bytes
legacy_payload e =
    e.room_id
    ++ b':'
      ∷ (e.channel_id
          ++ b':'
            ∷ (e.author_member_id
                ++ b':'
                  ∷ (format_int e.author_seq
                      ++ b':'
                        ∷ (e.event_type
                            ++ b':'
                              ∷ (e.target_event_id
                                  ++ b':' ∷ (e.content ++ b':' ∷ format_int e.timestamp))))))

unfoldable pub payload : Event → Bytes
unfolding legacy_payload
payload e =
    if e.sig_version == 0
    then legacy_payload e
    else signing_payload e.sig_version event_domain (signed_fields e)

pub data Error : Type 0 where
  invalid_private_key incomplete invalid_public_key bad_signature_encoding verification_failed
        id_mismatch :
      Error

module _ (c : Crypto) where
  -- "evt-" and the first 24 hex digits of the hash of payload and signature
  unfoldable pub event_id : Bytes → Bytes → Bytes
  event_id p sig = codes "evt-" ++ take 24 (c.hex (c.sha256 (p ++ sig)))

  -- The record to be signed: the clock's seconds where it has no time yet.
  unfoldable pub stamp : ℤ → Event → Event
  stamp now e = record e {
    timestamp = ite (ℤ_discrete e.timestamp (pos 0)) now e.timestamp;
    sig_version = sig_version_canonical;
  }

  unfoldable pub sign : ℤ → Event → Bytes → Result Error Event
  unfolding event_id stamp
  sign now e private =
      if length private == private_key_size
      then ok (record (stamp now e) {
        signature = c.encode (c.sign private (payload (stamp now e)));
        id = event_id (payload (stamp now e)) (c.sign private (payload (stamp now e)));
      })
      else err invalid_private_key

  unfoldable pub decode_signature : Bytes → Result Error Bytes
  decode_signature s = elim (decode_token c s signature_size) [
    | ok sig ↦ ok sig
    | err e ↦ err bad_signature_encoding
  ]

  unfoldable pub verify : Event → Bytes → Result Error (Unit {0})
  unfolding event_id decode_signature
  verify e public = do
    fail_if
        (length e.id == 0
          || length e.room_id == 0
          || length e.channel_id == 0
          || length e.author_member_id == 0
          || leb_ℤ e.author_seq (pos 0))
        incomplete
    fail_if (not (length public == public_key_size)) invalid_public_key
    sig ← decode_signature e.signature
    fail_if (not (c.verify public (payload e) sig)) verification_failed
    fail_if (ite (bytes_dec e.id (event_id (payload e) sig)) false true) id_mismatch
    ok tt
