-- ===== src/Room/Invitation/RoundTrip.antt =====
-- An invitation that encodes is read back, in the compressed form and in the older plain one.
use woolwire.Base.{Bytes, arith, length, ok, some, ℕ, ◌<◌, ◌>>◌, ◌∷◌, ◌≡◌, ◌≤◌}
use woolwire.Identity.{Crypto, decode_token}
use woolwire.Room.Invitation.{
  Invitation, Codec, invitation_max_size, compressed_magic_byte, validate, check_token, encode,
  json_bytes, parse_invitation, new_invitation, invitation_id_size, invitation_secret_size,
}

-- What base64, JSON and DEFLATE promise, JSON for the invitation at hand.
pub record IsCodec (c : Crypto) (j : Codec) (i : Invitation) : Type 0 where
  pub decodes : (b : Bytes) → c.decode (c.encode b) ≡ some b
  pub encode_length : (x : ℕ) (b : Bytes) → 0 < length (c.encode (x ∷ b))
  pub unmarshals : j.unmarshal (j.marshal i) ≡ some i
  pub inflates : (b : Bytes) → j.inflate (j.deflate b) ≡ some b

-- An invitation that Encode turns into a code is what ParseInvitation reads from the code, if
-- base64, JSON and DEFLATE read back what they wrote and base64 writes something for a byte.
pub parse_invitation-encode :
    (c : Crypto) (j : Codec) (i : Invitation) (code : Bytes)
    → IsCodec c j i
    → encode c j i ≡ ok code
    → parse_invitation c j code ≡ ok i
unfolding encode parse_invitation json_bytes
parse_invitation-encode c j i code k e =
    let body = j.deflate (j.marshal i) in
    ground (
      arith,
      k.decodes (compressed_magic_byte ∷ body),
      k.encode_length compressed_magic_byte body,
      k.inflates (j.marshal i),
      k.unmarshals,
    )

-- A code in the older form, plain JSON in base64 within the size limit, is read by ParseInvitation
-- as the invitation that was written, if that is valid, and fails with the validation's error if
-- not.
pub parse_invitation_legacy :
    (c : Crypto) (j : Codec) (i : Invitation) (rest : Bytes)
    → IsCodec c j i
    → j.marshal i ≡ b'{' ∷ rest
    → length (c.encode (j.marshal i)) ≤ invitation_max_size
    → parse_invitation c j (c.encode (j.marshal i)) ≡ (validate c i >> ok i)
unfolding parse_invitation json_bytes
parse_invitation_legacy c j i rest k m h =
    ground (arith, k.decodes (j.marshal i), k.encode_length b'{' rest, k.unmarshals)

-- What `ParseInvitation` returns is valid, whatever the code was.
pub parse_invitation-valid :
    (c : Crypto) (j : Codec) (code : Bytes) (i : Invitation)
    → parse_invitation c j code ≡ ok i
    → validate c i ≡ ok tt
unfolding parse_invitation
parse_invitation-valid c j code i e = ground arith

-- What NewInvitation returns passes Validate, if base64 reads back what it wrote, the random bytes
-- have the lengths asked for and the room id and the address are within their bounds.
pub validate-new_invitation :
    (c : Crypto) (room_id authority addr id_bytes secret_bytes : Bytes) {i : Invitation}
    → ((b : Bytes) → c.decode (c.encode b) ≡ some b)
    → length id_bytes ≡ invitation_id_size
    → length secret_bytes ≡ invitation_secret_size
    → length room_id ≤ 128
    → length addr ≤ 8192
    → new_invitation c room_id authority addr id_bytes secret_bytes ≡ ok i
    → validate c i ≡ ok tt
unfolding validate new_invitation check_token decode_token
validate-new_invitation c room_id authority addr id_bytes secret_bytes d h k l m e =
    ground (arith, d authority, d id_bytes, d secret_bytes)
