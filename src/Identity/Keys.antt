-- ===== src/Identity/Keys.antt =====
-- The two halves of a device's key, as the signatures use them.
use woolwire.Base.{Bytes, arith, length, ok, some, true, ◌≡◌}
use woolwire.Identity.Payload.{Crypto, decode_token, signature_size, public_key_size}

-- What the key pair and the encoding promise.
pub record KeyPair (c : Crypto) (private public : Bytes) : Type 0 where
  pub signs : (p : Bytes) → c.verify public p (c.sign private p) ≡ true
  pub signature_length : (p : Bytes) → length (c.sign private p) ≡ signature_size
  pub decodes : (b : Bytes) → c.decode (c.encode b) ≡ some b
  pub public_length : length public ≡ public_key_size

pub decode_token-encode :
    (c : Crypto) (private public p : Bytes)
    → KeyPair c private public
    → decode_token c (c.encode (c.sign private p)) signature_size ≡ ok (c.sign private p)
unfolding decode_token
decode_token-encode c private public p k =
    rw (k.decodes (c.sign private p)) (ground (arith, k.signature_length p))
