-- ===== src/Identity/Toy.antt =====
-- A small stand-in for the signature scheme, at which the tests run the code.
use woolwire.Base.{
  Bytes, bytes_dec, false, if_pos, ite, length, refl, replicate, some, true, ◌∷◌, ◌≡◌,
}
use woolwire.Identity.Payload.{Crypto}
use woolwire.Identity.Keys.{KeyPair}

-- A signature is the length of the payload and padding.
abbrev pub toy_sign : Bytes → Bytes
toy_sign p = length p ∷ replicate 63 0

abbrev pub toy : Crypto
toy = record {
  sign = λ private p. toy_sign p;
  verify = λ public p s. ite (bytes_dec s (toy_sign p)) true false;
  encode = λ b. b;
  decode = λ b. some b;
  sha256 = λ b. b;
  hex = λ b. b;
}

abbrev pub authority : Bytes
authority = replicate 32 9

abbrev pub private_key : Bytes
private_key = replicate 64 5

toy_verify : (p : Bytes) → toy.verify authority p (toy.sign private_key p) ≡ true
toy_verify p = if_pos (bytes_dec (toy_sign p) (toy_sign p)) refl true false

pub toy-KeyPair : KeyPair toy private_key authority
toy-KeyPair = record {
  signs = toy_verify;
  signature_length = λ p. refl;
  decodes = λ b. refl;
  public_length = refl;
}
