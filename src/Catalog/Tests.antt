-- ===== src/Catalog/Tests.antt =====
-- The catalog at concrete inputs.
use mathlib.Core.List.Perm
use woolwire.Base.{
  All, Bytes, [], arith, bytes_dec, codes, false, ite, leb_ℤ, ok, pos, refl, some, true, ℕ_discrete,
  ◌>>=◌, ◌∷◌, ◌≡◌,
}
use woolwire.Base.Maps.{lookup, put}
use woolwire.Identity.{signing_payload, write_field, field_bytes, format_int, decode_token}
use woolwire.Identity.Toy.{toy, toy_sign, authority, private_key, toy-KeyPair}
use woolwire.Catalog.Ad.{ModelAd, payload, sign, verify, decode_signature}
use woolwire.Catalog.Signed.{ad_payload-injective, verify-sign_ad}
use woolwire.Catalog.Store.{
  Catalog, new_catalog, ad_key, is_older, upsert, as_seen, list_available, get,
}
use woolwire.Catalog.Laws.{
  IsKeyed, IsShown, upsert_monotone, get-upsert, upsert-IsKeyed, list_available-get,
}

abbrev draft : ModelAd
draft = record {
  room_id = codes "den";
  host_member_id = codes "ann";
  model_id = codes "llama3:latest";
  revision = pos 4;
  name = codes "llama3";
  quantization = codes "Q4";
  context_limit = pos 8192;
  availability = codes "ready";
  queue_estimate = pos 0;
  is_managed = true;
  supports_thinking = false;
  timestamp = pos 100;
  signature = [];
  sig_version = 1;
}

abbrev signed : ModelAd → ModelAd
signed m = record m { signature = toy_sign (payload m) }

abbrev ad : ModelAd
ad = signed draft

abbrev newer : ModelAd
newer = signed (record draft { revision = pos 5 })

abbrev key : Bytes
key = codes "ann/llama3:latest"

program : Unit {0}
unfolding sign verify payload signing_payload write_field field_bytes format_int decode_token
    decode_signature lookup put bytes_dec ℕ_discrete is_older upsert get list_available ad_key
program = tt

abbrev one_ad : Catalog
one_ad = (ad_key ad.host_member_id ad.model_id, ad) ∷ []

abbrev one_newer : Catalog
one_newer = (ad_key ad.host_member_id ad.model_id, newer) ∷ []

one_ad_upserted : upsert toy new_catalog ad authority ≡ ok one_ad
unfolding program
one_ad_upserted = refl

newer_upserted : upsert toy one_ad newer authority ≡ ok one_newer
unfolding program
newer_upserted = refl

verify-sign_ad_run : (sign toy (pos 7) draft private_key >>= λ n. verify toy n authority) ≡ ok tt
verify-sign_ad_run =
    verify-sign_ad toy private_key authority (pos 7) draft toy-KeyPair refl
      (omega arith, omega arith, omega arith, omega arith)

ad_payload-injective_run :
    record draft { signature = 1 ∷ []; supports_thinking = true }
    ≡ record draft { signature = 1 ∷ []; supports_thinking = true }
unfolding field_bytes format_int payload
ad_payload-injective_run =
    ad_payload-injective draft (record draft { signature = 1 ∷ []; supports_thinking = true })
      (omega arith) (omega arith) (omega arith) (omega arith) refl

one_ad-IsKeyed : IsKeyed one_ad
unfolding lookup
one_ad-IsKeyed = ((refl, tt), (refl, tt))

one_newer-IsKeyed : IsKeyed one_newer
one_newer-IsKeyed =
    upsert-IsKeyed toy one_ad newer authority one_newer one_ad-IsKeyed newer_upserted

upsert_monotone_example :
    (now : ModelAd) × (lookup bytes_dec (ad_key ad.host_member_id ad.model_id) one_newer ≡ some now)
    × (leb_ℤ ad.revision now.revision ≡ true)
upsert_monotone_example =
    upsert_monotone toy one_ad newer authority (ad_key ad.host_member_id ad.model_id) ad
      newer_upserted found
  where
    found : lookup bytes_dec (ad_key ad.host_member_id ad.model_id) one_ad ≡ some ad
    found = unfold program in refl

get-upsert_run :
    get (pos 300) one_newer (codes "ann") (codes "llama3:latest")
    ≡ ite
        (bytes_dec newer.host_member_id (codes "ann"))
        (ite
          (bytes_dec newer.model_id (codes "llama3:latest"))
          (some (as_seen (pos 300) newer))
          (get (pos 300) one_ad (codes "ann") (codes "llama3:latest")))
        (get (pos 300) one_ad (codes "ann") (codes "llama3:latest"))
get-upsert_run =
    get-upsert toy one_ad newer authority (pos 300) (codes "ann") (codes "llama3:latest")
      (omega arith) (omega arith) newer_upserted

list_available-get_run :
    All (IsShown (λ m. m) (pos 101) one_ad) (list_available (λ m. m) (pos 101) one_ad)
list_available-get_run = list_available-get (λ m. m) (pos 101) one_ad Perm.rfl one_ad-IsKeyed
