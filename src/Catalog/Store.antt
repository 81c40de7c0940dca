-- ===== src/Catalog/Store.antt =====
-- ad.go: the catalog. Each method holds the lock throughout, so it is one step on the map. The
-- order in which a list is read from the map is an argument.
use woolwire.Base.{
  Bool, Bytes, List, Option, Result, [], add_ℤ, bytes_dec, codes, fail_if, false, if◌then◌else◌,
  ite, keep, ltb_ℤ, map, none, not, ok, some, true, ℕ, ℤ, ◌&&◌, ◌++◌, ◌>>◌, ◌∷◌,
}
use woolwire.Base.Maps.{lookup, put}
use woolwire.Identity.{Crypto}
use woolwire.Catalog.Ad.{ModelAd, Error, older_revision, verify}

abbrev pub stale_ad_timeout_seconds : ℕ
stale_ad_timeout_seconds = 90

abbrev pub Catalog : Type 0
Catalog = List (Bytes × ModelAd)

abbrev pub offline : Bytes
offline = codes "offline"

abbrev pub new_catalog : Catalog
new_catalog = []

unfoldable pub ad_key : Bytes → Bytes → Bytes
ad_key host_member_id model_id = host_member_id ++ b'/' ∷ model_id

-- Whether there is an advertisement under the key that is newer.
unfoldable pub is_older : Option ModelAd → ModelAd → Bool
is_older none ad = false
is_older (some existing) ad = ltb_ℤ ad.revision existing.revision

unfoldable pub upsert : Crypto → Catalog → ModelAd → Bytes → Result Error Catalog
unfolding is_older ad_key
upsert c ads ad public = do
  verify c ad public
  fail_if (is_older (lookup bytes_dec (ad_key ad.host_member_id ad.model_id) ads) ad) older_revision
  ok (put bytes_dec (ad_key ad.host_member_id ad.model_id) ad ads)

-- `now - ad.Timestamp > 90`
abbrev pub is_expired : ℤ → ModelAd → Bool
is_expired now ad = ltb_ℤ (add_ℤ ad.timestamp stale_ad_timeout_seconds) now

abbrev pub is_available : ℤ → ModelAd → Bool
is_available now ad = not (is_expired now ad) && ite (bytes_dec ad.availability offline) false true

unfoldable pub list_available : (Catalog → Catalog) → ℤ → Catalog → List ModelAd
list_available order now ads = keep (is_available now) (map (λ e. e.1) (order ads))

unfoldable pub list : (Catalog → Catalog) → Catalog → List ModelAd
list order ads = map (λ e. e.1) (order ads)

-- What `Get` returns of what it finds.
abbrev pub as_seen : ℤ → ModelAd → ModelAd
as_seen now ad = if is_expired now ad then record ad { availability = offline } else ad

unfoldable pub get : ℤ → Catalog → Bytes → Bytes → Option ModelAd
unfolding ad_key
get now ads host_member_id model_id = elim (lookup bytes_dec (ad_key host_member_id model_id) ads) [
  | none ↦ none
  | some ad ↦ some (as_seen now ad)
]
