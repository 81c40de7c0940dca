-- ===== src/Catalog/Laws.antt =====
-- ad.go: what the catalog promises of its operations.
use mathlib.Core.HLevel.{hedberg}
use mathlib.Core.List.{Perm}
use mathlib.Core.List.Perm
use woolwire.Base.{
  All, Bool, Bytes, List, Option, [], ap, arith, bytes_dec, false, ite, keep, leb_ℤ, leb_ℤ_refl,
  map, ok, refl, some, subst, sym, true, ℕ_discrete, ℤ, ℤ_discrete, ◌∙◌, ◌∷◌, ◌≡◌, ◌≢◌,
}
use woolwire.Base.Maps.{
  lookup, put, lookup-put, Distinct, put-Distinct, put-All, lookup-All, All-imp,
}
use woolwire.Base.Perms.{All-map, All-perm}
use woolwire.Identity.{Crypto}
use woolwire.Catalog.Ad.{ModelAd, verify}
use woolwire.Catalog.Store.{
  Catalog, ad_key, is_older, upsert, as_seen, is_expired, is_available, list_available, get,
  offline,
}
use woolwire.Catalog.Keys.{NoSlash, ad_key-injective}

ad-set : IsSet (Option ModelAd)
ad-set = hedberg (hlevel (ℕ_discrete, ℤ_discrete))

module _ (c : Crypto) (ads : Catalog) (ad : ModelAd) (public : Bytes) {new : Catalog} where
  -- What a successful `Upsert` has done.
  upserted :
      upsert c ads ad public ≡ ok new
      → (new ≡ put bytes_dec (ad_key ad.host_member_id ad.model_id) ad ads)
        × (is_older (lookup bytes_dec (ad_key ad.host_member_id ad.model_id) ads) ad ≡ false)
        × (verify c ad public ≡ ok tt)
  unfolding upsert
  upserted e = (ground arith, ground arith, ground arith)

  -- After an Upsert that succeeds, a key that had an advertisement has one with at least its
  -- revision.
  pub upsert_monotone :
      (k : Bytes) (old : ModelAd)
      → upsert c ads ad public ≡ ok new
      → lookup bytes_dec k ads ≡ some old
      → (now : ModelAd) × (lookup bytes_dec k new ≡ some now)
        × (leb_ℤ old.revision now.revision ≡ true)
  unfolding is_older
  upsert_monotone k old e h =
      let u = upserted e in
      let at = lookup-put bytes_dec (ad_key ad.host_member_id ad.model_id) k ad ads in
      elim (bytes_dec (ad_key ad.host_member_id ad.model_id) k) [
        | yes q ↦ (ad, ground (arith, u.0, at), ground (arith, u.1))
        | no n ↦ (old, ground (arith, u.0, at), leb_ℤ_refl old.revision)
      ]

  -- After an Upsert that succeeds, Get returns the new advertisement, as it is seen at that time,
  -- for its host and model, and for any other host or model what it returned before, if no slash
  -- stands in the identifiers of the two hosts.
  pub get-upsert :
      (time : ℤ) (h m : Bytes)
      → NoSlash h
      → NoSlash ad.host_member_id
      → upsert c ads ad public ≡ ok new
      → get time new h m
        ≡ ite
            (bytes_dec ad.host_member_id h)
            (ite (bytes_dec ad.model_id m) (some (as_seen time ad)) (get time ads h m))
            (get time ads h m)
  unfolding get
  get-upsert time h m sh sa e =
      let q = upserted e in
      ground (
        arith,
        q.0,
        lookup-put bytes_dec (ad_key ad.host_member_id ad.model_id) (ad_key h m) ad ads,
        ad_key-injective ad.host_member_id h ad.model_id m sa sh,
      )

-- Every advertisement stands under its own key, and no key stands twice.
abbrev pub IsKeyed : Catalog → Type 0
IsKeyed ads = All (λ e. e.0 ≡ ad_key e.1.host_member_id e.1.model_id) ads × Distinct bytes_dec ads

-- An Upsert that succeeds keeps a catalog in which every advertisement stands under its own key
-- and no key stands twice.
pub upsert-IsKeyed :
    (c : Crypto) (ads : Catalog) (ad : ModelAd) (public : Bytes) (new : Catalog)
    → IsKeyed ads
    → upsert c ads ad public ≡ ok new
    → IsKeyed new
upsert-IsKeyed c ads ad public new k e = subst IsKeyed (sym (upserted c ads ad public e).0) (
  put-All bytes_dec (λ e. e.0 ≡ ad_key e.1.host_member_id e.1.model_id)
      (ad_key ad.host_member_id ad.model_id) ad ads refl k.0,
  put-Distinct bytes_dec (ad_key ad.host_member_id ad.model_id) ad ads k.1,
)

keep-All :
    {A : Type 0} (P : A → Type 0) (p : A → Bool) (l : List A)
    → All P l
    → All (λ x. P x × (p x ≡ true)) (keep p l)
keep-All P p [] a = tt
keep-All {A} P p (x ∷ l) a = head_kept (p x) refl (keep-All P p l a.1)
  where
    head_kept :
        (b : Bool)
        → p x ≡ b
        → All (λ x. P x × (p x ≡ true)) (keep p l)
        → All (λ x. P x × (p x ≡ true)) (elim b [ true ↦ x ∷ keep p l | false ↦ keep p l ])
    head_kept true z rest = ((a.0, z), rest)
    head_kept false z rest = rest

module _ (order : Catalog → Catalog) (now : ℤ) where
  -- What a list shows is what a read shows.
  abbrev pub IsShown : Catalog → ModelAd → Type 0
  IsShown ads ad =
      (get now ads ad.host_member_id ad.model_id ≡ some ad)
      × (ad.availability ≢ offline)
      × (is_expired now ad ≡ false)

  -- In a catalog where every advertisement stands under its own key and no key stands twice, every
  -- advertisement that ListAvailable returns is the one that Get returns for its host and model,
  -- is not offline, and has not expired, in whatever order the map is read.
  pub list_available-get :
      (ads : Catalog)
      → Perm (order ads) ads
      → IsKeyed ads
      → All (IsShown ads) (list_available order now ads)
  unfolding list_available get
  list_available-get ads p k =
      let Found : ModelAd → Type 0 =
        λ ad. lookup bytes_dec (ad_key ad.host_member_id ad.model_id) ads ≡ some ad in
      let found : All (λ e. Found e.1) ads = both ads k.0 (lookup-All bytes_dec ads k.1) in
      All-imp (λ ad f. (ground (arith, f.0, f.1), (λ q. ground (arith, f.1)), ground (arith, f.1)))
        (keep (is_available now) (map (λ e. e.1) (order ads)))
        (keep-All Found (is_available now) (map (λ e. e.1) (order ads)) (
          All-map Found (λ e. e.1) (order ads)
            (All-perm (λ e. Found e.1) (λ e. ad-set _ _) (Perm.symm p) found)))
    where
      both :
          (l : Catalog)
          → All (λ e. e.0 ≡ ad_key e.1.host_member_id e.1.model_id) l
          → All (λ e. lookup bytes_dec e.0 ads ≡ some e.1) l
          → All (λ e. lookup bytes_dec (ad_key e.1.host_member_id e.1.model_id) ads ≡ some e.1) l
      both [] a b = tt
      both (e ∷ l) a b = (ap (λ z. lookup bytes_dec z ads) (sym a.0) ∙ b.0, both l a.1 b.1)
