-- ===== src/Room/Roster.antt =====
-- roster.go. Each method runs under the roster's lock, so it is one step on the state.
pub mod Laws
pub mod Revocation
pub mod Convergence
use woolwire.Base.{
  Bool, Bytes, List, Option, Result, [], bytes_dec, err, fail_if, false, if◌then◌else◌, ite, leb_ℤ,
  length, map, none, not, ok, some, true, ◌==◌, ◌>>=◌, ◌>>◌, ◌∷◌,
}
use woolwire.Base.Maps.{lookup, put}
use woolwire.Identity.{Crypto, public_key_size}
use woolwire.Room.Membership
use woolwire.Room.Membership.{Membership, status_admitted, status_removed}

pub data Error : Type 0 where
  room_id_required authority_required wrong_room : Error
  unverified : Membership.Error → Error

pub record Roster : Type 0 where
  pub room_id : Bytes
  pub authority : Bytes
  pub members : List (Bytes × Membership)

unfoldable pub new_roster : Bytes → Bytes → Result Error Roster
new_roster room_id authority = do
  fail_if (length room_id == 0) room_id_required
  fail_if (not (length authority == public_key_size)) authority_required
  ok (record { room_id = room_id; authority = authority; members = [] })

-- A stale or duplicate update is ignored.
unfoldable pub is_stale : Option Membership → Membership → Bool
is_stale none m = false
is_stale (some existing) m = leb_ℤ m.roster_version existing.roster_version

unfoldable pub store_newer : Roster → Membership → Roster
unfolding is_stale
store_newer r m =
    if is_stale (lookup bytes_dec m.member_id r.members) m
    then r
    else record r { members = put bytes_dec m.member_id m r.members }

check_verified : Crypto → Roster → Membership → Result Error (Unit {0})
check_verified c r m = elim (Membership.verify c m r.authority) [
  | ok _ ↦ ok tt
  | err e ↦ err (unverified e)
]

-- The new roster, or the error with which `Apply` leaves the roster alone.
unfoldable pub apply : Crypto → Roster → Membership → Result Error Roster
unfolding check_verified
apply c r m = do
  fail_if (ite (bytes_dec m.room_id r.room_id) false true) wrong_room
  check_verified c r m
  ok (store_newer r m)

unfoldable pub get : Roster → Bytes → Option Membership
get r member_id = lookup bytes_dec member_id r.members

unfoldable pub list : Roster → List Membership
list r = map (λ e. e.1) r.members

unfoldable pub is_admitted : Roster → Bytes → Bytes → Bool
is_admitted r member_id device_public = elim (lookup bytes_dec member_id r.members) [
  | none ↦ false
  | some m ↦
      ite (bytes_dec m.status status_admitted)
        (ite (bytes_dec m.device_public device_public) true false) false
]

unfoldable pub is_removed : Roster → Bytes → Bool
is_removed r member_id = elim (lookup bytes_dec member_id r.members) [
  | none ↦ false
  | some m ↦ ite (bytes_dec m.status status_removed) true false
]

-- The caller's view of `Apply`: the roster afterwards, whatever was returned.
abbrev pub after : Roster → Result Error Roster → Roster
after r (ok s) = s
after r (err e) = r

unfoldable pub apply_all : Crypto → Roster → List Membership → Roster
apply_all c r [] = r
apply_all c r (m ∷ ms) = apply_all c (after r (apply c r m)) ms
