-- ===== src/Room/Roster/Revocation.antt =====
-- A removal that has been heard stands against every record that is not newer.
use woolwire.Base.{All, Bytes, List, [], arith, false, leb_ℤ, some, true, ◌∷◌, ◌≡◌, ◌≢◌}
use woolwire.Identity.{Crypto}
use woolwire.Room.Membership.{Membership, status_removed, status_admitted}
use woolwire.Room.Roster.{Roster, apply, after, apply_all, get, is_admitted, is_removed, is_stale}
use woolwire.Room.Roster.Laws.{wins, get-apply}

removed-ne-admitted : status_removed ≢ status_admitted
removed-ne-admitted e = cc

-- A record for this member that is no newer than `old`.
abbrev pub NotNewer : Bytes → Membership → Membership → Type 0
NotNewer k old m = m.member_id ≡ k → leb_ℤ m.roster_version old.roster_version ≡ true

get-apply_old :
    (c : Crypto) (r : Roster) (k : Bytes) (old m : Membership)
    → get r k ≡ some old
    → NotNewer k old m
    → get (after r (apply c r m)) k ≡ some old
unfolding get wins is_stale
get-apply_old c r k old m h n = ground (arith, get-apply c r m k)

get-apply_all_old :
    (c : Crypto) (r : Roster) (k : Bytes) (old : Membership) (ms : List Membership)
    → get r k ≡ some old
    → All (NotNewer k old) ms
    → get (apply_all c r ms) k ≡ some old
unfolding apply_all
get-apply_all_old c r k old [] h n = h
get-apply_all_old c r k old (m ∷ ms) h n =
    get-apply_all_old c (after r (apply c r m)) k old ms (get-apply_old c r k old m h n.0) n.1

-- A roster that holds a removal for a member keeps reporting that member as removed, and admits it
-- under no device, through any sequence of records none of which is a newer record of that member.
pub is_admitted-apply_all_removed :
    (c : Crypto) (r : Roster) (k : Bytes) (old : Membership) (ms : List Membership)
    → get r k ≡ some old
    → old.status ≡ status_removed
    → All (NotNewer k old) ms
    → (is_removed (apply_all c r ms) k ≡ true)
      × ((device : Bytes) → is_admitted (apply_all c r ms) k device ≡ false)
unfolding is_admitted is_removed get
is_admitted-apply_all_removed c r k old ms h s n = (
  ground (arith, get-apply_all_old c r k old ms h n),
  λ device. ground (arith, get-apply_all_old c r k old ms h n, removed-ne-admitted),
)
