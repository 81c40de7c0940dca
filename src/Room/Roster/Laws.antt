-- ===== src/Room/Roster/Laws.antt =====
-- What one `Apply` does: which records it takes, and that a roster never goes back.
use woolwire.Base.{
  Bool, Bool-cases, Bytes, arith, bytes_dec, err, false, if_neg, if_pos, if◌then◌else◌, inl, inr,
  ite, leb_ℤ, leb_ℤ_refl, leb_ℤ_total, not, ok, some, true, ◌&&◌, ◌∙◌, ◌≡◌,
}
use woolwire.Base.Maps.{lookup, lookup-put}
use woolwire.Identity.{Crypto}
use woolwire.Room.Membership
use woolwire.Room.Membership.{Membership, status_admitted}
use woolwire.Room.Roster.{Roster, store_newer, is_stale, apply, after, get}

-- The record is signed by the authority of this room, and belongs to it.
abbrev pub Genuine : Crypto → Roster → Membership → Type 0
Genuine c r m = (m.room_id ≡ r.room_id) × (Membership.verify c m r.authority ≡ ok tt)

unfoldable pub genuine? : Crypto → Bytes → Bytes → Membership → Bool
genuine? c room_id authority m =
    ite (bytes_dec m.room_id room_id)
      (elim (Membership.verify c m authority) [ ok _ ↦ true | err _ ↦ false ]) false

-- Does the update replace what is stored?
unfoldable pub wins : Crypto → Roster → Membership → Bool
unfolding genuine?
wins c r m =
    genuine? c r.room_id r.authority m && not (is_stale (lookup bytes_dec m.member_id r.members) m)

-- Every stored record is genuine and stands under its own member id.
abbrev pub IsGenuine : Crypto → Roster → Type 0
IsGenuine c r = (k : Bytes) (m : Membership) → get r k ≡ some m → (m.member_id ≡ k) × Genuine c r m

module _ (c : Crypto) where
  pub get-apply :
      (r : Roster) (m : Membership) (k : Bytes)
      → get (after r (apply c r m)) k
        ≡ (if wins c r m then ite (bytes_dec m.member_id k) (some m) (get r k) else get r k)
  unfolding get apply store_newer wins is_stale
  get-apply r m k = ground (arith, lookup-put bytes_dec m.member_id k m r.members)

  pub apply-keeps :
      (r : Roster) (m : Membership)
      → ((after r (apply c r m)).room_id ≡ r.room_id)
        × ((after r (apply c r m)).authority ≡ r.authority)
  unfolding apply store_newer is_stale
  apply-keeps r m = ground arith

  wins-Genuine : (r : Roster) (m : Membership) → wins c r m ≡ true → Genuine c r m
  unfolding wins
  wins-Genuine r m h = ground arith

  -- Apply, whether it stores the record, ignores it or fails, keeps a roster in which every stored
  -- record stands under its own member id, belongs to the room and verifies under the room's
  -- authority.
  pub apply-IsGenuine :
      (r : Roster) (m : Membership) → IsGenuine c r → IsGenuine c (after r (apply c r m))
  apply-IsGenuine r m g k n h =
      ground (arith, get-apply r m k, apply-keeps r m, wins-Genuine r m, g k n)

  -- If a roster holds a record for a member, then after Apply of any record it holds one for that
  -- member whose version is at least as high.
  pub apply_monotone :
      (r : Roster) (m : Membership) (k : Bytes) (old : Membership)
      → get r k ≡ some old
      → (new : Membership) × (get (after r (apply c r m)) k ≡ some new)
        × (leb_ℤ old.roster_version new.roster_version ≡ true)
  unfolding wins is_stale get
  apply_monotone r m k old h = elim (Bool-cases (wins c r m)) [
    | inr lost ↦ (old, rw (get-apply r m k, lost) h, leb_ℤ_refl old.roster_version)
    | inl won ↦ elim (bytes_dec m.member_id k) [
      | yes e ↦ (
        m,
        rw (get-apply r m k, won) (if_pos (bytes_dec m.member_id k) e _ _),
        leb_ℤ_total m.roster_version old.roster_version (ground arith),
      )
      | no ne ↦ (
        old,
        rw (get-apply r m k, won) (if_neg (bytes_dec m.member_id k) ne _ _ ∙ h),
        leb_ℤ_refl old.roster_version,
      )
    ]
  ]
