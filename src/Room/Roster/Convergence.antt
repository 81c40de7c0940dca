-- ===== src/Room/Roster/Convergence.antt =====
-- Two members that hear the same records in different orders end with the same roster.
use mathlib.Core.HLevel.{hedberg}
use mathlib.Core.List.{Mem, Perm}
use woolwire.Base.{
  Bytes, List, Option, [], arith, bytes_dec, false, if◌then◌else◌, ite, leb_ℤ, leb_ℤ_antisymm,
  leb_ℤ_total, leb_ℤ_trans, none, not, refl, some, sym, true, ℕ_discrete, ◌&&◌, ◌∙◌, ◌∷◌, ◌≡◌,
}
use woolwire.Base.Perms.{run_all, run_all-perm}
use woolwire.Identity.{Crypto}
use woolwire.Room.Membership.{Membership}
use woolwire.Room.Roster.{Roster, apply, after, apply_all, get, is_stale}
use woolwire.Room.Roster.Laws.{genuine?, wins, get-apply, apply-keeps, Genuine}

membership-set : IsSet (Option Membership)
membership-set = hedberg (hlevel (ℕ_discrete))

-- What one record does to the entry of one member, by itself.
merge : Crypto → Bytes → Bytes → Bytes → Option Membership → Membership → Option Membership
merge c room_id authority k o m =
    if genuine? c room_id authority m && not (is_stale o m)
    then ite (bytes_dec m.member_id k) (some m) o
    else o

stale_after :
    (a b : Membership) (o : Option Membership)
    → is_stale o b ≡ true
    → leb_ℤ a.roster_version b.roster_version ≡ true
    → is_stale o a ≡ true
unfolding is_stale
stale_after a b none h k = cc
stale_after a b (some x) h k = leb_ℤ_trans a.roster_version b.roster_version x.roster_version k h

-- A record that beats one that is no older is itself no older.
fresh_after :
    (a b : Membership) (o : Option Membership)
    → is_stale o a ≡ true
    → is_stale o b ≡ false
    → leb_ℤ a.roster_version b.roster_version ≡ true
unfolding is_stale
fresh_after a b none h k = cc
fresh_after a b (some x) h k =
    leb_ℤ_trans a.roster_version x.roster_version b.roster_version h
      (leb_ℤ_total b.roster_version x.roster_version k)

module _ (c : Crypto) where
  -- The authority never signs two different records of one member with one version.
  abbrev pub NoClash : Roster → List Membership → Type 0
  NoClash r ms =
      (a b : Membership)
      → Mem a ms
      → Mem b ms
      → Genuine c r a
      → Genuine c r b
      → a.member_id ≡ b.member_id
      → a.roster_version ≡ b.roster_version
      → a ≡ b

  get-merge :
      (r : Roster) (m : Membership) (k : Bytes)
      → get (after r (apply c r m)) k ≡ merge c r.room_id r.authority k (get r k) m
  unfolding merge wins get
  get-merge r m k = ground (arith, get-apply c r m k)

  get-apply_all :
      (ms : List Membership) (r : Roster) (k : Bytes)
      → get (apply_all c r ms) k ≡ run_all (merge c r.room_id r.authority k) (get r k) ms
  unfolding apply_all
  get-apply_all [] r k = refl
  get-apply_all (m ∷ ms) r k =
      let kept = apply-keeps c r m in
      rw (get-apply_all ms (after r (apply c r m)) k, kept.0, kept.1, get-merge r m k)

  merge_comm :
      (r : Roster) (k : Bytes) (a b : Membership) (o : Option Membership)
      → (Genuine c r a
          → Genuine c r b
          → a.member_id ≡ b.member_id
          → a.roster_version ≡ b.roster_version
          → a ≡ b)
      → let f = merge c r.room_id r.authority k in f (f o a) b ≡ f (f o b) a
  unfolding merge genuine? is_stale
  merge_comm r k a b o h = ground (
    arith,
    stale_after a b o,
    stale_after b a o,
    fresh_after a b o,
    fresh_after b a o,
    leb_ℤ_total a.roster_version b.roster_version,
    leb_ℤ_total b.roster_version a.roster_version,
    leb_ℤ_antisymm a.roster_version b.roster_version,
  )

  -- If the authority never signs two different records of one member with one version, then two
  -- rosters that hear the same records in different orders hold the same record for every member.
  pub apply_all-perm :
      (r : Roster) (ms ns : List Membership)
      → Perm ms ns
      → NoClash r ms
      → (k : Bytes) → get (apply_all c r ms) k ≡ get (apply_all c r ns) k
  apply_all-perm r ms ns p h k =
      get-apply_all ms r k
      ∙ run_all-perm (merge c r.room_id r.authority k) membership-set p
          (λ a b ma mb o. merge_comm r k a b o (h a b ma mb)) (get r k)
      ∙ sym (get-apply_all ns r k)
