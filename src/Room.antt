-- ===== src/Room.antt =====
-- internal/room: signed membership records, the roster that collects them, and invitations.
pub mod Membership
pub mod Roster
pub mod Invitation
mod Tests
