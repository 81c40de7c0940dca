-- ===== src/Community.antt =====
-- internal/community: the signed event log of a room and the view that each member derives from it.
pub mod Event
pub mod Sanitize
pub mod Materialize
mod Tests
