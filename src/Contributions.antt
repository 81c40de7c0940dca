-- ===== src/Contributions.antt =====
-- internal/contributions: receipts that a host and a requester sign, and the ranking drawn from them.
pub mod Receipt
pub mod Leaderboard
mod Tests
