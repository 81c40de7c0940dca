-- ===== src/Identity.antt =====
-- internal/identity: tokens and signing payloads (canonical.go, identity.go). The signature scheme,
-- the hash and base64 are Go's standard library, taken as the parameter `Crypto`.
pub mod Decimal
pub mod Payload
pub mod Injective
pub mod Keys
pub mod Toy
pub mod Tests
unfoldable pub use Decimal.{digits, format_int}
unfoldable pub use Payload.*
