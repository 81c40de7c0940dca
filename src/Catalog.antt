-- ===== src/Catalog.antt =====
-- internal/catalog: signed advertisements of models and the catalog that keeps the latest of each.
pub mod Ad
pub mod Signed
pub mod Store
pub mod Keys
pub mod Laws
mod Tests
