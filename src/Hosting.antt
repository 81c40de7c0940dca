-- ===== src/Hosting.antt =====
-- internal/hosting: GGUF headers, where an endpoint may lead, and the companions of a model.
pub mod Gguf
pub mod Destination
pub mod Companions
