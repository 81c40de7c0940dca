-- ===== src/Localapi.antt =====
-- internal/localapi: of the local API, the choice of the visible branch of a conversation.
pub mod ChatBranch
