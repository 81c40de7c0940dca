-- ===== src/Inference.antt =====
-- internal/inference: the fair queue, the prompt budget and the lifecycle of the managed model.
pub mod Limits
pub mod Queue
pub mod Prompt
pub mod Service
mod Tests
