-- ===== src/Runner.antt =====
-- internal/runner/controller.go: the companion process that starts the inference engine and serves
-- one request at a time from it.
pub mod ExtraArgs
pub mod OutputTail
pub mod Controller
mod Tests
