-- ===== src/Handler.antt =====
-- core/module/handler: the steps of the pipeline, the responses, and the handler that runs them.
pub mod Responses
pub mod Interfaces
pub mod Steps
pub mod ResponseSteps
pub mod Instrumented
pub mod Serving
pub mod Running
pub mod Wrapping
pub mod Pipeline
pub mod Signing
pub mod Bilateral
pub mod Configured
pub mod Initialized
pub mod Counted
pub mod Tests
