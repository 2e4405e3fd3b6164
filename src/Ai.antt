-- ===== src/Ai.antt =====
-- Analyses of businesses by a provider: the service that takes requests and the worker that runs them.
pub mod Service
pub mod Processor
pub mod Limits
pub mod Outcome
pub mod Tests
