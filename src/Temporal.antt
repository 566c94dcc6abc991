-- ===== src/Temporal.antt =====
-- The package temporal: the activity pipeline and the helpers around the Temporal SDK.
pub mod Types
pub mod Sdk
pub mod Registry
pub mod Waits
pub mod Resumable
pub mod Pipeline
pub mod Lifecycle
pub mod Public
pub mod Client
pub mod Signals
pub mod Tests
