-- ===== src/Agent.antt =====
-- The in-container agent: ajagent/internal.
pub mod Verdict
pub mod LimitWriter
pub mod Signals
pub mod FindTestFiles
pub mod RunTest
pub mod Session
