-- ===== src/Runner.antt =====
-- The runner: runner/internal and runner/pkg.
pub mod Prepare
pub mod Oci
pub mod Orchestrate
pub mod ExecSubm
pub mod WarmContainer
pub mod Engine
pub mod Startup
pub mod Images
