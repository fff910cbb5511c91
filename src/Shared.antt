-- ===== src/Shared.antt =====
-- The module shared by dispatcher and runner: shared/.
pub mod Specs
pub mod S3
pub mod Rmq
