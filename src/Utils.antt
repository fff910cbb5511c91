-- ===== src/Utils.antt =====
-- runner/utils: the types that the runner and the agent share.
pub mod Executes
pub mod Logs
