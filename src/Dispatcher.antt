-- ===== src/Dispatcher.antt =====
-- The HTTP front of the judge: dispatcher/internal.
pub mod Validate
pub mod Endpoints
pub mod Startup
