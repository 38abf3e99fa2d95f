-- ===== src/Helpers.antt =====
-- src/helpers
pub mod Utils
pub mod SafeQueue
