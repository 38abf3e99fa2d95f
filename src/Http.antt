-- ===== src/Http.antt =====
-- src/http: the sessions of the HTTP farms.
pub mod Session
pub mod Parser
pub mod Farms
