-- ===== src/XtRecent.antt =====
-- src/xt_recent: the tables of the kernel's recent match.
pub mod Entry
pub mod Action
pub mod Parser
pub mod Updates
pub mod Proc
