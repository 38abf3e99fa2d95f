-- ===== src/Sync.antt =====
-- src/sync: the shared data of master and backup, and the two roles.
pub mod PktParser
pub mod RecentData
pub mod HttpData
pub mod Backup
pub mod Master
pub mod Writes
pub mod Listing
pub mod Controller
pub mod Cluster
