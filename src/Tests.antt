-- ===== src/Tests.antt =====
-- Concrete inputs for the theorems about the code under src/.
pub mod Data
pub mod Parsers
pub mod Nodes
pub mod Links
pub mod Farms
pub mod Control
pub mod Events
pub mod Cluster
pub mod Scan
