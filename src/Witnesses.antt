-- ===== src/Witnesses.antt =====
-- Concrete services and data, at which the theorems are applied.
pub mod Samples
pub mod Flushes
pub mod Rollups
pub mod Requests
pub mod Writes
pub mod Systems
pub mod Loads
pub mod Overlaps
pub mod Configurations
pub mod Deployment
