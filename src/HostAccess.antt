-- ===== src/HostAccess.antt =====
-- internal/hostaccess: the host routes of the tailnets.
pub mod Destinations
pub mod Tables
pub mod Sets
pub mod Sync
pub mod Device
pub mod Filter
pub mod Peers
pub mod Records
pub mod Resolved
pub mod Hosts
pub mod Split
pub mod Manager
mod Examples
mod NameExamples
