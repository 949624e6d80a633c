-- ===== src/Dns.antt =====
-- internal/dns: what the daemon observes and answers of the names of the host.
pub mod HostFile
pub mod Alias
pub mod Listeners
pub mod Forwarder
mod Examples
