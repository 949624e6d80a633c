-- ===== src/Reconciler/Tick.antt =====
-- internal/reconciler/reconciler.go and access.go: Reconcile, one tick, Loop, which repeats it, and
-- ApplyAccess.
pub mod Watch
pub mod Paths
pub mod Rules
pub mod Ipv6
pub mod AccessDiff
pub mod Teardown
pub mod Cycle
mod Examples
