-- ===== src/Web.antt =====
-- internal/web: the state that the dashboard keeps in memory.
mod Tests
pub mod Limiter
pub mod BuildLog
pub mod Progress
pub mod Runner
pub mod Reconcile
