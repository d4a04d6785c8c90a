-- ===== src/Deployer.antt =====
-- internal/deployer: the update transaction of an app.
mod Tests
pub mod Program
pub mod State
pub mod Recovery
pub mod Phases
pub mod Update
pub mod Deploy
pub mod Redeploy
pub mod Storage
