-- ===== src/Deployer/Deploy.antt =====
-- deployer.go: the first deploy of an app from git, and its redeploy.
mod Tests
pub mod State
pub mod Request
pub mod Run
pub mod Kept
pub mod Held
pub mod Live
pub mod Ends
pub mod Owner
pub mod Honest
