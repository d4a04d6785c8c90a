-- ===== src/Version.antt =====
-- internal/version: the versions of releases.
mod Tests
pub mod Semver
