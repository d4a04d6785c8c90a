-- ===== src/Builder.antt =====
-- internal/builder: what an uploaded archive may put on the disk.
mod Tests
pub mod Archive
