-- ===== src/Composer.antt =====
-- internal/composer: the order in which the services of an app are started.
mod Tests
pub mod Topological
