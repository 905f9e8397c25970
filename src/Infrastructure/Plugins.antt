-- ===== src/Infrastructure/Plugins.antt =====
-- app/infrastructure/plugins: the packages and the sources that are added to a running program.
pub mod Dependencies
pub mod Store
