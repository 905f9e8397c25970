-- ===== src/Infrastructure.antt =====
-- app/infrastructure: the tables with their repositories, the plugin storage and the tokens.
pub mod Browser
pub mod Logging
pub mod Database
pub mod Repositories
pub mod Plugins
pub mod Auth
