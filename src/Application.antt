-- ===== src/Application.antt =====
-- app/application/services: the services behind the HTTP routes; and the container that starts them, with the
-- configuration.
pub mod Tasks
pub mod Executions
pub mod Settings
pub mod Stats
pub mod Environment
pub mod Dependencies
pub mod Providers
pub mod Auth
pub mod Triggers
pub mod Configuration
pub mod Container
