-- ===== src/Api.antt =====
-- app/api: what stands between a request and the routes.
pub mod Middleware
