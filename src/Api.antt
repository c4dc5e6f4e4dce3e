-- ===== src/Api.antt =====
-- internal/api: the HTTP interface of the administration.
pub mod LoginLimiter
pub mod Login
pub mod Logs
pub mod Maintenance
pub mod Users
pub mod Tokens
pub mod Gate
pub mod Router
pub mod Acl
pub mod Audits
pub mod Settings
