-- ===== src/Auth.antt =====
-- The web interface's sessions: internal/auth.
pub mod WebAuth
pub mod ProxyAuth
