-- ===== src/Proxy.antt =====
-- internal/proxy: choosing a backend, rewriting the path, serving a request.
pub mod Balancer
pub mod Rules
pub mod Rewrite
pub mod Paths
pub mod RequestId
pub mod Recorder
pub mod Decode
pub mod Request
pub mod Handler
