-- ===== src/Net.antt =====
-- What the program uses of packages net and net/http.
pub mod Header
pub mod Addr
pub mod Ip
