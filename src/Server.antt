-- ===== src/Server.antt =====
-- The HTTP server, `src/server.c`.
pub mod Pool
pub mod Utf8
