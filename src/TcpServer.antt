-- ===== src/TcpServer.antt =====
-- slaves/test/tcp_server.cpp
pub mod Config
pub mod Reply
pub mod Handler
pub mod Connection
pub mod Server
pub mod Client
pub mod Exchange
mod Tests
