-- ===== src/Daemon.antt =====
-- daemon/daemon.hpp, daemon/daemon_impl.hpp
pub mod Monitor
pub mod Start
pub mod Reload
pub mod Class
mod Tests
