-- ===== src/Master.antt =====
-- daemon/master.hpp, daemon/master_impl.hpp
pub mod Services
pub mod Work
pub mod Reload
pub mod Backtrace
pub mod Class
mod Tests
