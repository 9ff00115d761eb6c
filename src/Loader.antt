-- ===== src/Loader.antt =====
-- loader/loader_impl.hpp
pub mod Level
pub mod Size
pub mod Settings
pub mod State
pub mod Config
pub mod Class
mod Tests
