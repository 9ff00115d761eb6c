-- ===== src/Cli.antt =====
-- daemon/cli_parser.cpp
pub mod State
pub mod Options
pub mod Load
pub mod Scan
pub mod Parse
mod Tests
