-- ===== src/LogTailer.antt =====
-- src/logs/LogTailer.cpp.
pub mod Glob
pub mod Lines
pub mod Examples
