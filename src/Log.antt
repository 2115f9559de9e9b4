-- ===== src/Log.antt =====
-- log/: the log files and the logger.
pub mod LogFile
pub mod Logger
