-- ===== src/Ftp/Handlers.antt =====
-- The command handlers of netfiles/src/ftp/ftp_command_processor.cpp.
pub mod Login
pub mod Ports
pub mod Dial
pub mod Files
pub mod Info
