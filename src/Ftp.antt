-- ===== src/Ftp.antt =====
-- netfiles/src/ftp: the control session, its commands, the data channels and the transfers.
pub mod Types
pub mod PathResolver
pub mod World
pub mod Transfer
pub mod Execute
pub mod Quiet
pub mod Handlers
pub mod Processor
pub mod Session
