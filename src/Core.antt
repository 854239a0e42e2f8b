-- ===== src/Core.antt =====
-- netfiles/src/core: string helpers (utils.hpp) and the file system behind async_fs.cpp.
pub mod Utils
pub mod Fs
