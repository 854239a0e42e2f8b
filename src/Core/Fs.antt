-- ===== src/Core/Fs.antt =====
-- The file system that netfiles/src/core/async_fs.cpp and the `std::filesystem` calls work on.
pub mod Disk
pub mod Walk
pub mod Ops
pub mod Canonical
pub mod Frame
pub mod AtReal
pub mod Copy
pub mod Files
