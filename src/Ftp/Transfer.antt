-- ===== src/Ftp/Transfer.antt =====
-- netfiles/src/ftp/data_channel.cpp: the buffered file, the two transfer loops and the listings.
pub mod File
pub mod Loops
pub mod Listing
pub mod Channel
pub mod PortSearch
pub mod Send
pub mod Receive
