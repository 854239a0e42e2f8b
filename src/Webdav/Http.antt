-- ===== src/Webdav/Http.antt =====
-- netfiles/src/webdav/http_parser.hpp and http_parser.cpp.
pub mod Types
pub mod Url
pub mod RequestLine
pub mod Headers
pub mod Response
pub mod Request
pub mod Date
pub mod Filename
