-- ===== src/Webdav.antt =====
-- The WebDAV server of netfiles/src/webdav: parser, XML, resources and the handler of requests.
pub mod World
pub mod Http
pub mod Xml
pub mod Resource
pub mod Handler
