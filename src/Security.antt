-- ===== src/Security.antt =====
-- netfiles/src/security/access_control.cpp: the user store and the access controller.
pub mod Users
pub mod Stored
pub mod LastLine
pub mod Access
