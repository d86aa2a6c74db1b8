-- ===== src/Old.antt =====
-- The older code: old-code/libs, old-code/old/linux, old-code/old/osx, old-code/old/win32 and
-- old-code/server.
pub mod Table
pub mod TableLaws
pub mod Client
pub mod Server
pub mod ServerLaws
pub mod Release
pub mod Sockets
pub mod Windows
